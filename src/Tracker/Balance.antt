-- ===== src/Tracker/Balance.antt =====
-- What the tracker allocates it frees, and which references it takes it gives back.
use htkis_hyper_disk.Base.{
  ℕ, ◌+◌, ◌≡◌, ◌≢◌, refl, Bool, true, false, ltb, ◌==◌, if◌then◌else◌, arith, inl, inr, Bool-cases,
  List, [], ◌∷◌, ◌++◌, length, length-append, sub32,
}
use mathlib.Core.List.{append-nil, append_assoc}
use htkis_hyper_disk.Tracker.{
  Entry, Call, reference, dereference, complete_not_ready, allocate, free, set_timer, Tracker,
  initialize, submit, complete, remove_irp, has_irp, expired, expire_calls, scan, watchdog,
}
use htkis_hyper_disk.Tracker.Ledger.{
  entries_of, entries_of-append, Books, IsBalanced, Books-grow, Books-timer,
}

submit-IsBalanced :
    (x : ℕ) (t : Tracker) (allocated : Bool) (now irp major minor : ℕ)
    → IsBalanced x t
    → IsBalanced x (submit t allocated now irp major minor)
unfolding submit
submit-IsBalanced x t false now irp major minor b = b
submit-IsBalanced x t true now irp major minor b = elim (Bool-cases t.timer_running) [
  | inl on ↦ simp on listed
  | inr off ↦ simp off (
      Books-timer x (t.trace ++ cs) (set_timer ∷ []) (t.active_list ++ (entry ∷ [])) listed
        (inl refl))
]
  where
    entry : Entry
    entry = record {
      irp = irp;
      submit_timestamp = now;
      major_function = major;
      minor_function = minor;
      io_size = 0;
    }

    cs : List Call
    cs = allocate ∷ reference irp ∷ []

    listed : Books x (t.trace ++ cs) (t.active_list ++ (entry ∷ []))
    listed =
        Books-grow x t.trace cs t.active_list (t.active_list ++ (entry ∷ [])) b
          (omega (arith, length-append t.active_list (entry ∷ [])))
          (ground (arith, entries_of-append x t.active_list (entry ∷ [])))

pub remove_irp-found :
    (irp : ℕ) (es : List Entry)
    → has_irp irp es ≡ true
    → (length (remove_irp irp es) + 1 ≡ length es)
      × ((x : ℕ) → entries_of x (remove_irp irp es) + (if irp == x then 1 else 0) ≡ entries_of x es)
unfolding has_irp remove_irp
remove_irp-found irp [] h = cc
remove_irp-found irp (e ∷ es) h = elim (Bool-cases (e.irp == irp)) [
  | inl same ↦ (ground arith, λ x. ground arith)
  | inr other ↦
      let later : has_irp irp es ≡ true = ground arith in
      (
        ground (arith, (remove_irp-found irp es later).0),
        λ x. ground (arith, (remove_irp-found irp es later).1 x),
      )
]

complete-IsBalanced :
    (x : ℕ) (t : Tracker) (irp : ℕ) → IsBalanced x t → IsBalanced x (complete t irp)
unfolding complete
complete-IsBalanced x t irp b = elim (Bool-cases (has_irp irp t.active_list)) [
  | inl found ↦
      let removed = remove_irp-found irp t.active_list found in
      simp found (
        Books-grow x t.trace (dereference irp ∷ free ∷ []) t.active_list
          (remove_irp irp t.active_list) b (omega (arith, removed.0)) (ground (arith, removed.1 x)))
  | inr absent ↦ simp absent b
]

-- An expired entry leaves the list; the packet of a nonzero address is completed once.
expire-Books :
    (x : ℕ) (trace : List Call) (e : Entry) (es fs : List Entry)
    → x ≢ 0
    → Books x trace (fs ++ (e ∷ es))
    → Books x (trace ++ expire_calls e) (fs ++ es)
expire-Books x trace e es fs nz b = elim (Bool-cases (e.irp == 0)) [
  | inl none ↦ simp none (
      Books-grow x trace (free ∷ []) (fs ++ (e ∷ es)) (fs ++ es) b
        (omega (arith, length-append fs (e ∷ es), length-append fs es))
        (ground (arith, nz, entries_of-append x fs (e ∷ es), entries_of-append x fs es)))
  | inr some ↦ simp some (
      Books-grow x trace (complete_not_ready e.irp ∷ free ∷ []) (fs ++ (e ∷ es)) (fs ++ es) b
        (omega (arith, length-append fs (e ∷ es), length-append fs es))
        (ground (arith, entries_of-append x fs (e ∷ es), entries_of-append x fs es)))
]

-- The scan keeps the books of its tracker with the entries that it still has to look at.
scan-Books :
    (x now : ℕ) (es : List Entry) (t : Tracker)
    → x ≢ 0
    → Books x t.trace (t.active_list ++ es)
    → IsBalanced x (scan now es t)
unfolding scan
scan-Books x now [] t nz b = rw append-nil at b
scan-Books x now (e ∷ es) t nz b = elim (Bool-cases (expired now e)) [
  | inl old ↦ simp old (
      scan-Books x now es
        (record t { active_count = sub32 t.active_count 1; trace = t.trace ++ expire_calls e }) nz
        (expire-Books x t.trace e es t.active_list nz b))
  | inr young ↦ simp young (
      scan-Books x now es (record t { active_list = t.active_list ++ (e ∷ []) }) nz
        (rw append_assoc b))
]

watchdog-IsBalanced :
    (x : ℕ) (t : Tracker) (now : ℕ) → x ≢ 0 → IsBalanced x t → IsBalanced x (watchdog t now)
unfolding watchdog
watchdog-IsBalanced x t now nz b =
    let t' = scan now t.active_list (record t { active_list = [] }) in
    let b' : IsBalanced x t' =
      scan-Books x now t.active_list (record t { active_list = [] }) nz b in
    elim (Bool-cases (ltb 0 t'.active_count)) [
      | inl more ↦ simp more (Books-timer x t'.trace (set_timer ∷ []) t'.active_list b' (inl refl))
      | inr done ↦ simp done b'
    ]

-- What a run of the tracker does after HdIrpTrackerInit.
pub data Op : Type 0 where
  submitted : Bool → ℕ → ℕ → ℕ → ℕ → Op
  completed : ℕ → Op
  scanned : ℕ → Op

abbrev pub step : Tracker → Op → Tracker
step t (submitted allocated now irp major minor) = submit t allocated now irp major minor
step t (completed irp) = complete t irp
step t (scanned now) = watchdog t now

abbrev pub run : Tracker → List Op → Tracker
run t [] = t
run t (op ∷ ops) = run (step t op) ops

step-IsBalanced :
    (x : ℕ) (t : Tracker) (op : Op) → x ≢ 0 → IsBalanced x t → IsBalanced x (step t op)
step-IsBalanced x t (submitted allocated now irp major minor) nz b =
    submit-IsBalanced x t allocated now irp major minor b
step-IsBalanced x t (completed irp) nz b = complete-IsBalanced x t irp b
step-IsBalanced x t (scanned now) nz b = watchdog-IsBalanced x t now nz b

run-IsBalanced :
    (x : ℕ) (t : Tracker) (ops : List Op) → x ≢ 0 → IsBalanced x t → IsBalanced x (run t ops)
run-IsBalanced x t [] nz b = b
run-IsBalanced x t (op ∷ ops) nz b =
    run-IsBalanced x (step t op) ops nz (step-IsBalanced x t op nz b)

-- After HdIrpTrackerInit and any sequence of HdIrpTrackerSubmit, HdIrpTrackerComplete and
-- HdIrpTrackerWatchdog, every entry that was allocated is freed or still in the list; and for a packet
-- x that is not null, the references taken are those given back, plus the entries of x still in the
-- list, plus one for each time that the watchdog completed x, which it never gives back.
pub run-balance : (x : ℕ) (ops : List Op) → x ≢ 0 → IsBalanced x (run (initialize []) ops)
unfolding initialize
run-balance x ops nz =
    run-IsBalanced x (initialize []) ops nz (record { memory = refl; packets = refl })
