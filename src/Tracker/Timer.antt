-- ===== src/Tracker/Timer.antt =====
-- The count of the entries, and the timer that watches them.
use htkis_hyper_disk.Base.{
  ℕ, suc, ◌+◌, ◌≤◌, ◌<◌, ◌≡◌, refl, ap, ◌∙◌, Bool, true, false, ltb, if◌then◌else◌, arith,
  Bool-cases, ◌⊎◌, inl, inr, List, [], ◌∷◌, ◌++◌, length, length-append,
}
use htkis_hyper_disk.Tracker.{
  Entry, Call, reference, dereference, complete_not_ready, allocate, free, set_timer, cancel_timer,
  remove_dpc, Tracker, initialize, submit, complete, remove_irp, has_irp, watchdog,
}
use htkis_hyper_disk.Tracker.Balance.{
  Op, submitted, completed, scanned, step, run, remove_irp-found,
}
use htkis_hyper_disk.Tracker.Watchdog.{
  live, expirations, length-live_le, WatchdogResult, watchdog_scanned,
}

-- Whether the timer is set after some calls of the kernel, when it was or was not before them: it is
-- periodic, so it stays set until it is cancelled.
abbrev pub timer_set : Bool → List Call → Bool
timer_set b [] = b
timer_set b (set_timer ∷ cs) = timer_set true cs
timer_set b (cancel_timer ∷ cs) = timer_set false cs
timer_set b (_ ∷ cs) = timer_set b cs

timer_set-append :
    (b : Bool) (cs ds : List Call) → timer_set b (cs ++ ds) ≡ timer_set (timer_set b cs) ds
timer_set-append b [] ds = refl
timer_set-append b (set_timer ∷ cs) ds = timer_set-append true cs ds
timer_set-append b (cancel_timer ∷ cs) ds = timer_set-append false cs ds
timer_set-append b (remove_dpc ∷ cs) ds = timer_set-append b cs ds
timer_set-append b (reference i ∷ cs) ds = timer_set-append b cs ds
timer_set-append b (dereference i ∷ cs) ds = timer_set-append b cs ds
timer_set-append b (complete_not_ready i ∷ cs) ds = timer_set-append b cs ds
timer_set-append b (allocate ∷ cs) ds = timer_set-append b cs ds
timer_set-append b (free ∷ cs) ds = timer_set-append b cs ds

timer_set-expirations :
    (b : Bool) (now : ℕ) (es : List Entry) → timer_set b (expirations now es) ≡ b
timer_set-expirations b now [] = refl
timer_set-expirations b now (e ∷ es) = ground (arith, timer_set-expirations b now es)

-- The count is the length of the list, at most `n`; while an entry is listed, the timer is marked as
-- running; and while it is so marked, the calls of the kernel have set it.
record IsValid (n : ℕ) (t : Tracker) : Type 0 where
  count : t.active_count ≡ length t.active_list
  bound : t.active_count ≤ n
  watched : (t.active_count ≡ 0) ⊎ (t.timer_running ≡ true)
  armed : t.timer_running ≡ true → timer_set false t.trace ≡ true

submit-IsValid :
    (n : ℕ) (t : Tracker) (allocated : Bool) (now irp major minor : ℕ)
    → suc n < 4294967296
    → IsValid n t
    → IsValid (suc n) (submit t allocated now irp major minor)
unfolding submit
submit-IsValid n t false now irp major minor h v = record {
  count = v.count;
  bound = omega (arith, v.bound);
  watched = v.watched;
  armed = v.armed;
}
submit-IsValid n t true now irp major minor h v = elim (Bool-cases t.timer_running) [
  | inl on ↦ simp on (record {
    count = omega (arith, v.count, v.bound, length-append t.active_list (entry ∷ []));
    bound = omega (arith, v.bound);
    watched = inr refl;
    armed = λ h. timer_set-append false t.trace (allocate ∷ reference irp ∷ []) ∙ v.armed on;
  })
  | inr off ↦ simp off (record {
    count = omega (arith, v.count, v.bound, length-append t.active_list (entry ∷ []));
    bound = omega (arith, v.bound);
    watched = inr refl;
    armed =
        λ h. timer_set-append false (t.trace ++ (allocate ∷ reference irp ∷ [])) (set_timer ∷ []);
  })
]
  where
    entry : Entry
    entry = record {
      irp = irp;
      submit_timestamp = now;
      major_function = major;
      minor_function = minor;
      io_size = 0;
    }

complete-IsValid :
    (n : ℕ) (t : Tracker) (irp : ℕ)
    → suc n < 4294967296
    → IsValid n t
    → IsValid (suc n) (complete t irp)
unfolding complete
complete-IsValid n t irp h v = elim (Bool-cases (has_irp irp t.active_list)) [
  | inl found ↦
      let shorter : length (remove_irp irp t.active_list) + 1 ≡ length t.active_list =
        (remove_irp-found irp t.active_list found).0 in
      simp found (record {
        count = omega (arith, v.count, v.bound, shorter);
        bound = omega (arith, v.count, v.bound, shorter);
        watched = elim v.watched [
          | inl empty ↦ absurd (omega (arith, v.count, shorter))
          | inr on ↦ inr on
        ];
        armed = λ h. timer_set-append false t.trace (dereference irp ∷ free ∷ []) ∙ v.armed h;
      })
  | inr absent ↦ simp absent (record {
    count = v.count;
    bound = omega (arith, v.bound);
    watched = v.watched;
    armed = v.armed;
  })
]

watchdog-IsValid :
    (n : ℕ) (t : Tracker) (now : ℕ)
    → suc n < 4294967296
    → IsValid n t
    → IsValid (suc n) (watchdog t now)
watchdog-IsValid n t now h v =
    let w : WatchdogResult now t (watchdog t now) =
      watchdog_scanned t now v.count (omega (arith, v.bound)) in
    record {
      count = w.count;
      bound =
          omega (
            arith,
            w.count,
            ap length w.entries,
            length-live_le now t.active_list,
            v.count,
            v.bound,
          );
      watched = elim (Bool-cases (ltb 0 (length (live now t.active_list)))) [
        | inl more ↦ elim v.watched [
          | inl empty ↦ inl (
              omega (
                arith,
                w.count,
                ap length w.entries,
                length-live_le now t.active_list,
                v.count,
                empty,
              ))
          | inr on ↦ inr (w.timer ∙ simp more on)
        ]
        | inr done ↦ inl (ground (arith, w.count, ap length w.entries, done))
      ];
      armed = λ h. elim (Bool-cases (ltb 0 (length (live now t.active_list)))) [
        | inl more ↦
            ap (timer_set false) w.calls
            ∙ ap
                (λ b. timer_set false (
                  (t.trace ++ expirations now t.active_list) ++ (if b then set_timer ∷ [] else [])))
                more
            ∙ timer_set-append false (t.trace ++ expirations now t.active_list) (set_timer ∷ [])
        | inr done ↦ ground (arith, h, w.timer, done)
      ];
    }

step-IsValid :
    (n : ℕ) (t : Tracker) (op : Op) → suc n < 4294967296 → IsValid n t → IsValid (suc n) (step t op)
step-IsValid n t (submitted allocated now irp major minor) h v =
    submit-IsValid n t allocated now irp major minor h v
step-IsValid n t (completed irp) h v = complete-IsValid n t irp h v
step-IsValid n t (scanned now) h v = watchdog-IsValid n t now h v

run-IsValid :
    (n : ℕ) (t : Tracker) (ops : List Op)
    → n + length ops < 4294967296
    → IsValid n t
    → IsValid (n + length ops) (run t ops)
run-IsValid n t [] h v = record {
  count = v.count;
  bound = omega (arith, v.bound);
  watched = v.watched;
  armed = v.armed;
}
run-IsValid n t (op ∷ ops) h v =
    let r : IsValid (suc n + length ops) (run (step t op) ops) =
      run-IsValid (suc n) (step t op) ops (omega arith) (step-IsValid n t op (omega arith) v) in
    record { count = r.count; bound = omega (arith, r.bound); watched = r.watched; armed = r.armed }

-- The same for the outside: an empty list, or a timer that is marked and set.
pub record IsWatched (n : ℕ) (t : Tracker) : Type 0 where
  pub count : t.active_count ≡ length t.active_list
  pub bound : t.active_count ≤ n
  pub watched : (t.active_count ≡ 0) ⊎ (t.timer_running ≡ true)
  pub armed : (t.timer_running ≡ false) ⊎ (timer_set false t.trace ≡ true)

-- After HdIrpTrackerInit and fewer than 2 ^ 32 calls of HdIrpTrackerSubmit, HdIrpTrackerComplete and
-- HdIrpTrackerWatchdog in any order, the count is the length of the list and at most the number of
-- calls. Unless the list is empty, TimerRunning is true; and when it is, KeSetTimerEx has been called
-- for the periodic timer and KeCancelTimer has not been called after it.
pub run-IsWatched :
    (before : List Call) (ops : List Op)
    → length ops < 4294967296
    → IsWatched (length ops) (run (initialize before) ops)
unfolding initialize
run-IsWatched before ops h =
    let r : IsValid (0 + length ops) (run (initialize before) ops) =
      run-IsValid 0 (initialize before) ops (omega arith)
        (record { count = refl; bound = omega arith; watched = inl refl; armed = λ h. cc }) in
    record {
      count = r.count;
      bound = omega (arith, r.bound);
      watched = r.watched;
      armed = elim (Bool-cases (run (initialize before) ops).timer_running) [
        | inl on ↦ inr (r.armed on)
        | inr off ↦ inl off
      ];
    }
