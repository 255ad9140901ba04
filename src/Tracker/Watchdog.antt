-- ===== src/Tracker/Watchdog.antt =====
-- One call of the watchdog against a filter of the list, by its own test.
use htkis_hyper_disk.Base.{
  ℕ, ◌+◌, ◌≤◌, ◌<◌, ◌≡◌, refl, sym, ap, ◌∙◌, true, false, ltb, if◌then◌else◌, arith, inl, inr,
  Bool-cases, List, [], ◌∷◌, ◌++◌, length, length-append, sub32,
}
use mathlib.Core.List.{append-nil, append_assoc}
use htkis_hyper_disk.Tracker.{
  Entry, Call, set_timer, Tracker, expired, expire_calls, scan, watchdog,
}

-- The entries that have not expired, in their order.
abbrev pub live : ℕ → List Entry → List Entry
live now [] = []
live now (e ∷ es) = if expired now e then live now es else e ∷ live now es

-- The calls for the entries that have.
abbrev pub expirations : ℕ → List Entry → List Call
expirations now [] = []
expirations now (e ∷ es) =
    if expired now e then expire_calls e ++ expirations now es else expirations now es

pub length-live_le : (now : ℕ) (es : List Entry) → length (live now es) ≤ length es
length-live_le now [] = omega arith
length-live_le now (e ∷ es) = ground (arith, length-live_le now es)

-- What the scan of `es` leaves of a tracker, given how many entries it still counts.
record Scanned (now : ℕ) (es : List Entry) (t u : Tracker) : Type 0 where
  pub entries : u.active_list ≡ t.active_list ++ live now es
  pub calls : u.trace ≡ t.trace ++ expirations now es
  pub count : u.active_count ≡ length u.active_list
  pub timer : u.timer_running ≡ t.timer_running

scan_lem :
    (now : ℕ) (es : List Entry) (t : Tracker)
    → t.active_count ≡ length t.active_list + length es
    → t.active_count < 4294967296
    → Scanned now es t (scan now es t)
unfolding scan
scan_lem now [] t n bound = record {
  entries = rw append-nil;
  calls = rw append-nil;
  count = omega (arith, n);
  timer = refl;
}
scan_lem now (e ∷ es) t n bound = elim (Bool-cases (expired now e)) [
  | inl old ↦
      let next : Tracker = record t {
        active_count = sub32 t.active_count 1;
        trace = t.trace ++ expire_calls e;
      } in
      let s : Scanned now es next (scan now es next) =
        scan_lem now es next (omega (arith, n)) (omega arith) in
      simp old (record {
        entries = simp old s.entries;
        calls = simp old (s.calls ∙ append_assoc t.trace (expire_calls e) (expirations now es));
        count = s.count;
        timer = s.timer;
      })
  | inr young ↦
      let next : Tracker = record t { active_list = t.active_list ++ (e ∷ []) } in
      let s : Scanned now es next (scan now es next) =
        scan_lem now es next (omega (arith, n, length-append t.active_list (e ∷ [])))
          (omega arith) in
      simp young (record {
        entries = simp young (s.entries ∙ append_assoc t.active_list (e ∷ []) (live now es));
        calls = simp young s.calls;
        count = s.count;
        timer = s.timer;
      })
]

-- What a call of the watchdog on `t` comes to, `u`.
pub record WatchdogResult (now : ℕ) (t u : Tracker) : Type 0 where
  pub entries : u.active_list ≡ live now t.active_list
  pub count : u.active_count ≡ length u.active_list
  pub calls :
      u.trace
      ≡ (t.trace ++ expirations now t.active_list)
        ++ (if ltb 0 (length (live now t.active_list)) then set_timer ∷ [] else [])
  pub timer :
      u.timer_running ≡ (if ltb 0 (length (live now t.active_list)) then t.timer_running else false)

-- A call of the watchdog in terms of its own test.
pub watchdog_scanned :
    (t : Tracker) (now : ℕ)
    → t.active_count ≡ length t.active_list
    → t.active_count < 4294967296
    → WatchdogResult now t (watchdog t now)
unfolding watchdog
watchdog_scanned t now n bound =
    let start : Tracker = record t { active_list = [] } in
    let u : Tracker = scan now t.active_list start in
    let s : Scanned now t.active_list start u =
      scan_lem now t.active_list start (omega (arith, n)) bound in
    let same : u.active_count ≡ length (live now t.active_list) = s.count ∙ ap length s.entries in
    elim (Bool-cases (ltb 0 u.active_count)) [
      | inl more ↦
          let left : ltb 0 (length (live now t.active_list)) ≡ true =
            sym (ap (ltb 0) same) ∙ more in
          simp more (record {
            entries = s.entries;
            count = s.count;
            calls = simp left (ap (λ c. c ++ (set_timer ∷ [])) s.calls);
            timer = simp left s.timer;
          })
      | inr done ↦
          let left : ltb 0 (length (live now t.active_list)) ≡ false =
            sym (ap (ltb 0) same) ∙ done in
          simp done (record {
            entries = s.entries;
            count = s.count;
            calls =
                simp left (s.calls ∙ sym (append-nil (t.trace ++ expirations now t.active_list)));
            timer = simp left refl;
          })
    ]
