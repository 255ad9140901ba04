-- ===== src/Tracker/Age.antt =====
-- One call of the watchdog by the age of the entries.
use htkis_hyper_disk.Base.{
  ℕ, ◌+◌, ◌-◌, ◌≤◌, ◌<◌, ◌≡◌, refl, ap, ◌∙◌, false, not, ltb, leb, ◌==◌, if◌then◌else◌, arith, List,
  [], ◌∷◌, ◌++◌, length, sub64,
}
use htkis_hyper_disk.Tracker.{
  Entry, Call, complete_not_ready, free, set_timer, Tracker, expired, watchdog,
}
use htkis_hyper_disk.Tracker.Watchdog.{live, expirations, WatchdogResult, watchdog_scanned}

-- The entries that were submitted a minute or less before `now`, in their order.
pub recent : ℕ → List Entry → List Entry
recent now [] = []
recent now (e ∷ es) =
    if leb now (e.submit_timestamp + 60000) then e ∷ recent now es else recent now es

-- The calls for the older ones: each packet is completed once, unless its address is 0, and each entry
-- is freed once.
pub completions : ℕ → List Entry → List Call
completions now [] = []
completions now (e ∷ es) =
    let rest = completions now es in
    if leb now (e.submit_timestamp + 60000)
    then rest
    else (if e.irp == 0 then free ∷ rest else complete_not_ready e.irp ∷ free ∷ rest)

-- Every entry was submitted at `now` or before.
abbrev pub AllBefore : ℕ → List Entry → Type 0
AllBefore now [] = Unit {0}
AllBefore now (e ∷ es) = (e.submit_timestamp ≤ now) × AllBefore now es

expired_iff :
    (now : ℕ) (e : Entry)
    → now < 18446744073709551616
    → e.submit_timestamp ≤ now
    → expired now e ≡ not (leb now (e.submit_timestamp + 60000))
expired_iff now e lt le =
    let same : sub64 now e.submit_timestamp ≡ now - e.submit_timestamp = omega arith in
    rw same (ground arith)

live-recent :
    (now : ℕ) (es : List Entry)
    → now < 18446744073709551616
    → AllBefore now es
    → live now es ≡ recent now es
unfolding recent
live-recent now [] lt b = refl
live-recent now (e ∷ es) lt b =
    rw (expired_iff now e lt b.0) (ground (arith, live-recent now es lt b.1))

expirations-completions :
    (now : ℕ) (es : List Entry)
    → now < 18446744073709551616
    → AllBefore now es
    → expirations now es ≡ completions now es
unfolding completions
expirations-completions now [] lt b = refl
expirations-completions now (e ∷ es) lt b =
    rw (expired_iff now e lt b.0) (ground (arith, expirations-completions now es lt b.1))

-- What a call of the watchdog on `t` comes to, `u`, by the age of the entries.
pub record IsSwept (now : ℕ) (t u : Tracker) : Type 0 where
  pub entries : u.active_list ≡ recent now t.active_list
  pub count : u.active_count ≡ length (recent now t.active_list)
  pub calls :
      u.trace
      ≡ (t.trace ++ completions now t.active_list)
        ++ (if ltb 0 (length (recent now t.active_list)) then set_timer ∷ [] else [])
  pub timer :
      u.timer_running
      ≡ (if ltb 0 (length (recent now t.active_list)) then t.timer_running else false)

-- When the count is the length of the list and below 2 ^ 32, and no entry was submitted after `now`, a
-- time below 2 ^ 64, HdIrpTrackerWatchdog keeps exactly the entries that were submitted 60000 ms or
-- less before `now`, in their order, with their count. For each of the others, in the order of the
-- list, it completes the packet with STATUS_DEVICE_NOT_READY, unless its address is 0, and frees the
-- entry. Then it sets the timer again when entries are left, and marks it stopped when none is.
pub watchdog_lem :
    (t : Tracker) (now : ℕ)
    → t.active_count ≡ length t.active_list
    → t.active_count < 4294967296
    → now < 18446744073709551616
    → AllBefore now t.active_list
    → IsSwept now t (watchdog t now)
watchdog_lem t now n bound lt before =
    let w : WatchdogResult now t (watchdog t now) = watchdog_scanned t now n bound in
    let kept = live-recent now t.active_list lt before in
    let ended = expirations-completions now t.active_list lt before in
    record {
      entries = w.entries ∙ kept;
      count = w.count ∙ ap length (w.entries ∙ kept);
      calls =
          w.calls
          ∙ ap
              (λ cs.
                (t.trace ++ cs)
                ++ (if ltb 0 (length (live now t.active_list)) then set_timer ∷ [] else []))
              ended
          ∙ ap
              (λ es.
                (t.trace ++ completions now t.active_list)
                ++ (if ltb 0 (length es) then set_timer ∷ [] else []))
              kept;
      timer = w.timer ∙ ap (λ es. if ltb 0 (length es) then t.timer_running else false) kept;
    }
