-- ===== src/Recovery/Retry.antt =====
-- Hd7bEnterRecovery and Hd7bProcessRetry: three attempts, then the first fallback step.
use htkis_hyper_disk.Base.{
  ℕ, zero, suc, ◌+◌, ◌-◌, ◌*◌, ◌≤◌, ◌<◌, ◌≡◌, refl, ap, ◌∙◌, true, false, arith,
}
use htkis_hyper_disk.Nt.{success, device_not_ready}
use htkis_hyper_disk.Recovery.{
  normal, retrying, fallback, Recovery, World, returned, stamp, delay, is_ready, process_retry,
  enter_recovery, retry_interval,
}

-- The record that one more attempt leaves.
abbrev pub attempt : World → Recovery → Recovery
attempt w r = delay w retry_interval (record r { retry_count = r.retry_count + 1 })

pub process_retry_success :
    (f : ℕ) (w : World) (r : Recovery)
    → r.retry_count < 3
    → is_ready (w.flags_after (suc r.delays)) ≡ true
    → process_retry (suc f) w r ≡ returned success (record (attempt w r) { state = normal })
unfolding process_retry
process_retry_success f w r h ready = ground arith

pub process_retry_again :
    (f : ℕ) (w : World) (r : Recovery)
    → r.retry_count < 3
    → is_ready (w.flags_after (suc r.delays)) ≡ false
    → process_retry (suc f) w r ≡ process_retry f w (attempt w r)
unfolding process_retry
process_retry_again f w r h not_ready = ground arith

pub process_retry_exhausted :
    (f : ℕ) (w : World) (r : Recovery)
    → 3 ≤ r.retry_count
    → process_retry (suc (suc f)) w r
      ≡ returned device_not_ready (stamp w (record r { state = fallback; fallback_step = 1 }))
unfolding process_retry
process_retry_exhausted f w r h = ground arith

-- what i + 1 attempts leave, the last one included
abbrev pub attempts : ℕ → World → Recovery → Recovery
attempts n w r = record r {
  retry_count = r.retry_count + n;
  flags = w.flags_after (r.delays + n);
  delays = r.delays + n;
  slept = r.slept + n * retry_interval;
}

shift : (d j : ℕ) → suc d + suc j ≡ d + suc (suc j)
shift d j = omega arith

retry_until :
    (i f : ℕ) (w : World) (r : Recovery)
    → r.retry_count + i < 3
    → ((j : ℕ) → j < i → is_ready (w.flags_after (r.delays + suc j)) ≡ false)
    → is_ready (w.flags_after (r.delays + suc i)) ≡ true
    → process_retry (suc (i + f)) w r
      ≡ returned success (record (attempts (suc i) w r) { state = normal })
retry_until zero f w r h not_ready ready =
    let e : r.delays + 1 ≡ suc r.delays = omega arith in
    process_retry_success (0 + f) w r (omega arith) (rw e at ready) ∙ ground (arith, e)
retry_until (suc i) f w r h not_ready ready =
    let e : r.delays + 1 ≡ suc r.delays = omega arith in
    let n : suc i + f ≡ suc (i + f) = omega arith in
    process_retry_again (suc i + f) w r (omega arith) (rw e at (not_ready 0 (omega arith)))
    ∙ ap (λ g. process_retry g w (attempt w r)) n
    ∙ retry_until i f w (attempt w r) (omega arith)
        (λ j hj.
          ap (λ d. is_ready (w.flags_after d)) (shift r.delays j) ∙ not_ready (suc j) (omega arith))
        (ap (λ d. is_ready (w.flags_after d)) (shift r.delays i) ∙ ready)
    ∙ ground (arith, shift r.delays i)

retry_exhausts :
    (f : ℕ) (w : World) (r : Recovery)
    → r.retry_count ≡ 0
    → ((j : ℕ) → j < 3 → is_ready (w.flags_after (suc j + r.delays)) ≡ false)
    → process_retry (suc (suc (suc (suc (suc f))))) w r
      ≡ returned device_not_ready (record (attempts 3 w r) {
        state = fallback;
        fallback_step = 1;
        state_entry_time = w.time_after (r.delays + 3);
      })
retry_exhausts f w r zero_count not_ready =
    process_retry_again (suc (suc (suc (suc f)))) w r (omega arith)
      (at (suc r.delays) 0 (omega arith) (omega arith))
    ∙ process_retry_again (suc (suc (suc f))) w (attempt w r) (omega arith)
        (at (suc (suc r.delays)) 1 (omega arith) (omega arith))
    ∙ process_retry_again (suc (suc f)) w (attempt w (attempt w r)) (omega arith)
        (at (suc (suc (suc r.delays))) 2 (omega arith) (omega arith))
    ∙ process_retry_exhausted f w (attempt w (attempt w (attempt w r))) (omega arith)
    ∙ ground arith
  where
    at : (d j : ℕ) → j < 3 → d ≡ suc j + r.delays → is_ready (w.flags_after d) ≡ false
    at d j h e = rw e (not_ready j h)

-- what Hd7bEnterRecovery sets before the first attempt
abbrev pub entered : World → Recovery → Recovery
entered w r = stamp w (record r { state = retrying; retry_count = 0 })

-- If the block device and the metadata server are first seen ready after attempt i + 1, i below 3,
-- entering recovery returns STATUS_SUCCESS in the normal state, after i + 1 delays of one second; the
-- retry count is i + 1 and the fallback step is what it was. Five nested calls are fuel enough.
pub enter_recovery-success :
    (f i : ℕ) (w : World) (r : Recovery)
    → 5 ≤ f
    → i < 3
    → ((j : ℕ) → j < i → is_ready (w.flags_after (r.delays + suc j)) ≡ false)
    → is_ready (w.flags_after (r.delays + suc i)) ≡ true
    → enter_recovery f w r
      ≡ returned success (record (attempts (suc i) w (entered w r)) { state = normal })
unfolding enter_recovery
enter_recovery-success f i w r hf hi not_ready ready =
    let e : f ≡ suc (i + (f - 1 - i)) = omega arith in
    ap (λ g. process_retry g w (entered w r)) e
    ∙ retry_until i (f - 1 - i) w (entered w r) (omega arith) not_ready ready

-- If they are not seen ready after any of three attempts, entering recovery returns
-- STATUS_DEVICE_NOT_READY after exactly three delays of one second, in the fallback state with step 1
-- to do next. Five nested calls are fuel enough.
enter_recovery-fallback :
    (f : ℕ) (w : World) (r : Recovery)
    → 5 ≤ f
    → ((j : ℕ) → j < 3 → is_ready (w.flags_after (suc j + r.delays)) ≡ false)
    → enter_recovery f w r
      ≡ returned device_not_ready (record (attempts 3 w (entered w r)) {
        state = fallback;
        fallback_step = 1;
        state_entry_time = w.time_after (r.delays + 3);
      })
unfolding enter_recovery
enter_recovery-fallback f w r hf not_ready =
    let e : f ≡ suc (suc (suc (suc (suc (f - 5))))) = omega arith in
    ap (λ g. process_retry g w (entered w r)) e
    ∙ retry_exhausts (f - 5) w (entered w r) refl not_ready
