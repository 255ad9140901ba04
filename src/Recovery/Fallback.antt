-- ===== src/Recovery/Fallback.antt =====
-- Hd7bProcessFallback: one step of the ladder for each call, and the halt at its end.
use htkis_hyper_disk.Base.{
  ℕ, zero, suc, ◌+◌, ◌-◌, ◌≤◌, ◌<◌, ◌≡◌, refl, Bool, true, false, leb, if◌then◌else◌, arith, ◌⊎◌,
  inl, inr, Bool-cases, leb→le,
}
use htkis_hyper_disk.Nt.{success, device_not_ready}
use htkis_hyper_disk.Recovery.{
  normal, retrying, fallback, halted, Recovery, World, Outcome, returned, waits_forever, delay,
  process_recovery, is_ready, next_step, process_retry, process_fallback, fallback_wait,
}
use htkis_hyper_disk.Recovery.Retry.{
  process_retry_success, process_retry_again, process_retry_exhausted, attempt,
}

-- Retrying ends in the normal state with success, or in the first fallback step without.
abbrev RetryEnds : Outcome → Type 0
RetryEnds (returned success r) = r.state ≡ normal
RetryEnds (returned device_not_ready r) = (r.state ≡ fallback) × (r.fallback_step ≡ 1)
RetryEnds _ = ⊥

process_retry-RetryEnds :
    (k f : ℕ) (w : World) (r : Recovery)
    → r.retry_count < 4
    → 3 ≤ r.retry_count + k
    → RetryEnds (process_retry (suc (suc (k + f))) w r)
process_retry-RetryEnds zero f w r small h =
    rw (process_retry_exhausted (0 + f) w r (omega arith)) (refl, refl)
process_retry-RetryEnds (suc k) f w r small h = elim (Bool-cases (leb 3 r.retry_count)) [
  | inl done ↦
      rw (process_retry_exhausted (suc k + f) w r (leb→le 3 r.retry_count done)) (refl, refl)
  | inr more ↦ elim (Bool-cases (is_ready (w.flags_after (suc r.delays)))) [
    | inl ready ↦ rw (process_retry_success (suc (suc k + f)) w r (ground arith) ready) refl
    | inr not_ready ↦
        let n : suc (suc k + f) ≡ suc (suc (k + f)) = omega arith in
        rw (process_retry_again (suc (suc k + f)) w r (ground arith) not_ready, n)
          (process_retry-RetryEnds k f w (attempt w r) (ground arith) (omega arith))
  ]
]

-- The branches of one call.
module _ (f : ℕ) (w : World) (r : Recovery) where
  abbrev retry_record : Recovery
  retry_record = record (delay w fallback_wait r) { state = retrying; retry_count = 0 }

  step_plain :
      (r.fallback_step ≡ 0) ⊎ (r.fallback_step ≡ 3) → process_fallback (suc f) w r ≡ next_step r
  unfolding process_fallback
  step_plain h = ground arith

  step_meta :
      r.fallback_step ≡ 1
      → process_fallback (suc f) w r ≡ (
          if r.flags.local_meta_available
          then returned success (record r { state = normal })
          else next_step r)
  unfolding process_fallback
  step_meta h = ground arith

  step_network :
      r.fallback_step ≡ 2
      → process_fallback (suc f) w r ≡ (
          if (w.flags_after (suc r.delays)).network_available
          then process_retry f w retry_record
          else next_step (delay w fallback_wait r))
  unfolding process_fallback
  step_network h = ground arith

  pub step_halts :
      4 ≤ r.fallback_step
      → process_fallback (suc f) w r ≡ waits_forever (record r { state = halted })
  unfolding process_fallback process_recovery
  step_halts h = ground arith

-- What one call of Hd7bProcessFallback makes of the record: it is done, in the normal state; or it
-- returns STATUS_DEVICE_NOT_READY with the next step to do, or after a failed retry with step 1; or
-- all steps are behind it, and it never returns.
abbrev pub FallbackEnds : Recovery → Outcome → Type 0
FallbackEnds r (returned success r') = (r'.state ≡ normal) × (r.fallback_step < 4)
FallbackEnds r (returned device_not_ready r') =
    (r.fallback_step < 4)
    × ((r'.fallback_step ≡ r.fallback_step + 1) ⊎ ((r.fallback_step ≡ 2) × (r'.fallback_step ≡ 1)))
FallbackEnds r (waits_forever r') = (r'.state ≡ halted) × (4 ≤ r.fallback_step)
FallbackEnds r _ = ⊥

-- with the first branch that runs
RetryEnds-FallbackEnds :
    (r : Recovery) (o : Outcome) → r.fallback_step ≡ 2 → RetryEnds o → FallbackEnds r o
RetryEnds-FallbackEnds r (returned success r') e h = (h, omega arith)
RetryEnds-FallbackEnds r (returned device_not_ready r') e h = (omega arith, inr (e, h.1))
RetryEnds-FallbackEnds r _ e h = elim h [ ]

next_step-FallbackEnds :
    (r r' : Recovery)
    → r.fallback_step < 4
    → r'.fallback_step ≡ r.fallback_step
    → FallbackEnds r (next_step r')
next_step-FallbackEnds r r' h e = (h, inl (omega arith))

fallback_cases : (n : ℕ) → (((n ≡ 0) ⊎ (n ≡ 3)) ⊎ (n ≡ 1)) ⊎ ((n ≡ 2) ⊎ (4 ≤ n))
fallback_cases n = omega arith

step_meta-FallbackEnds :
    (r : Recovery) (b : Bool)
    → r.fallback_step ≡ 1
    → FallbackEnds r (if b then returned success (record r { state = normal }) else next_step r)
step_meta-FallbackEnds r true e = (refl, omega arith)
step_meta-FallbackEnds r false e = next_step-FallbackEnds r r (omega arith) refl

step_network-FallbackEnds :
    (r r' : Recovery) (b : Bool) (o : Outcome)
    → r.fallback_step ≡ 2
    → r'.fallback_step ≡ r.fallback_step
    → RetryEnds o
    → FallbackEnds r (if b then o else next_step r')
step_network-FallbackEnds r r' true o e e' h = RetryEnds-FallbackEnds r o e h
step_network-FallbackEnds r r' false o e e' h = next_step-FallbackEnds r r' (omega arith) e'

FallbackEnds-fuel :
    (f : ℕ) (w : World) (r : Recovery)
    → FallbackEnds r (process_fallback (suc (suc (suc (3 + f)))) w r)
FallbackEnds-fuel f w r = elim (fallback_cases r.fallback_step) [
  | inl (inl e) ↦
      rw (step_plain (suc (suc (3 + f))) w r e) (next_step-FallbackEnds r r (omega arith) refl)
  | inl (inr e) ↦
      rw (step_meta (suc (suc (3 + f))) w r e)
        (step_meta-FallbackEnds r r.flags.local_meta_available e)
  | inr (inl e) ↦ rw (step_network (suc (suc (3 + f))) w r e) (
      step_network-FallbackEnds r (delay w fallback_wait r)
        (w.flags_after (suc r.delays)).network_available
        (process_retry (suc (suc (3 + f))) w (retry_record f w r)) e refl
        (process_retry-RetryEnds 3 f w (retry_record f w r) (omega arith) (omega arith)))
  | inr (inr h) ↦ rw (step_halts (suc (suc (3 + f))) w r h) (refl, h)
]

-- Every call of Hd7bProcessFallback comes to its end: with six nested calls it returns, in the way
-- that `FallbackEnds` says, or it waits forever, exactly when the steps 0 to 3 are behind it.
pub process_fallback-FallbackEnds :
    (f : ℕ) (w : World) (r : Recovery) → 6 ≤ f → FallbackEnds r (process_fallback f w r)
process_fallback-FallbackEnds f w r hf =
    let e : f ≡ suc (suc (suc (3 + (f - 6)))) = omega arith in rw e (FallbackEnds-fuel (f - 6) w r)
