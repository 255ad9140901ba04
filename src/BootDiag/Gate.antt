-- ===== src/BootDiag/Gate.antt =====
-- main's exit code against what the three critical checks ended with.
use htkis_hyper_disk.Base.{
  ℕ, zero, suc, ◌<◌, ◌≡◌, ◌↔◌, true, List, [], ◌∷◌, arith, take, get_or, Bool-cases, ◌⊎◌, inl, inr,
}
use htkis_hyper_disk.BootDiag.{
  is_fail, Result, Context, no_result, critical_count, fails, critical_fail_count, gate_check,
  is_critical_check,
}

-- results[i] says FAIL; it is the result of the check i + 1.
abbrev pub IsFailedAt : ℕ → List Result → Type 0
IsFailedAt i rs = is_fail (get_or rs i no_result).result ≡ true

fails-found :
    (n : ℕ) (rs : List Result) → 0 < fails (take n rs) → (i : ℕ) × (i < n) × IsFailedAt i rs
fails-found zero rs h = absurd (omega (arith, h))
fails-found (suc n) [] h = absurd (omega (arith, h))
fails-found (suc n) (r ∷ rs) h = elim (Bool-cases (is_fail r.result)) [
  | inl bad ↦ (zero, omega arith, bad)
  | inr good ↦
      let later = fails-found n rs (simp good at h) in
      (suc later.0, omega (arith, later.1), later.2)
]

found-fails : (n i : ℕ) (rs : List Result) → i < n → IsFailedAt i rs → 0 < fails (take n rs)
found-fails zero i rs h f = absurd (omega arith)
found-fails (suc n) i [] h f = cc
found-fails (suc n) zero (r ∷ rs) h f = ground (arith, f)
found-fails (suc n) (suc i) (r ∷ rs) h f = ground (arith, found-fails n i rs (omega arith) f)

-- bootdiag_gate_check answers 1 exactly when a result says FAIL whose check bootdiag_is_critical_check
-- calls critical, and 0 otherwise. A critical check that was skipped does not block.
gate_check_lem :
    (c : Context)
    → ((gate_check c ≡ 1) ↔ ((i : ℕ) × (is_critical_check (suc i) ≡ true) × IsFailedAt i c.results))
      × ((gate_check c ≡ 0) ⊎ (gate_check c ≡ 1))
unfolding gate_check critical_fail_count is_critical_check
gate_check_lem c = ((to, from), ground arith)
  where
    to : gate_check c ≡ 1 → (i : ℕ) × (is_critical_check (suc i) ≡ true) × IsFailedAt i c.results
    to h =
        let f = fails-found critical_count c.results (ground (arith, h)) in
        (f.0, ground (arith, f.1), f.2)

    from : (i : ℕ) × (is_critical_check (suc i) ≡ true) × IsFailedAt i c.results → gate_check c ≡ 1
    from f =
        let low : f.0 < critical_count = ground (arith, f.1) in
        ground (arith, found-fails critical_count f.0 c.results low f.2)
