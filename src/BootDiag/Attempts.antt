-- ===== src/BootDiag/Attempts.antt =====
-- The do-while around one check: when it stops and with what.
use htkis_hyper_disk.Base.{
  ℕ, zero, suc, ◌+◌, ◌≤◌, ◌<◌, ◌≡◌, refl, true, false, Option, none, some, leb, ◌==◌, arith, ◌⊎◌,
  inl, inr, Bool-cases, u32,
}
use htkis_hyper_disk.BootDiag.{
  Outcome, is_pass, Verdict, passed, failed, skipped, outcome, Result, store, attempts,
}

-- The attempt n is the last one: those before it did not pass, and it passed or was the last allowed.
pub record IsLast (check : ℕ → Verdict) (retry_count n : ℕ) : Type 0 where
  pub bound : n ≤ retry_count
  pub earlier : (j : ℕ) → j < n → is_pass (outcome (check j)) ≡ false
  pub stop : (is_pass (outcome (check n)) ≡ true) ⊎ (n ≡ retry_count)

result-store : (v : Verdict) (r : Result) → (store v r).result ≡ outcome v
result-store passed r = refl
result-store (failed code) r = refl
result-store (skipped code) r = refl

-- What the do-while answers: the outcome and the stored result of its last attempt.
pub record Attempted (check : ℕ → Verdict) (retry_count : ℕ) (answer : Option (Outcome × Result))
    : Type 0 where
  pub last : ℕ
  pub stored : Result
  pub value : answer ≡ some (outcome (check last), stored)
  pub result : stored.result ≡ outcome (check last)
  pub is_last : IsLast check retry_count last

no_pass_until :
    (check : ℕ → Verdict) (k : ℕ)
    → ((j : ℕ) → j < k → is_pass (outcome (check j)) ≡ false)
    → is_pass (outcome (check k)) ≡ false
    → (j : ℕ) → j < suc k
    → is_pass (outcome (check j)) ≡ false
no_pass_until check k before bad j h = elim (Bool-cases (j == k)) [
  | inl same ↦ let e : j ≡ k = ground arith in rw e bad
  | inr other ↦ before j (ground arith)
]

attempts_from :
    (fuel : ℕ) (check : ℕ → Verdict) (retry_count k : ℕ) (r : Result)
    → retry_count < 4294967295
    → k ≤ retry_count
    → retry_count < k + fuel
    → ((j : ℕ) → j < k → is_pass (outcome (check j)) ≡ false)
    → Attempted check retry_count (attempts fuel check retry_count k r)
unfolding attempts
attempts_from zero check retry_count k r small le enough before = absurd (omega arith)
attempts_from (suc fuel) check retry_count k r small le enough before =
    elim (Bool-cases (is_pass (outcome (check k)))) [
      | inl ok ↦ record {
        last = k;
        stored = store (check k) r;
        value = simp ok refl;
        result = result-store (check k) r;
        is_last = record { bound = le; earlier = before; stop = inl ok };
      }
      | inr bad ↦ elim (Bool-cases (leb (u32 (suc k)) retry_count)) [
        | inl again ↦
            let later : suc k ≤ retry_count = ground arith in
            simp (bad, again)
              (attempts_from fuel check retry_count (suc k) (store (check k) r) small later
                (omega arith) (no_pass_until check k before bad))
        | inr out ↦ record {
          last = k;
          stored = store (check k) r;
          value = simp (bad, out) refl;
          result = result-store (check k) r;
          is_last = record { bound = le; earlier = before; stop = inr (ground arith) };
        }
      ]
    ]

-- When --retry is below 2 ^ 32 - 1, the do-while around a check ends after at most one attempt more
-- than that: with the first attempt that passes, or with the last one that --retry allows. What it
-- returns and what it stores in the result is what the check said at that attempt.
pub attempts_lem :
    (fuel : ℕ) (check : ℕ → Verdict) (retry_count : ℕ) (r : Result)
    → retry_count < 4294967295
    → retry_count < fuel
    → Attempted check retry_count (attempts fuel check retry_count 0 r)
attempts_lem fuel check retry_count r small enough =
    attempts_from fuel check retry_count 0 r small (omega arith) (omega arith)
      (λ j h. absurd (omega (arith, h)))

attempts_forever :
    (fuel : ℕ) (check : ℕ → Verdict) (k : ℕ) (r : Result)
    → ((j : ℕ) → is_pass (outcome (check j)) ≡ false)
    → attempts fuel check 4294967295 k r ≡ none
unfolding attempts
attempts_forever zero check k r bad = refl
attempts_forever (suc fuel) check k r bad =
    let again : leb (u32 (suc k)) 4294967295 ≡ true = ground arith in
    simp (bad k, again) (attempts_forever fuel check (suc k) (store (check k) r) bad)

-- When the retry count is 2 ^ 32 - 1, the do-while around a check that never passes does not end within
-- any fuel.
attempts_diverges :
    (fuel : ℕ) (check : ℕ → Verdict) (r : Result)
    → ((j : ℕ) → is_pass (outcome (check j)) ≡ false)
    → attempts fuel check 4294967295 0 r ≡ none
attempts_diverges fuel check r bad = attempts_forever fuel check 0 r bad
