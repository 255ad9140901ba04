-- ===== src/BootDiag/Flags.antt =====
-- The boot.meta flags against the bits that they are to show.
use htkis_hyper_disk.Base.{
  ℕ, suc, ◌+◌, ◌*◌, ◌/◌, ◌^◌, ◌<◌, ◌≡◌, refl, ◌∙◌, ap, sym, Bool, true, false, ◌&&◌, List, [], ◌∷◌,
  arith, ◌==◌, if◌then◌else◌, Bool-cases, inl, inr, length, take-append_self, take,
}
use mathlib.Core.List.{append-nil}
use native.Mathlib.Nat.{div-eq_of_lt, pow-succ'}
use htkis_hyper_disk.BootDiag.{
  check_count, is_fail, Result, Context, set_bit, fail_flags, boot_meta_flags,
}

-- the results that say FAIL as a number, the first one its lowest bit
abbrev pub fail_bits : List Result → ℕ
fail_bits [] = 0
fail_bits (r ∷ rs) = (if is_fail r.result then 1 else 0) + 2 * fail_bits rs

-- A bit above all those of `flags` is added.
set_bit_fresh : (flags k : ℕ) → flags < 2 ^ k → set_bit flags k ≡ flags + 2 ^ k
set_bit_fresh flags k h = let none : flags / 2 ^ k ≡ 0 = div-eq_of_lt h in rw none refl

bit_step : (f p b : ℕ) → f + p + (2 * p) * b ≡ f + p * (1 + 2 * b)
bit_step f p b = omega arith

bit_skip : (f p b : ℕ) → f + (2 * p) * b ≡ f + p * (0 + 2 * b)
bit_skip f p b = omega arith

fail_flags_lem :
    (i : ℕ) (rs : List Result) (flags : ℕ)
    → flags < 2 ^ (3 + i)
    → fail_flags i rs flags ≡ flags + 2 ^ (3 + i) * fail_bits rs
unfolding fail_flags
fail_flags_lem i [] flags h = omega arith
fail_flags_lem i (r ∷ rs) flags h =
    let double : 2 ^ (3 + suc i) ≡ 2 * 2 ^ (3 + i) =
      ap (λ k. 2 ^ k) (omega arith) ∙ pow-succ' 2 (3 + i) in
    elim (Bool-cases (is_fail r.result)) [
      | inl bad ↦
          simp (bad, set_bit_fresh flags (3 + i) h)
            (fail_flags_lem (suc i) rs (flags + 2 ^ (3 + i)) (omega (arith, double, h))
              ∙ ap (λ p. flags + 2 ^ (3 + i) + p * fail_bits rs) double
              ∙ bit_step flags (2 ^ (3 + i)) (fail_bits rs))
      | inr good ↦ simp good (
          fail_flags_lem (suc i) rs flags (omega (arith, double, h))
          ∙ ap (λ p. flags + p * fail_bits rs) double
          ∙ bit_skip flags (2 ^ (3 + i)) (fail_bits rs))
    ]

fail_bits_lt : (rs : List Result) → fail_bits rs < 2 ^ length rs
fail_bits_lt [] = omega arith
fail_bits_lt (r ∷ rs) =
    let double : 2 ^ suc (length rs) ≡ 2 * 2 ^ length rs = pow-succ' 2 (length rs) in
    ground (arith, double, fail_bits_lt rs)

-- the flags after the loop over seven results
checked_flags :
    (b : Bool) (rs : List Result)
    → fail_flags 0 rs (if b then set_bit 0 2 else 0) ≡ (if b then 4 else 0) + 8 * fail_bits rs
checked_flags true rs = fail_flags_lem 0 rs 4 (omega arith)
checked_flags false rs = fail_flags_lem 0 rs 0 (omega arith)

take-all : {A : Type 0} (xs : List A) (n : ℕ) → length xs ≡ n → take n xs ≡ xs
take-all xs n e = rw (sym e) (ap (take (length xs)) (sym (append-nil xs)) ∙ take-append_self xs [])

-- For a context with seven results, the flags are the number with bit 2 for `bootdiag_executed`, bit
-- 3 + i for a FAIL of the result i, and bit 10 when all seven checks are counted as passed and none as
-- failed.
boot_meta_flags_lem :
    (c : Context)
    → length c.results ≡ check_count
    → boot_meta_flags c
      ≡ (if c.bootdiag_executed then 4 else 0)
        + 8 * fail_bits c.results
        + (if c.total_fail == 0 && c.total_pass == check_count then 1024 else 0)
unfolding boot_meta_flags
boot_meta_flags_lem c n =
    let base : ℕ = (if c.bootdiag_executed then 4 else 0) + 8 * fail_bits c.results in
    let same : fail_flags 0 (take check_count c.results)
          (if c.bootdiag_executed then set_bit 0 2 else 0)
        ≡ base =
      ap (λ rs. fail_flags 0 rs (if c.bootdiag_executed then set_bit 0 2 else 0))
        (take-all c.results check_count n)
      ∙ checked_flags c.bootdiag_executed c.results in
    let seven : fail_bits c.results < 128 = rw n at (fail_bits_lt c.results) in
    let small : base < 1024 = ground (arith, seven) in
    elim (Bool-cases (c.total_fail == 0 && c.total_pass == check_count)) [
      | inl all ↦ simp all (ap (λ f. set_bit f 10) same ∙ set_bit_fresh base 10 small)
      | inr some_bad ↦ simp some_bad (same ∙ add_zero base)
    ]
  where
    add_zero : (n : ℕ) → n ≡ n + 0
    add_zero n = omega arith
