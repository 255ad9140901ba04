-- ===== src/Replay/Slots.antt =====
-- Places of fixed length in a list: what a copy into one place does to it and to the others.
use htkis_hyper_disk.Base.{
  ℕ, zero, suc, ◌+◌, ◌-◌, ◌≤◌, ◌≡◌, refl, ap, ◌∙◌, List, [], ◌∷◌, ◌++◌, arith, take, drop, length,
  length-append, length-take, length-drop, drop-drop,
}
use htkis_hyper_disk.Replay.{copy_to}

module _ {ℓ} {A : Type ℓ} where
  pub drop-take_append : (p : ℕ) (xs ys : List A) → p ≤ length xs → drop p (take p xs ++ ys) ≡ ys
  drop-take_append zero xs ys h = refl
  drop-take_append (suc p) [] ys h = absurd (omega arith)
  drop-take_append (suc p) (x ∷ xs) ys h = drop-take_append p xs ys (omega arith)

  -- a place before the copy
  slice-before :
      (q n p : ℕ) (xs ys : List A)
      → q + n ≤ p
      → p ≤ length xs
      → take n (drop q (take p xs ++ ys)) ≡ take n (drop q xs)
  slice-before zero zero p xs ys h l = refl
  slice-before zero (suc n) zero xs ys h l = absurd (omega arith)
  slice-before zero (suc n) (suc p) [] ys h l = absurd (omega arith)
  slice-before zero (suc n) (suc p) (x ∷ xs) ys h l =
      ap (λ t. x ∷ t) (slice-before zero n p xs ys (omega arith) (omega arith))
  slice-before (suc q) n zero xs ys h l = absurd (omega arith)
  slice-before (suc q) n (suc p) [] ys h l = absurd (omega arith)
  slice-before (suc q) n (suc p) (x ∷ xs) ys h l =
      slice-before q n p xs ys (omega arith) (omega arith)

  pub drop-append_past :
      (q : ℕ) (xs ys : List A) → length xs ≤ q → drop q (xs ++ ys) ≡ drop (q - length xs) ys
  drop-append_past q [] ys h = ap (λ k. drop k ys) (omega arith)
  drop-append_past zero (x ∷ xs) ys h = absurd (omega arith)
  drop-append_past (suc q) (x ∷ xs) ys h =
      drop-append_past q xs ys (omega arith) ∙ ap (λ k. drop k ys) (omega arith)

  -- the first n of a list behind n that are given
  pub take-append_len : (n : ℕ) (xs ys : List A) → length xs ≡ n → take n (xs ++ ys) ≡ xs
  take-append_len zero [] ys h = refl
  take-append_len zero (x ∷ xs) ys h = absurd (omega arith)
  take-append_len (suc n) [] ys h = absurd (omega arith)
  take-append_len (suc n) (x ∷ xs) ys h = ap (λ t. x ∷ t) (take-append_len n xs ys (omega arith))

  pub drop-append_len : (n : ℕ) (xs ys : List A) → length xs ≡ n → drop n (xs ++ ys) ≡ ys
  drop-append_len n xs ys h =
      let none_left : n - length xs ≡ 0 = omega arith in
      drop-append_past n xs ys (omega arith) ∙ ap (λ k. drop k ys) none_left

  pub take-append_past :
      (j i : ℕ) (xs ys : List A) → j ≡ length xs + i → take j (xs ++ ys) ≡ xs ++ take i ys
  take-append_past j i [] ys h = ap (λ k. take k ys) (omega arith)
  take-append_past zero i (x ∷ xs) ys h = absurd (omega arith)
  take-append_past (suc j) i (x ∷ xs) ys h =
      ap (λ t. x ∷ t) (take-append_past j i xs ys (omega arith))

  pub length-take_le : (p : ℕ) (xs : List A) → p ≤ length xs → length (take p xs) ≡ p
  length-take_le p xs h = omega (arith, length-take p xs)

module _ (b : List ℕ) (p : ℕ) (x : List ℕ) (room : p + length x ≤ length b) where
  pub length-copy_to : length (copy_to b p x) ≡ length b
  length-copy_to = omega (
    arith,
    length-append (take p b) (x ++ drop (p + length x) b),
    length-append x (drop (p + length x) b),
    length-take p b,
    length-drop (p + length x) b,
  )

  pub slice-copy_self : (n : ℕ) → length x ≡ n → take n (drop p (copy_to b p x)) ≡ x
  slice-copy_self n e =
      ap (take n) (drop-take_append p b (x ++ drop (p + length x) b) (omega arith))
      ∙ take-append_len n x (drop (p + length x) b) e

  pub slice-copy_before :
      (q n : ℕ) → q + n ≤ p → take n (drop q (copy_to b p x)) ≡ take n (drop q b)
  slice-copy_before q n h = slice-before q n p b (x ++ drop (p + length x) b) h (omega arith)

  pub drop-copy_after : (q : ℕ) → p + length x ≤ q → drop q (copy_to b p x) ≡ drop q b
  drop-copy_after q h =
      drop-append_past q (take p b) (x ++ drop (p + length x) b) (omega (arith, length-take_le p b))
      ∙ drop-append_past (q - length (take p b)) x (drop (p + length x) b)
          (omega (arith, length-take_le p b))
      ∙ drop-drop (q - length (take p b) - length x) (p + length x) b
      ∙ ap (λ k. drop k b) (omega (arith, length-take_le p b))
