-- ===== src/BootDiag/Image/Volume.antt =====
-- What bootdiag_v6_hive and bootdiag_v7_ntfs of tools/bootdiag/bootdiag_checks.c accept and look for.
use htkis_hyper_disk.Base.{
  ℕ, zero, suc, ◌+◌, ◌*◌, ◌/◌, ◌%◌, ◌^◌, ◌≤◌, ◌<◌, ◌≡◌, ◌↔◌, refl, ◌∙◌, ap, true, false, List, [],
  ◌∷◌, Option, none, some, ltb, get_elem?, arith, inl, inr, Bool-cases,
}
use native.Mathlib.Nat.{mul-div_left}
use htkis_hyper_disk.BootDiag.{passed, failed}
use htkis_hyper_disk.BootDiag.Image.{hive_ok, all_hives, v6_hive, cluster_size, mft_lba}

all_hives-false : (hives : List (List (Option (List ℕ)))) → all_hives hives false ≡ false
unfolding all_hives
all_hives-false [] = refl
all_hives-false (files ∷ rest) = elim (Bool-cases (hive_ok files)) [
  | inl ok ↦ simp ok (all_hives-false rest)
  | inr bad ↦ simp bad (all_hives-false rest)
]

-- every hive is good
abbrev pub AllOk : List (List (Option (List ℕ))) → Type 0
AllOk hives =
    (i : ℕ) (files : List (Option (List ℕ))) → get_elem? hives i ≡ some files → hive_ok files ≡ true

AllOk-cons :
    (f : List (Option (List ℕ))) (rest : List (List (Option (List ℕ))))
    → hive_ok f ≡ true
    → AllOk rest
    → AllOk (f ∷ rest)
AllOk-cons f rest ok all zero files e = cc
AllOk-cons f rest ok all (suc i) files e = all i files e

all_hives_sound :
    (hives : List (List (Option (List ℕ)))) → all_hives hives true ≡ true → AllOk hives
unfolding all_hives
all_hives_sound [] h i files e = cc
all_hives_sound (f ∷ rest) h i files e = elim (Bool-cases (hive_ok f)) [
  | inl ok ↦ AllOk-cons f rest ok (all_hives_sound rest (simp ok at h)) i files e
  | inr bad ↦
      let later : all_hives rest false ≡ true = simp bad at h in
      let never = all_hives-false rest in cc
]

all_hives_complete :
    (hives : List (List (Option (List ℕ)))) → AllOk hives → all_hives hives true ≡ true
unfolding all_hives
all_hives_complete [] h = refl
all_hives_complete (f ∷ rest) h =
    simp (h 0 f refl) (all_hives_complete rest (λ i files e. h (suc i) files e))

-- bootdiag_v6_hive passes exactly when, for every one of its hives, some path can be read and the first
-- file that can begins with "regf": a bad hive is not forgotten when a later one is good.
v6_hive-passed : (hives : List (List (Option (List ℕ)))) → (v6_hive hives ≡ passed) ↔ AllOk hives
unfolding v6_hive
v6_hive-passed hives = elim (Bool-cases (all_hives hives true)) [
  | inl ok ↦ ((λ _. all_hives_sound hives ok), (λ _. simp ok refl))
  | inr bad ↦ (
    (λ h. let wrong : failed 6001 ≡ passed = simp bad at h in λ i files e. cc),
    (λ all. let good = all_hives_complete hives all in cc),
  )
]

-- When the cluster size that bootdiag_v7_ntfs computes from the field n of the boot sector fits an int and
-- nothing wraps round, it looks for the MFT at 2048 + lcn * 2 ^ n.
mft_lba_lem :
    (lcn bytes n size : ℕ)
    → 0 < bytes
    → cluster_size bytes n ≡ some size
    → 2048 + lcn * size < 18446744073709551616
    → mft_lba lcn size bytes ≡ 2048 + lcn * 2 ^ n
unfolding mft_lba
mft_lba_lem lcn bytes n size pos h room = elim (Bool-cases (ltb (bytes * 2 ^ n) 2147483648)) [
  | inl fits ↦
      let size_of : some (bytes * 2 ^ n) ≡ some size = simp fits at h in
      let e : size ≡ bytes * 2 ^ n = cc in
      let product : lcn * size ≡ (lcn * 2 ^ n) * bytes =
        ap (λ s. lcn * s) e ∙ swap lcn bytes (2 ^ n) in
      let quotient : lcn * size / bytes ≡ lcn * 2 ^ n =
        ap (λ p. p / bytes) product ∙ mul-div_left (lcn * 2 ^ n) pos in
      let below : lcn * 2 ^ n ≤ lcn * size = rw product (le_mul (lcn * 2 ^ n) bytes pos) in
      let whole : lcn * size % 18446744073709551616 ≡ lcn * size = omega (arith, room) in
      rw whole (rw quotient (omega (arith, room, below)))
  | inr wide ↦ let none_is : (none) ≡ some size = simp wide at h in cc
]
  where
    swap : (a b c : ℕ) → a * (b * c) ≡ (a * c) * b
    swap a b c = omega arith

    le_mul : (a b : ℕ) → 0 < b → a ≤ a * b
    le_mul a zero h = absurd (omega (arith, h))
    le_mul a (suc b) h = omega arith
