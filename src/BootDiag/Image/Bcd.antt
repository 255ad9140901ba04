-- ===== src/BootDiag/Image/Bcd.antt =====
-- What bootdiag_v2_bcd of tools/bootdiag/bootdiag_checks.c accepts.
use htkis_hyper_disk.Base.{
  ℕ, zero, suc, ◌+◌, ◌≤◌, ◌<◌, ◌≡◌, ◌↔◌, refl, ap, Bool, true, false, not, ◌&&◌, List, Option, some,
  ltb, ◌==◌, if◌then◌else◌, take, drop, arith, inl, inr, Bool-cases,
}
use htkis_hyper_disk.BootDiag.{passed, failed}
use htkis_hyper_disk.BootDiag.Image.{
  same_bytes, regf, bootmgr_guid, osloader_guid, first_read, has_entry, check_bcd, v2_bcd,
}

-- A GUID stands in the header at an offset that bootdiag_v2_bcd looks at.
abbrev pub IsListed : List ℕ → List ℕ → Type 0
IsListed guid header =
    (k : ℕ) × (k + 38 < 4096) × (same_bytes (take 38 (drop k header)) guid ≡ true)

has_entry_sound :
    (guid header : List ℕ) (off n : ℕ) → has_entry guid header off n ≡ true → IsListed guid header
unfolding has_entry
has_entry_sound guid header off zero h = cc
has_entry_sound guid header off (suc n) h =
    elim (Bool-cases (ltb (off + 38) 4096 && same_bytes (take 38 (drop off header)) guid)) [
      | inl here ↦ (off, ground (arith, here), ground (arith, here))
      | inr other ↦ has_entry_sound guid header (suc off) n (simp other at h)
    ]

has_entry_complete :
    (guid header : List ℕ) (off n k : ℕ)
    → off ≤ k
    → k < off + n
    → k + 38 < 4096
    → same_bytes (take 38 (drop k header)) guid ≡ true
    → has_entry guid header off n ≡ true
unfolding has_entry
has_entry_complete guid header off zero k le lt inside same = absurd (omega arith)
has_entry_complete guid header off (suc n) k le lt inside same = elim (Bool-cases (off == k)) [
  | inl here ↦
      let e : k ≡ off = ground arith in
      let hit : ltb (off + 38) 4096 && same_bytes (take 38 (drop off header)) guid ≡ true =
        ground (arith, inside, same, e, ap (λ o. same_bytes (take 38 (drop o header)) guid) e) in
      simp hit refl
  | inr other ↦
      ground (
        arith,
        has_entry_complete guid header (suc off) n k (ground arith) (omega arith) inside same,
      )
]

-- three tests in a row, of which each must hold
three_tests :
    (a b c : Bool) (x y z : ℕ)
    → ((if not a
          then failed x
          else (if not b then failed y else (if not c then failed z else passed)))
        ≡ passed)
      ↔ ((a ≡ true) × (b ≡ true) × (c ≡ true))
three_tests true true true x y z = ((λ _. (refl, refl, refl)), (λ _. refl))
three_tests true true false x y z = ((λ h. cc), (λ h. cc))
three_tests true false c x y z = ((λ h. cc), (λ h. cc))
three_tests false b c x y z = ((λ h. cc), (λ h. cc))

has_entry_iff :
    (guid header : List ℕ) → (has_entry guid header 0 4092 ≡ true) ↔ IsListed guid header
has_entry_iff guid header = (
  (λ h. has_entry_sound guid header 0 4092 h),
  (λ l. has_entry_complete guid header 0 4092 l.0 (omega arith) (omega (arith, l.1)) l.1 l.2),
)

check_bcd-passed :
    (header : List ℕ)
    → (check_bcd header ≡ passed) ↔ (
        (same_bytes (take 4 header) regf ≡ true)
        × IsListed bootmgr_guid header
        × IsListed osloader_guid header)
unfolding check_bcd
check_bcd-passed header =
    let tests =
      three_tests (same_bytes (take 4 header) regf) (has_entry bootmgr_guid header 0 4092)
        (has_entry osloader_guid header 0 4092) 2002 2003 2004 in
    (
      (λ h.
          let t = tests.0 h in
          (
            t.0,
            (has_entry_iff bootmgr_guid header).0 t.1,
            (has_entry_iff osloader_guid header).0 t.2,
          )),
      (λ t. tests.1 (
        t.0,
        (has_entry_iff bootmgr_guid header).1 t.1,
        (has_entry_iff osloader_guid header).1 t.2,
      )),
    )

-- When the first of its paths that can be read gives the file `header`, bootdiag_v2_bcd passes exactly
-- when the file begins with "regf" and has the GUIDs of the boot manager and of the OS loader, each at
-- an offset k with k + 38 < 4096.
v2_bcd-passed :
    (files : List (Option (List ℕ))) (header : List ℕ)
    → first_read files ≡ some header
    → (v2_bcd files ≡ passed) ↔ (
        (same_bytes (take 4 header) regf ≡ true)
        × IsListed bootmgr_guid header
        × IsListed osloader_guid header)
unfolding v2_bcd
v2_bcd-passed files header h = rw (h, v2_bcd) (check_bcd-passed header)
