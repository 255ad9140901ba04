-- ===== src/BootDiag/Gpt/Laws.antt =====
-- What the check of the GPT reads, and what it makes of a valid MBR.
use htkis_hyper_disk.Base.{
  ℕ, zero, suc, ◌+◌, ◌*◌, ◌/◌, ◌≤◌, ◌<◌, ◌≡◌, refl, ap, sym, Bool, true, false, not, ◌||◌, List, [],
  ◌∷◌, ◌++◌, Option, none, some, Option-cases, ltb, ◌==◌, take, drop, length, length-append,
  length-drop, arith, inl, inr, Bool-cases, from_le, u32,
}
use htkis_hyper_disk.BootDiag.{Verdict, passed, failed}
use htkis_hyper_disk.BootDiag.Image.{same_bytes}
use htkis_hyper_disk.BootDiag.Gpt.{
  compute_crc32c, efi_sp_guid, win_guid, read_sectors, has_type, array_bytes, array_sectors,
  check_buffer, check_entries, v1_gpt,
}

-- bootdiag_v1_gpt refuses, with error 1002, every disk whose MBR ends with the signature bytes 0x55 0xAA.
pub v1_gpt-valid_mbr :
    (allocated : Bool) (read : ℕ → Option (List ℕ)) (mbr : List ℕ)
    → read 0 ≡ some mbr
    → take 2 (drop 510 mbr) ≡ 85 ∷ 170 ∷ []
    → v1_gpt allocated read ≡ some (failed 1002)
unfolding v1_gpt
v1_gpt-valid_mbr allocated read mbr h signature =
    let sum : from_le (take 2 (drop 510 mbr)) ≡ 43605 = ap from_le signature in
    rw (h, v1_gpt) (rw sum refl)

-- every sector that can be read has 512 bytes
abbrev pub IsDevice : (ℕ → Option (List ℕ)) → Type 0
IsDevice read = (lba : ℕ) (sector : List ℕ) → read lba ≡ some sector → length sector ≡ 512

read_sectors-length :
    (read : ℕ → Option (List ℕ)) (lba n : ℕ) (buf : List ℕ)
    → IsDevice read
    → read_sectors read lba n ≡ some buf
    → length buf ≡ 512 * n
unfolding read_sectors
read_sectors-length read lba zero buf dev h = let e : [] ≡ buf = cc in rw (sym e) (omega arith)
read_sectors-length read lba (suc n) buf dev h = elim (Option-cases (read lba)) [
  | inl bad ↦ let wrong : (none) ≡ some buf = simp bad at h in cc
  | inr ok ↦ elim (Option-cases (read_sectors read (suc lba) n)) [
    | inl bad ↦ let wrong : (none) ≡ some buf = simp (ok.1, bad) at h in cc
    | inr rest ↦
        let whole : some (ok.0 ++ rest.0) ≡ some buf = simp (ok.1, rest.1) at h in
        let e : ok.0 ++ rest.0 ≡ buf = cc in
        omega (
          arith,
          ap length e,
          length-append ok.0 rest.0,
          dev lba ok.0 ok.1,
          read_sectors-length read (suc lba) n rest.0 dev rest.1,
        )
  ]
]

not_short : (m n : ℕ) → 128 * suc n ≤ m → ltb m 16 ≡ false
not_short m n h = let large : 16 ≤ m = omega (arith, h) in ground (arith, large)

has_type-inside :
    (guid : List ℕ) (n : ℕ) (buf : List ℕ)
    → 128 * n ≤ length buf
    → (b : Bool) × (has_type guid n buf ≡ some b)
unfolding has_type
has_type-inside guid zero buf h = (false, refl)
has_type-inside guid (suc n) buf h =
    let rest = has_type-inside guid n (drop 128 buf) (omega (arith, h, length-drop 128 buf)) in
    let room : ltb (length buf) 16 ≡ false = not_short (length buf) n h in
    (same_bytes (take 16 buf) guid || rest.0, rw rest.1 (rw room refl))

check_buffer-answers :
    (num crc : ℕ) (buf : List ℕ)
    → num < 33554432
    → 128 * num ≤ length buf
    → (v : Verdict) × (check_buffer num crc buf ≡ some v)
unfolding check_buffer
check_buffer-answers num crc buf few room =
    let enough : array_bytes num ≤ length buf = omega (arith, room, few) in
    let all : ltb (length buf) (array_bytes num) ≡ false =
      not_less (length buf) (array_bytes num) enough in
    let efi = has_type-inside efi_sp_guid num buf room in
    let os = has_type-inside win_guid num buf room in
    elim (Bool-cases (compute_crc32c (take (array_bytes num) buf) == crc)) [
      | inl same ↦ elim (Bool-cases (not efi.0 || not os.0)) [
        | inl missing ↦ (failed 1017, simp (all, same, efi.1, os.1, missing) refl)
        | inr found ↦ (passed, simp (all, same, efi.1, os.1, found) refl)
      ]
      | inr other ↦ (failed 1020, simp (all, other) refl)
    ]
  where
    not_less : (a b : ℕ) → b ≤ a → ltb a b ≡ false
    not_less a b h = ground (arith, h)

-- When at most 2 ^ 25 - 4 entries are announced and every sector that can be read has 512 bytes,
-- bootdiag_v1_gpt's work on the partition entries comes to a verdict, without reading past its buffer.
check_entries-answers :
    (read : ℕ → Option (List ℕ)) (num_entries stored_part_crc : ℕ)
    → IsDevice read
    → num_entries ≤ 33554428
    → (v : Verdict) × (check_entries read num_entries stored_part_crc ≡ some v)
unfolding check_entries
check_entries-answers read num crc dev few =
    elim (Option-cases (read_sectors read 2 (array_sectors num))) [
      | inl bad ↦ (failed 1016, rw (bad, check_entries) refl)
      | inr got ↦
          let size : length got.0 ≡ 512 * array_sectors num =
            read_sectors-length read 2 (array_sectors num) got.0 dev got.1 in
          let room : 128 * num ≤ length got.0 = omega (arith, size, few) in
          let answer = check_buffer-answers num crc got.0 (omega (arith, few)) room in
          (answer.0, rw (got.1, check_entries) answer.1)
    ]

has_type-empty : (guid : List ℕ) (n : ℕ) → has_type guid (suc n) [] ≡ none
unfolding has_type
has_type-empty guid zero = refl
has_type-empty guid (suc n) = rw (has_type-empty guid n) refl

-- When so many entries are announced that their size wraps round to 0, the buffer has no bytes, and with
-- the checksum of no bytes in the header the loop over the entries reads past it.
check_entries-overrun :
    (read : ℕ → Option (List ℕ)) (n : ℕ)
    → array_bytes (suc n) ≡ 0
    → check_entries read (suc n) (compute_crc32c []) ≡ none
unfolding check_entries check_buffer read_sectors
check_entries-overrun read n wrapped =
    let none_read : array_sectors (suc n) ≡ 0 = ap (λ b. u32 (b + 511) / 512) wrapped in
    let efi = has_type-empty efi_sp_guid n in
    rw (none_read, check_entries)
      (rw (wrapped, check_buffer) (rw (==_self (compute_crc32c [])) (rw efi refl)))
  where
    ==_self : (n : ℕ) → (n == n) ≡ true
    ==_self n = ground arith
