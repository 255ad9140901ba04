-- ===== src/BootDiag/Gpt.antt =====
-- tools/bootdiag/main.c: CRC-32C; tools/bootdiag/bootdiag_checks.c: the check of the GPT, and the two
-- checks that ask Windows. `read lba` is what read_device_sector gives for a sector of 512 bytes.
pub mod Laws
use Prim.Native.Nat.{bit_xor}
use htkis_hyper_disk.Base.{
  ℕ, zero, suc, ◌+◌, ◌*◌, ◌/◌, ◌%◌, Bool, true, false, not, ◌&&◌, ◌||◌, List, [], ◌∷◌, ◌++◌, Option,
  none, some, ltb, leb, ◌==◌, if◌then◌else◌, take, drop, length, u32, from_le, ◌>>=◌, get_or, map,
  to_le,
}
use htkis_hyper_disk.BootDiag.{Verdict, passed, failed, skipped}
use htkis_hyper_disk.BootDiag.Image.{same_bytes}

-- the inner loop of crc32c_init_table
abbrev pub crc_shift : ℕ → ℕ → ℕ
crc_shift zero crc = crc
crc_shift (suc j) crc =
    crc_shift j (if (crc % 2) == 1 then bit_xor (crc / 2) 2197175160 else crc / 2)

-- the entry i of the table
abbrev pub crc32c_table : ℕ → ℕ
crc32c_table i = crc_shift 8 i

-- the loop of bootdiag_compute_crc32c, and the function
abbrev pub crc_bytes : ℕ → List ℕ → ℕ
crc_bytes crc [] = crc
crc_bytes crc (b ∷ bs) = crc_bytes (bit_xor (crc / 256) (crc32c_table (bit_xor crc b % 256))) bs

pub compute_crc32c : List ℕ → ℕ
compute_crc32c bytes = bit_xor (crc_bytes 4294967295 bytes) 4294967295

-- the GUIDs of an EFI system partition, of a basic data partition and of a reserved one, and "EFI PART"
abbrev pub efi_sp_guid : List ℕ
efi_sp_guid =
    40 ∷ 115 ∷ 42 ∷ 193 ∷ 31 ∷ 248 ∷ 210 ∷ 17 ∷ 186 ∷ 75 ∷ 0 ∷ 160 ∷ 201 ∷ 62 ∷ 201 ∷ 59 ∷ []

abbrev pub win_guid : List ℕ
win_guid =
    162 ∷ 160 ∷ 208 ∷ 235 ∷ 229 ∷ 185 ∷ 51 ∷ 68 ∷ 135 ∷ 192 ∷ 104 ∷ 182 ∷ 183 ∷ 38 ∷ 153 ∷ 199 ∷ []

abbrev pub efi_part : List ℕ
efi_part = 69 ∷ 70 ∷ 73 ∷ 32 ∷ 80 ∷ 65 ∷ 82 ∷ 84 ∷ []

-- the loop that reads `n` sectors from `lba` on
pub read_sectors : (ℕ → Option (List ℕ)) → ℕ → ℕ → Option (List ℕ)
read_sectors read lba zero = some []
read_sectors read lba (suc n) = do
  sector ← read lba
  rest ← read_sectors read (suc lba) n
  some (sector ++ rest)

-- A loop over `num_entries` entries of 128 bytes that looks for a type GUID; none where an entry is not
-- in the buffer. An all-zero entry is none of the GUIDs.
pub has_type : List ℕ → ℕ → List ℕ → Option Bool
has_type guid zero part_buf = some false
has_type guid (suc n) part_buf = do
  let rest = has_type guid n (drop 128 part_buf)
  found ← rest
  if ltb (length part_buf) 16 then none else some (same_bytes (take 16 part_buf) guid || found)

-- `num_entries * entry_size` on uint32_t, where entry_size is 128, and how many sectors that is
abbrev pub array_bytes : ℕ → ℕ
array_bytes num_entries = u32 (num_entries * 128)

abbrev pub array_sectors : ℕ → ℕ
array_sectors num_entries = u32 (array_bytes num_entries + 511) / 512

-- the types that it asks for
abbrev pub find_types : ℕ → List ℕ → Option Verdict
find_types num_entries part_buf = do
  has_efi ← has_type efi_sp_guid num_entries part_buf
  has_os ← has_type win_guid num_entries part_buf
  if not has_efi || not has_os then some (failed 1017) else some passed

-- the end of bootdiag_v1_gpt: the partition entries that the header announces, in the buffer
pub check_buffer : ℕ → ℕ → List ℕ → Option Verdict
check_buffer num_entries stored_part_crc part_buf =
    if ltb (length part_buf) (array_bytes num_entries)
    then none
    else (if not (compute_crc32c (take (array_bytes num_entries) part_buf) == stored_part_crc)
        then some (failed 1020)
        else find_types num_entries part_buf)

-- the same with the loop that fills the buffer
pub check_entries : (ℕ → Option (List ℕ)) → ℕ → ℕ → Option Verdict
check_entries read num_entries stored_part_crc =
    elim (read_sectors read 2 (array_sectors num_entries)) [
      | none ↦ some (failed 1016)
      | some part_buf ↦ check_buffer num_entries stored_part_crc part_buf
    ]

-- its tests on the GPT header, the sector 1; `allocated` says whether malloc gives the buffer
pub check_gpt_header : Bool → (ℕ → Option (List ℕ)) → List ℕ → Option Verdict
check_gpt_header allocated read sector =
    let field : ℕ → ℕ → ℕ = λ n off. from_le (take n (drop off sector)) in
    let header_copy = take 16 sector ++ ((0 ∷ 0 ∷ 0 ∷ 0 ∷ []) ++ take 72 (drop 20 sector)) in
    if not (same_bytes (take 8 sector) efi_part)
    then some (failed 1011)
    else (if not (field 4 12 == 92)
        then some (failed 1012)
        else (if not (field 8 24 == 1)
            then some (failed 1018)
            else (if field 8 32 == 0
                then some (failed 1019)
                else (if not (compute_crc32c header_copy == field 4 16)
                    then some (failed 1013)
                    else (if not (field 4 84 == 128)
                        then some (failed 1014)
                        else (if not allocated
                            then some (failed 1015)
                            else check_entries read (field 4 80) (field 4 88)))))))

-- bootdiag_v1_gpt
pub v1_gpt : Bool → (ℕ → Option (List ℕ)) → Option Verdict
v1_gpt allocated read = elim (read 0) [
  | none ↦ some (failed 1001)
  | some mbr ↦
      if not (from_le (take 2 (drop 510 mbr)) == 21930)
      then some (failed 1002)
      else (if not (get_or mbr 446 0 == 238) then some (failed 1003) else elim (read 1) [
        | none ↦ some (failed 1010)
        | some sector ↦ check_gpt_header allocated read sector
      ])
]

-- bootdiag_v4_block_read's request for a block, of 64 bytes with its CRC
pub request_frame : ℕ → List ℕ
request_frame lba =
    let front =
      to_le 4 1212435271
      ++ (to_le 2 1
          ++ (to_le 1 1
              ++ (to_le 1 0
                  ++ (to_le 4 1 ++ (to_le 4 24 ++ (to_le 8 lba ++ (to_le 4 1 ++ to_le 32 0))))))) in
    front ++ to_le 4 (compute_crc32c front)

-- how many of the answers have a byte, where an answer is what recv returned for it
abbrev pub verified : List Bool → ℕ
verified [] = 0
verified (got ∷ answers) = (if got then 1 else 0) + verified answers

-- bootdiag_v4_block_read: the frames that it sends and its verdict, given whether WSAStartup and connect
-- succeed and the three answers. The socket is unsigned, so that `sock < 0` never holds.
pub v4_block_read : Bool → Bool → List Bool → List (List ℕ) × Verdict
v4_block_read started connected answers =
    if not started
    then ([], failed 4001)
    else (if not connected then ([], failed 4003) else (
      map request_frame (0 ∷ 1 ∷ 2048 ∷ []),
      if ltb (verified answers) 3 then failed 4004 else passed,
    ))

-- bootdiag_v5_paging_io, given which of its two paths can be opened and whether the file can be read
pub v5_paging_io : Bool → Bool → Bool → Verdict
v5_paging_io first second readable =
    if not (first || second) then failed 5001 else (if not readable then failed 5002 else passed)
