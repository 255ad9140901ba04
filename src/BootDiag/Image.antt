-- ===== src/BootDiag/Image.antt =====
-- tools/bootdiag/bootdiag_checks.c: the checks of the boot files and of the NTFS volume. A file or a
-- sector is a list of bytes, and none where the read fails; a file read gives all 4096 bytes, a sector
-- 512. A check gives none where it reads outside its buffer or shifts too far, which C leaves
-- undefined.
pub mod Bcd
pub mod Winload
pub mod Volume
use htkis_hyper_disk.Base.{
  ℕ, zero, suc, ◌+◌, ◌*◌, ◌/◌, ◌%◌, ◌^◌, Bool, true, false, not, ◌&&◌, ◌||◌, List, [], ◌∷◌, Option,
  none, some, ltb, leb, ◌==◌, if◌then◌else◌, get_elem?, take, drop, u32, u64, from_le, ◌>>=◌,
}
use htkis_hyper_disk.BootDiag.{Verdict, passed, failed, skipped}

-- memcmp(xs, ys, n) == 0 for equally long byte lists
abbrev pub same_bytes : List ℕ → List ℕ → Bool
same_bytes [] [] = true
same_bytes (x ∷ xs) (y ∷ ys) = x == y && same_bytes xs ys
same_bytes _ _ = false

-- the bytes of a string constant, by their codes: "regf", "{9dea8622-5cdd-4e70-acc1-f832d7f0cfb8}"
-- and "{466fda14-11a7-4c38-8b39-0eb4ddc42b0c}"
abbrev pub regf : List ℕ
regf = 114 ∷ 101 ∷ 103 ∷ 102 ∷ []

abbrev pub bootmgr_guid : List ℕ
bootmgr_guid =
    123 ∷ 57 ∷ 100 ∷ 101 ∷ 97 ∷ 56 ∷ 54 ∷ 50 ∷ 50 ∷ 45 ∷ 53 ∷ 99 ∷ 100 ∷ 100 ∷ 45 ∷ 52 ∷ 101 ∷ 55
    ∷ 48 ∷ 45 ∷ 97 ∷ 99 ∷ 99 ∷ 49 ∷ 45 ∷ 102 ∷ 56 ∷ 51 ∷ 50 ∷ 100 ∷ 55 ∷ 102 ∷ 48 ∷ 99 ∷ 102 ∷ 98
    ∷ 56 ∷ 125 ∷ []

abbrev pub osloader_guid : List ℕ
osloader_guid =
    123 ∷ 52 ∷ 54 ∷ 54 ∷ 102 ∷ 100 ∷ 97 ∷ 49 ∷ 52 ∷ 45 ∷ 49 ∷ 49 ∷ 97 ∷ 55 ∷ 45 ∷ 52 ∷ 99 ∷ 51 ∷ 56
    ∷ 45 ∷ 56 ∷ 98 ∷ 51 ∷ 57 ∷ 45 ∷ 48 ∷ 101 ∷ 98 ∷ 52 ∷ 100 ∷ 100 ∷ 99 ∷ 52 ∷ 50 ∷ 98 ∷ 48 ∷ 99
    ∷ 125 ∷ []

-- the first of the paths that can be read
abbrev pub first_read : List (Option (List ℕ)) → Option (List ℕ)
first_read [] = none
first_read (none ∷ rs) = first_read rs
first_read (some bytes ∷ rs) = some bytes

-- bootdiag_v2_bcd's loop, for one GUID, over the offsets from `off` of which `n` are left
pub has_entry : List ℕ → List ℕ → ℕ → ℕ → Bool
has_entry guid header off zero = false
has_entry guid header off (suc n) =
    let rest = has_entry guid header (suc off) n in
    if ltb (off + 38) 4096 && same_bytes (take 38 (drop off header)) guid then true else rest

-- the tests of bootdiag_v2_bcd on the file that was read
pub check_bcd : List ℕ → Verdict
check_bcd header =
    if not (same_bytes (take 4 header) regf)
    then failed 2002
    else (if not (has_entry bootmgr_guid header 0 4092)
        then failed 2003
        else (if not (has_entry osloader_guid header 0 4092) then failed 2004 else passed))

-- bootdiag_v2_bcd, given what the three paths read as
pub v2_bcd : List (Option (List ℕ)) → Verdict
v2_bcd files = elim (first_read files) [ none ↦ failed 2001 | some header ↦ check_bcd header ]

-- the two bytes at an offset as a uint16_t
abbrev pub u16_at : List ℕ → ℕ → Option ℕ
u16_at header off = do
  low ← get_elem? header off
  high ← get_elem? header (suc off)
  some (low + 256 * high)

-- the four bytes at an offset as a uint32_t
abbrev pub u32_at : List ℕ → ℕ → Option ℕ
u32_at header off = do
  low ← u16_at header off
  high ← u16_at header (off + 2)
  some (low + 65536 * high)

-- its test of the subsystem, 10 or 11
abbrev pub check_subsystem : List ℕ → ℕ → Option Verdict
check_subsystem header off = do
  subsystem ← u16_at header off
  if not (subsystem == 10) && not (subsystem == 11) then some (failed 3008) else some passed

-- the end of bootdiag_v3_winload, on the optional header at `pe_offset`
pub check_optional : List ℕ → ℕ → Option Verdict
check_optional header pe_offset = if ltb 4096 (pe_offset + 2) then some (failed 3006) else do
  magic ← u16_at header pe_offset
  if not (magic == 523) then some (failed 3007) else after_magic
  where
    after_magic : Option Verdict
    after_magic =
        if leb (pe_offset + 68 + 2) 4096
        then check_subsystem header (pe_offset + 68)
        else some passed

-- its test of the machine of the PE header at `e_lfanew`
pub check_machine : List ℕ → ℕ → Option Verdict
check_machine header e_lfanew = do
  machine ← u16_at header (e_lfanew + 4)
  if not (machine == 34404) then some (failed 3005) else check_optional header (e_lfanew + 24)

-- its test for "PE" and two zero bytes; those below 4096 are read at once, although C stops at the first
-- that differs
pub check_pe : List ℕ → ℕ → Option Verdict
check_pe header e_lfanew = do
  pe ← u16_at header e_lfanew
  zeros ← u16_at header (e_lfanew + 2)
  if pe == 17744 && zeros == 0 then check_machine header e_lfanew else some (failed 3004)

-- its tests on the file that was read
pub check_winload : List ℕ → Option Verdict
check_winload header = do
  mz ← u16_at header 0
  e_lfanew ← u32_at header 60
  if not (mz == 23117) then some (failed 3002) else check_lfanew e_lfanew
  where
    check_lfanew : ℕ → Option Verdict
    check_lfanew e_lfanew =
        if e_lfanew == 0 || leb 4092 e_lfanew then some (failed 3003) else check_pe header e_lfanew

-- bootdiag_v3_winload
pub v3_winload : List (Option (List ℕ)) → Option Verdict
v3_winload files = elim (first_read files) [
  | none ↦ some (failed 3001)
  | some header ↦ check_winload header
]

-- a round of bootdiag_v6_hive's loop, on what the three paths of a hive read as
abbrev pub hive_ok : List (Option (List ℕ)) → Bool
hive_ok files = elim (first_read files) [
  | none ↦ false
  | some header ↦ same_bytes (take 4 header) regf
]

-- bootdiag_v6_hive's loop, with `all_pass`; a hive that is bad does not end it
pub all_hives : List (List (Option (List ℕ))) → Bool → Bool
all_hives [] all_pass = all_pass
all_hives (files ∷ rest) all_pass = all_hives rest (if hive_ok files then all_pass else false)

-- bootdiag_v6_hive, given the reads for SYSTEM, SOFTWARE, SAM and SECURITY
pub v6_hive : List (List (Option (List ℕ))) → Verdict
v6_hive hives = if all_hives hives true then passed else failed 6001

-- "NTFS    " and "FILE"
abbrev pub ntfs_oem : List ℕ
ntfs_oem = 78 ∷ 84 ∷ 70 ∷ 83 ∷ 32 ∷ 32 ∷ 32 ∷ 32 ∷ []

abbrev pub file_magic : List ℕ
file_magic = 70 ∷ 73 ∷ 76 ∷ 69 ∷ []

-- `bytes_per_sector * (1 << sectors_per_cluster)` on int, as uint32_t; none for a shift that int has no
-- room for
abbrev pub cluster_size : ℕ → ℕ → Option ℕ
cluster_size bytes_per_sector sectors_per_cluster =
    if ltb (bytes_per_sector * 2 ^ sectors_per_cluster) 2147483648
    then some (bytes_per_sector * 2 ^ sectors_per_cluster)
    else none

-- `2048 + mft_start_lcn * cluster_size / bytes_per_sector` on uint64_t
pub mft_lba : ℕ → ℕ → ℕ → ℕ
mft_lba mft_start_lcn size bytes_per_sector =
    u64 (2048 + u64 (mft_start_lcn * size) / bytes_per_sector)

-- the tests of bootdiag_v7_ntfs on the boot sector
pub check_volume : (ℕ → Option (List ℕ)) → List ℕ → Option Verdict
check_volume read sector =
    let bytes_per_sector = from_le (take 2 (drop 11 sector)) in
    let sectors_per_cluster = from_le (take 1 (drop 13 sector)) in
    let mft_start_lcn = from_le (take 8 (drop 48 sector)) in
    if not (same_bytes (take 8 (drop 3 sector)) ntfs_oem)
    then some (failed 7002)
    else (if not (bytes_per_sector == 512) && not (bytes_per_sector == 4096)
        then some (failed 7003)
        else do
          size ← cluster_size bytes_per_sector sectors_per_cluster
          elim (read (mft_lba mft_start_lcn size bytes_per_sector)) [
            | none ↦ some (failed 7004)
            | some mft_record ↦
                if not (same_bytes (take 4 mft_record) file_magic)
                then some (failed 7005)
                else some passed
          ])

-- bootdiag_v7_ntfs: the boot sector of the OS partition, or LBA 0 if that cannot be read
pub v7_ntfs : (ℕ → Option (List ℕ)) → Option Verdict
v7_ntfs read = elim (first_read (read 2048 ∷ read 0 ∷ [])) [
  | none ↦ some (failed 7001)
  | some sector ↦ check_volume read sector
]
