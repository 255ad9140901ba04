-- ===== src/Wal/Entry.antt =====
-- wal_enhanced.cpp: CRC-32C and the bytes of one log entry, WalEntryBuilder. An entry is a magic
-- number, a version, a sequence number, a CRC of these and of the length, the length, the payload and a
-- CRC of all that, padded with zeros to a multiple of eight bytes. The table of the CRC is a const
-- array that the code fills through a cast; it is taken as filled.
pub mod Laws
use Prim.Native.Nat.{bit_xor}
use htkis_hyper_disk.Base.{
  ℕ, zero, suc, ◌+◌, ◌-◌, ◌*◌, ◌/◌, ◌%◌, Bool, true, false, not, List, [], ◌∷◌, ◌++◌, Option, none,
  some, ltb, ◌==◌, if◌then◌else◌, take, drop, length, replicate, u32, to_le, from_le,
}

abbrev pub wal_magic : ℕ
wal_magic = 1212438615

abbrev pub wal_version : ℕ
wal_version = 1

-- the inner loop of InitCrc32cTable
abbrev pub crc_shift : ℕ → ℕ → ℕ
crc_shift zero crc = crc
crc_shift (suc j) crc = crc_shift j (bit_xor (crc / 2) (if (crc % 2) == 1 then 2197175160 else 0))

abbrev pub crc32c_table : ℕ → ℕ
crc32c_table i = crc_shift 8 i

-- the loop of ComputeCrc32c
abbrev pub crc_bytes : ℕ → List ℕ → ℕ
crc_bytes crc [] = crc
crc_bytes crc (b ∷ bs) = crc_bytes (bit_xor (crc32c_table (bit_xor crc b % 256)) (crc / 256)) bs

-- ComputeCrc32c, whose result is a 32-bit word
unfoldable pub compute_crc32c : List ℕ → ℕ
compute_crc32c bytes = u32 (bit_xor (crc_bytes 4294967295 bytes) 4294967295)

pub record Entry : Type 0 where
  pub magic : ℕ
  pub version : ℕ
  pub seq_id : ℕ
  pub header_crc : ℕ
  pub payload_len : ℕ
  pub payload : List ℕ
  pub footer_crc : ℕ

pub data EntryStatus : Type 0 where
  ok : EntryStatus
  torn_write_detected : EntryStatus
  seq_id_violation : EntryStatus
  crc_mismatch : EntryStatus

-- the texts of error_msg
pub data Message : Type 0 where
  nothing : Message
  entry_too_short : Message
  magic_mismatch : Message
  payload_truncated : Message
  header_crc_mismatch : Message
  footer_crc_mismatch : Message

pub record CheckResult : Type 0 where
  pub status : EntryStatus
  pub seq_id : ℕ
  pub error_msg : Message

-- (n + 7) & ~7
abbrev pub align8 : ℕ → ℕ
align8 n = (n + 7) / 8 * 8

-- WAL_HEADER_SIZE + WAL_SEQID_SIZE + WAL_CRC_SIZE + WAL_PAYLOADLEN_SIZE + payload_len + WAL_CRC_SIZE
abbrev pub entry_size : ℕ → ℕ
entry_size payload_len = 26 + payload_len

-- the first 14 bytes: magic number, version and sequence number
abbrev pub header_bytes : ℕ → List ℕ
header_bytes seq_id = to_le 4 wal_magic ++ (to_le 2 wal_version ++ to_le 8 seq_id)

pub compute_header_crc : ℕ → ℕ → ℕ
compute_header_crc seq_id payload_len = compute_crc32c (header_bytes seq_id ++ to_le 4 payload_len)

-- the bytes that the footer's CRC is taken of; a null payload leaves none
abbrev pub front_bytes : ℕ → Option (List ℕ) → ℕ → List ℕ
front_bytes seq_id payload payload_len =
    to_le 4 wal_magic
    ++ (to_le 2 wal_version
        ++ (to_le 8 seq_id
            ++ (to_le 4 (compute_header_crc seq_id payload_len)
                ++ (to_le 4 payload_len
                    ++ elim payload [ none ↦ [] | some p ↦ take payload_len p ]))))

-- WalEntryBuilder::Build; a payload that is given has at least `payload_len` bytes
pub build : ℕ → Option (List ℕ) → ℕ → List ℕ
build seq_id payload payload_len =
    let front = front_bytes seq_id payload payload_len in
    let written = front ++ to_le 4 (compute_crc32c front) in
    written ++ replicate (align8 (entry_size payload_len) - length written) 0

abbrev pub torn : ℕ → Message → CheckResult
torn seq_id m = record { status = torn_write_detected; seq_id = seq_id; error_msg = m }

-- the last steps of WalEntryBuilder::Validate, from the check of the length on
pub validate_body : List ℕ → ℕ → ℕ → ℕ → CheckResult
validate_body bytes seq_id stored_header_crc payload_len =
    let footer_off = entry_size payload_len - 4 in
    let stored_footer_crc = from_le (take 4 (drop footer_off bytes)) in
    if ltb (length bytes) (entry_size payload_len)
    then torn seq_id payload_truncated
    else (if not (compute_crc32c (take 14 bytes ++ to_le 4 payload_len) == stored_header_crc)
        then torn seq_id header_crc_mismatch
        else (if not (compute_crc32c (take footer_off bytes) == stored_footer_crc)
            then torn seq_id footer_crc_mismatch
            else record { status = ok; seq_id = seq_id; error_msg = nothing }))

-- WalEntryBuilder::Validate; `len` is the length of the bytes
pub validate : List ℕ → CheckResult
validate bytes =
    let seq_id = from_le (take 8 (drop 6 bytes)) in
    let stored_header_crc = from_le (take 4 (drop 14 bytes)) in
    let payload_len = from_le (take 4 (drop 18 bytes)) in
    if ltb (length bytes) (entry_size 0)
    then torn 0 entry_too_short
    else (if not (from_le (take 4 bytes) == wal_magic)
        then torn 0 magic_mismatch
        else validate_body bytes seq_id stored_header_crc payload_len)

-- the entry that Parse builds, when the length field holds `payload_len`
pub parse_fields : List ℕ → ℕ → Entry
parse_fields bytes payload_len =
    let some_payload = ltb 0 payload_len in
    let off = if some_payload then 22 + payload_len else 22 in
    record {
      magic = from_le (take 4 bytes);
      version = from_le (take 2 (drop 4 bytes));
      seq_id = from_le (take 8 (drop 6 bytes));
      header_crc = from_le (take 4 (drop 14 bytes));
      payload_len = payload_len;
      payload = if some_payload then take payload_len (drop 22 bytes) else [];
      footer_crc = from_le (take 4 (drop off bytes));
    }

-- WalEntryBuilder::Parse, called only on bytes that Validate has accepted
pub parse : List ℕ → Entry
parse bytes = parse_fields bytes (from_le (take 4 (drop 18 bytes)))
