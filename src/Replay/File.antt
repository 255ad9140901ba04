-- ===== src/Replay/File.antt =====
-- The file that FlushToFile writes and ReadEntries reads: a header of 16 bytes, the entries and a
-- footer. FlushToFile copies the header's first 12 bytes and puts its CRC behind them; its last memcpy
-- writes two bytes behind `header_buf`.
pub mod Laws
use htkis_hyper_disk.Base.{
  ℕ, zero, suc, ◌+◌, ◌-◌, ◌/◌, ◌%◌, Bool, true, false, not, ◌||◌, List, [], ◌∷◌, ◌++◌, Option, none,
  some, ltb, ◌==◌, if◌then◌else◌, take, drop, length, u32, to_le, from_le,
}
use htkis_hyper_disk.BootDiag.Gpt.{compute_crc32c}
use htkis_hyper_disk.Replay.{
  replay_entry_size, ReplayEntry, entry_memory, load_entry, ReplayRing, stop_recording,
  get_all_entries,
}

abbrev pub replay_magic : ℕ
replay_magic = 1212438610

abbrev pub replay_footer_magic : ℕ
replay_footer_magic = 1212438598

abbrev pub replay_version : ℕ
replay_version = 1

abbrev pub replay_header_size : ℕ
replay_header_size = 16

abbrev pub replay_footer_size : ℕ
replay_footer_size = 8

pub record ReplayFileHeader : Type 0 where
  pub magic : ℕ
  pub version : ℕ
  pub entry_count : ℕ
  pub header_crc32c : ℕ
  pub reserved : ℕ

-- the packed structure in memory, and the structure that 16 bytes hold
abbrev pub header_memory : ReplayFileHeader → List ℕ
header_memory h =
    to_le 4 h.magic
    ++ (to_le 2 h.version
        ++ (to_le 4 h.entry_count ++ (to_le 4 h.header_crc32c ++ to_le 2 h.reserved)))

abbrev pub load_header : List ℕ → ReplayFileHeader
load_header b = record {
  magic = from_le (take 4 b);
  version = from_le (take 2 (drop 4 b));
  entry_count = from_le (take 4 (drop 6 b));
  header_crc32c = from_le (take 4 (drop 10 b));
  reserved = from_le (take 2 (drop 14 b));
}

-- the header before its CRC is known
abbrev pub new_header : ℕ → ReplayFileHeader
new_header n = record {
  magic = replay_magic;
  version = replay_version;
  entry_count = u32 n;
  header_crc32c = 0;
  reserved = 0;
}

-- `header_buf` of FlushToFile for n entries
pub header_buf : ℕ → List ℕ
header_buf n =
    let front = take 12 (header_memory (new_header n)) in front ++ to_le 4 (compute_crc32c front)

abbrev pub entries_memory : List ReplayEntry → List ℕ
entries_memory [] = []
entries_memory (e ∷ es) = entry_memory e ++ entries_memory es

-- `file_buf` of FlushToFile
pub file_buf : List ReplayEntry → List ℕ
file_buf es =
    let body = header_buf (length es) ++ entries_memory es in
    body ++ (to_le 4 (compute_crc32c body) ++ to_le 4 replay_footer_magic)

-- What FlushToFile does: the ring, its result, and the file that it writes.
pub record Flushed : Type 0 where
  pub ring : ReplayRing
  pub result : Bool
  pub file : Option (List ℕ)

-- What a call of FlushToFile meets. `spare` is the number of bytes behind `header_buf` on the stack that
-- hold nothing else: the language gives none. `opens` says whether the file can be created, and `written`
-- how many of so many bytes reach it; the results of write, flush and close are not looked at.
pub record Place : Type 0 where
  pub spare : ℕ
  pub opens : Bool
  pub written : ℕ → ℕ

-- FlushToFile of the entries that GetAllEntries gave; none if the last memcpy, of the two reserved
-- bytes to `header_buf + 16`, writes over something else
pub flush_entries : ReplayRing → List ReplayEntry → Place → Option Flushed
flush_entries r [] p = some (record { ring = r; result = false; file = none })
flush_entries r (e ∷ es) p =
    let bytes = file_buf (e ∷ es) in
    if ltb (replay_header_size + p.spare) (16 + 2)
    then none
    else some (
        if p.opens
        then record { ring = r; result = true; file = some (take (p.written (length bytes)) bytes) }
        else record { ring = r; result = false; file = none })

-- FlushToFile; none also if GetAllEntries reads outside the buffer
pub flush_to_file : ReplayRing → Place → Option Flushed
flush_to_file r p =
    let stopped = stop_recording r in
    elim (get_all_entries stopped) [ none ↦ none | some es ↦ flush_entries stopped es p ]

-- the loop of ReadEntries for n entries, on the bytes that are left of the file
pub read_loop : ℕ → List ℕ → List ReplayEntry
read_loop zero bytes = []
read_loop (suc n) bytes =
    let rest =
      load_entry (take replay_entry_size bytes) ∷ read_loop n (drop replay_entry_size bytes) in
    if ltb (length bytes) replay_entry_size then [] else rest

-- ReadEntries of a file's bytes; none stands for a file that cannot be opened
pub read_entries : Option (List ℕ) → List ReplayEntry
read_entries none = []
read_entries (some bytes) =
    let header = load_header bytes in
    if ltb (length bytes) replay_header_size
    then []
    else (if not (header.magic == replay_magic) || not (header.version == replay_version)
        then []
        else read_loop header.entry_count (drop replay_header_size bytes))

-- whether CheckAndRenameIncomplete renames a file of such a length
pub is_incomplete : ℕ → Bool
is_incomplete file_size = ltb file_size (replay_header_size + replay_footer_size)
