-- ===== src/Wal/Segment.antt =====
-- wal_enhanced.cpp: WalSegment, one file of the log. `Disk` gives the bytes of each segment file by the
-- number in its name; a file that is not there is empty, since the code creates it. The file is opened
-- at position 0 and without O_APPEND, so the first write overwrites what an older run left.
pub mod Laws
pub mod Writes
pub mod Crash
use htkis_hyper_disk.Base.{
  ℕ, zero, suc, ◌+◌, ◌-◌, ◌/◌, ◌*◌, Bool, true, false, ◌||◌, List, [], ◌∷◌, ◌++◌, Option, none,
  some, leb, ◌==◌, if◌then◌else◌, take, drop, length, replicate, u32, u64,
}
use htkis_hyper_disk.Wal.Entry.{Entry, EntryStatus, ok, build, validate, parse, align8, entry_size}

abbrev pub wal_segment_size : ℕ
wal_segment_size = 67108864

abbrev pub wal_max_entries : ℕ
wal_max_entries = 500000

abbrev pub Disk : Type 0
Disk = ℕ → List ℕ

abbrev pub put_file : Disk → ℕ → List ℕ → Disk
put_file d path bytes k = if k == path then bytes else d k

-- What the calls of the system answer during one operation: `opened` of open, `readable` of opening and
-- reading the checkpoint, `fails` of a read of a segment, `written` of a write of so many bytes, and
-- `checkpoint_written` of writing the checkpoint.
pub record Io : Type 0 where
  pub opened : Bool
  pub readable : Bool
  pub fails : ℕ → Bool
  pub written : ℕ → Option ℕ
  pub checkpoint_written : Bool

-- The members of the class; `fd` is the position in the open file, and none for -1.
pub record WalSegment : Type 0 where
  pub path : ℕ
  pub start_seq_id : ℕ
  pub last_seq_id : ℕ
  pub entry_count : ℕ
  pub file_size : ℕ
  pub is_sealed : Bool
  pub read_only : Bool
  pub fd : Option ℕ

-- the constructor
abbrev pub open_segment : Io → Disk → ℕ → ℕ → Bool → WalSegment
open_segment io d path start_seq_id read_only = record {
  path = path;
  start_seq_id = start_seq_id;
  last_seq_id = start_seq_id;
  entry_count = 0;
  file_size = if io.opened then length (d path) else 0;
  is_sealed = read_only;
  read_only = read_only;
  fd = if io.opened then some 0 else none;
}

-- write(2) of bytes at a position; a gap behind the end of the file is filled with zeros
abbrev pub overwrite : List ℕ → ℕ → List ℕ → List ℕ
overwrite file pos chunk =
    take pos file ++ (replicate (pos - length file) 0 ++ (chunk ++ drop (pos + length chunk) file))

-- A segment and the files behind it, with what the operation returns.
pub record Written : Type 0 where
  pub segment : WalSegment
  pub disk : Disk
  pub result : Bool

-- the effect of a write of `buf` at `pos` of which the system has done the first `n` bytes
pub put_bytes : Disk → WalSegment → ℕ → ℕ → List ℕ → ℕ → Written
put_bytes d s pos seq_id buf n =
    let disk = put_file d s.path (overwrite (d s.path) pos (take n buf)) in
    let moved = record s { fd = some (pos + n) } in
    if n == length buf
    then record {
      segment = record moved {
        last_seq_id = seq_id;
        entry_count = u32 (s.entry_count + 1);
        file_size = u64 (s.file_size + length buf);
      };
      disk = disk;
      result = true;
    }
    else record { segment = moved; disk = disk; result = false }

-- WalSegment::WriteEntry behind the test of the flags, by the position in the file
pub write_open : Io → Disk → WalSegment → ℕ → List ℕ → Option ℕ → Written
write_open io d s seq_id buf none = record { segment = s; disk = d; result = false }
write_open io d s seq_id buf (some pos) = elim (io.written (length buf)) [
  | none ↦ record { segment = s; disk = d; result = false }
  | some n ↦ put_bytes d s pos seq_id buf n
]

-- WalSegment::WriteEntry
pub write_entry : Io → Disk → WalSegment → ℕ → Option (List ℕ) → ℕ → Written
write_entry io d s seq_id payload payload_len =
    if s.is_sealed || s.read_only
    then record { segment = s; disk = d; result = false }
    else write_open io d s seq_id (build seq_id payload payload_len) s.fd

-- the loop of ReadAllEntries on the bytes from `offset` on
pub entries_from : ℕ → List ℕ → List Entry
entries_from zero bytes = []
entries_from (suc fuel) [] = []
entries_from (suc fuel) (b ∷ bs) =
    let entry = parse (b ∷ bs) in
    let rest = entries_from fuel (drop (align8 (entry_size entry.payload_len)) (b ∷ bs)) in
    elim (validate (b ∷ bs)).status [ ok ↦ entry ∷ rest | _ ↦ [] ]

-- the bytes that read(2) gives of an open file, from its start
abbrev pub file_bytes : Disk → WalSegment → List ℕ
file_bytes d s = take s.file_size (d s.path)

-- ReadAllEntries, by whether the file is open
pub read_open : Io → Disk → WalSegment → Option ℕ → List Entry × WalSegment
read_open io d s none = ([], s)
read_open io d s (some pos) = if io.fails s.path then ([], record s { fd = some 0 }) else (
  entries_from (length (file_bytes d s)) (file_bytes d s),
  record s { fd = some (length (file_bytes d s)) },
)

-- WalSegment::ReadAllEntries: the entries, and the segment with its position behind what was read
pub read_all_entries : Io → Disk → WalSegment → List Entry × WalSegment
unfolding read_open
read_all_entries io d s = read_open io d s s.fd

abbrev pub is_full : WalSegment → Bool
is_full s = leb wal_segment_size s.file_size || leb wal_max_entries s.entry_count

-- WalSegment::Seal; fsync changes nothing here
abbrev pub seal : WalSegment → WalSegment
seal s = record s { is_sealed = true }

-- every call of the system succeeds
abbrev pub well : Io
well = record {
  opened = true;
  readable = true;
  fails = λ path. false;
  written = λ n. some n;
  checkpoint_written = true;
}
