-- ===== src/Replay.antt =====
-- tools/replay_recorder/replay_recorder.h and .cpp: the ring of recorded requests, ReplayRingBuffer. The
-- buffer is a list of bytes, an entry takes 33 of them in little endian, and an access outside the
-- buffer is none. The clock counts nanoseconds. Sizes and positions are 32-bit words.
pub mod Slots
pub mod Ring
pub mod Step
pub mod Recent
pub mod File
pub mod Recorder
pub mod Report
pub mod Perf
pub mod Train
mod Tests
use Prim.Native.Nat.{min}
use htkis_hyper_disk.Base.{
  ℕ, zero, suc, ◌+◌, ◌-◌, ◌*◌, ◌/◌, ◌%◌, Bool, true, false, not, List, [], ◌∷◌, ◌++◌, Option, none,
  some, ltb, if◌then◌else◌, take, drop, length, replicate, u32, u64, to_le, from_le,
}

abbrev pub replay_entry_size : ℕ
replay_entry_size = 33

abbrev pub replay_default_capacity : ℕ
replay_default_capacity = 64 * 1024 * 1024

pub record ReplayEntry : Type 0 where
  pub lba : ℕ
  pub offset : ℕ
  pub size : ℕ
  pub latency_us : ℕ
  pub status : ℕ
  pub timestamp_ms : ℕ
  pub reserved : ℕ

-- the bytes of an entry in memory, and the entry that 33 bytes hold
abbrev pub entry_memory : ReplayEntry → List ℕ
entry_memory e =
    to_le 8 e.lba
    ++ (to_le 8 e.offset
        ++ (to_le 4 e.size
            ++ (to_le 4 e.latency_us
                ++ (to_le 4 e.status ++ (to_le 4 e.timestamp_ms ++ to_le 1 e.reserved)))))

abbrev pub load_entry : List ℕ → ReplayEntry
load_entry b = record {
  lba = from_le (take 8 b);
  offset = from_le (take 8 (drop 8 b));
  size = from_le (take 4 (drop 16 b));
  latency_us = from_le (take 4 (drop 20 b));
  status = from_le (take 4 (drop 24 b));
  timestamp_ms = from_le (take 4 (drop 28 b));
  reserved = from_le (take 1 (drop 32 b));
}

pub record ReplayRing : Type 0 where
  pub buffer : Option (List ℕ)
  pub capacity : ℕ
  pub write_count : ℕ
  pub overwrite_count : ℕ
  pub head : ℕ
  pub active : Bool
  pub record_start : ℕ

-- the constructor
abbrev pub new_ring : ℕ → ReplayRing
new_ring capacity = record {
  buffer = none;
  capacity = capacity;
  write_count = 0;
  overwrite_count = 0;
  head = 0;
  active = false;
  record_start = 0;
}

-- Initialize; `memory` says whether the allocation succeeds
pub initialize : ReplayRing → Bool → ReplayRing × Bool
initialize r memory = elim r.buffer [
  | some b ↦ (r, true)
  | none ↦
      if memory then (record r { buffer = some (replicate r.capacity 0) }, true) else (r, false)
]

-- Destroy
pub destroy : ReplayRing → ReplayRing
destroy r = record r { buffer = none; active = false }

-- StartRecording and StopRecording
pub start_recording : ReplayRing → ℕ → ReplayRing
start_recording r now = record r { record_start = now; active = true }

pub stop_recording : ReplayRing → ReplayRing
stop_recording r = record r { active = false }

-- memcpy of `bytes` to a place in the buffer
abbrev pub copy_to : List ℕ → ℕ → List ℕ → List ℕ
copy_to buffer pos bytes = take pos buffer ++ (bytes ++ drop (pos + length bytes) buffer)

-- the arguments of Write, with the time of the call
pub record Io : Type 0 where
  pub lba : ℕ
  pub offset : ℕ
  pub size : ℕ
  pub latency_us : ℕ
  pub status : ℕ
  pub reserved : ℕ
  pub now : ℕ

-- the entry that Write fills in
abbrev pub entry_of : ℕ → Io → ReplayEntry
entry_of record_start io = record {
  lba = io.lba;
  offset = io.offset;
  size = io.size;
  latency_us = io.latency_us;
  status = io.status;
  timestamp_ms = u32 ((io.now - record_start) / 1000000);
  reserved = io.reserved;
}

-- where Write puts the entry
pub write_position : ReplayRing → ℕ
write_position r = if ltb r.capacity (u32 (r.head + replay_entry_size)) then 0 else r.head

-- Write after the test of `active_`; none if there is no buffer or the entry does not fit it
pub write_at : ReplayRing → ℕ → ReplayEntry → Option ReplayRing
write_at r pos e = elim r.buffer [
  | none ↦ none
  | some b ↦
      let count = u64 (r.write_count + 1) in
      let max_entries = r.capacity / replay_entry_size in
      if ltb r.capacity (pos + replay_entry_size)
      then none
      else some (record r {
        buffer = some (copy_to b pos (entry_memory e));
        head = u32 (pos + replay_entry_size) % r.capacity;
        write_count = count;
        overwrite_count = if ltb max_entries count then count - max_entries else r.overwrite_count;
      })
]

-- Write
pub write : ReplayRing → Io → Option ReplayRing
write r io = if r.active then write_at r (write_position r) (entry_of r.record_start io) else some r

-- The loop of GetAllEntries from the round i on, n rounds; none if memcpy reads behind the buffer.
pub read_entries_loop : List ℕ → ℕ → ℕ → ℕ → ℕ → Option (List ReplayEntry)
read_entries_loop b capacity read_start i zero = some []
read_entries_loop b capacity read_start i (suc n) =
    let pos = u32 (read_start + i * replay_entry_size) % capacity in
    let rest = read_entries_loop b capacity read_start (i + 1) n in
    if ltb capacity (pos + replay_entry_size) then none else elim rest [
      | none ↦ none
      | some es ↦ some (load_entry (take replay_entry_size (drop pos b)) ∷ es)
    ]

-- GetAllEntries
pub get_all_entries : ReplayRing → Option (List ReplayEntry)
get_all_entries r = elim r.buffer [
  | none ↦ some []
  | some b ↦
      let count = u32 (min r.write_count (r.capacity / replay_entry_size)) in
      let read_start = if ltb 0 r.overwrite_count then r.head else 0 in
      read_entries_loop b r.capacity read_start 0 count
]
