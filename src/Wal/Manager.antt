-- ===== src/Wal/Manager.antt =====
-- wal_enhanced.cpp: SequenceFence and WalManager, the log as a chain of segment files. The files of
-- data_dir are kept with the members: the segments by their numbers, and the number that the
-- checkpoint file holds. Its text, its time stamp and its path are left out, and so are the locks: an
-- operation is one step.
pub mod Chain
pub mod Runs
pub mod Replay
use htkis_hyper_disk.Base.{
  ℕ, zero, suc, ◌+◌, ◌-◌, Bool, true, false, not, ◌&&◌, ◌||◌, List, [], ◌∷◌, ◌++◌, Option, none,
  some, ltb, leb, if◌then◌else◌, u32, u64, sub64,
}
use htkis_hyper_disk.Wal.Entry.{Entry}
use htkis_hyper_disk.Wal.Segment.{
  Io, Disk, WalSegment, Written, open_segment, write_entry, read_all_entries, is_full, seal,
}

pub record WalManager : Type 0 where
  pub disk : Disk
  pub checkpoint : Option ℕ
  pub next_seq_id : ℕ
  pub active_segment : Option WalSegment
  pub sealed_segments : List WalSegment
  pub next_segment_number : ℕ
  pub is_open : Bool

-- SequenceFence: Current, Next (whose result is the old number) and CheckMonotonic
abbrev pub current : WalManager → ℕ
current m = sub64 m.next_seq_id 1

abbrev pub next : WalManager → WalManager
next m = record m { next_seq_id = u64 (m.next_seq_id + 1) }

pub check_monotonic : WalManager → ℕ → Bool
check_monotonic m seq_id = ltb (current m) seq_id

-- the constructor, on the files that are there
pub new_manager : Disk → Option ℕ → WalManager
new_manager disk checkpoint = record {
  disk = disk;
  checkpoint = checkpoint;
  next_seq_id = 1;
  active_segment = none;
  sealed_segments = [];
  next_segment_number = 1;
  is_open = false;
}

-- ReadCheckpoint, as far as flushed_seq_id goes
pub read_checkpoint : Io → WalManager → ℕ
read_checkpoint io m = elim m.checkpoint [
  | none ↦ 0
  | some flushed ↦ if io.readable then flushed else 0
]

-- WriteCheckpoint: the file is emptied when it is opened
pub write_checkpoint : Io → WalManager → ℕ → WalManager × Bool
write_checkpoint io m flushed_seq_id =
    if not io.opened
    then (m, false)
    else (if io.checkpoint_written
        then (record m { checkpoint = some flushed_seq_id }, true)
        else (record m { checkpoint = none }, false))

-- the segment that is opened under the manager's next number
abbrev pub new_segment : Io → WalManager → WalSegment
new_segment io m = open_segment io m.disk m.next_segment_number (current m) false

-- Open
pub open_manager : Io → WalManager → WalManager
open_manager io m =
    let reset = record m { next_seq_id = u64 (read_checkpoint io m + 1) } in
    record reset { active_segment = some (new_segment io reset); is_open = true }

-- Close
pub close_manager : WalManager → WalManager
close_manager m = record m { active_segment = none; sealed_segments = []; is_open = false }

-- TriggerSegmentRollover
pub trigger_segment_rollover : Io → WalManager → WalManager
trigger_segment_rollover io m =
    let sealed : List WalSegment = elim m.active_segment [ none ↦ [] | some s ↦ seal s ∷ [] ] in
    let moved = record m {
      sealed_segments = m.sealed_segments ++ sealed;
      next_segment_number = u32 (m.next_segment_number + 1);
    } in
    record moved { active_segment = some (new_segment io moved) }

-- RollOverIfNeeded, with a segment that is there
pub roll_over_if_needed : Io → WalSegment → WalManager → WalManager
roll_over_if_needed io s m = if is_full s then trigger_segment_rollover io m else m

-- the rest of WriteEntry, after the segment's
pub finish_entry : Io → WalManager → Written → WalManager × ℕ
finish_entry io m w =
    let written = record (next m) { disk = w.disk; active_segment = some w.segment } in
    if w.result then (roll_over_if_needed io w.segment written, m.next_seq_id) else (written, 0)

-- WriteEntry: the manager and the sequence number, 0 if nothing was written
pub log_entry : Io → WalManager → Option (List ℕ) → ℕ → WalManager × ℕ
log_entry io m payload payload_len = elim m.active_segment [
  | none ↦ (m, 0)
  | some s ↦
      if not m.is_open
      then (m, 0)
      else finish_entry io m (write_entry io m.disk s m.next_seq_id payload payload_len)
]

abbrev pub read_each : Io → Disk → List WalSegment → List Entry × List WalSegment
read_each io d [] = ([], [])
read_each io d (s ∷ ss) =
    let first = read_all_entries io d s in
    let others = read_each io d ss in (first.0 ++ others.0, first.1 ∷ others.1)

-- CollectEntriesForReplay: the entries, and the manager with the positions of its files moved
pub collect_entries_for_replay : Io → WalManager → List Entry × WalManager
collect_entries_for_replay io m =
    let before = read_each io m.disk m.sealed_segments in
    elim m.active_segment [
      | none ↦ (before.0, record m { sealed_segments = before.1 })
      | some s ↦
          let last = read_all_entries io m.disk s in
          (
            before.0 ++ last.0,
            record m { sealed_segments = before.1; active_segment = some last.1 },
          )
    ]

-- the loop of CrashReplay: prev_seq_id at its end
pub replay_from : ℕ → ℕ → List Entry → ℕ
replay_from last_flushed prev_seq_id [] = prev_seq_id
replay_from last_flushed prev_seq_id (e ∷ es) =
    if leb e.seq_id last_flushed
    then replay_from last_flushed prev_seq_id es
    else (if leb e.seq_id prev_seq_id
        then replay_from last_flushed e.seq_id es
        else replay_from last_flushed e.seq_id es)

-- CrashReplay
pub crash_replay : Io → WalManager → WalManager × Bool
crash_replay io m =
    let found = collect_entries_for_replay io m in
    let prev_seq_id = replay_from (read_checkpoint io m) 0 found.0 in
    ((write_checkpoint io found.1 prev_seq_id).0, true)
