-- ===== src/Replay/Recorder.antt =====
-- BootReplayRecorder: the ring with the flag of a finished flush, and the copy to COM1 that
-- FlushEmergency falls back to. The mutex is left out: one call at a time.
pub mod Session
use Prim.Native.Nat.{min}
use htkis_hyper_disk.Base.{
  ℕ, zero, suc, ◌+◌, Bool, true, false, List, [], ◌∷◌, Option, none, some, ◌>>=◌, if◌then◌else◌,
  take, length, ◌≡◌, refl, ap, ◌∙◌, ◌⊎◌, inl, inr, Bool-cases, arith,
}
use htkis_hyper_disk.Replay.{
  ReplayEntry, ReplayRing, new_ring, replay_default_capacity, initialize, start_recording,
  stop_recording, Io, write, get_all_entries,
}
use htkis_hyper_disk.Replay.File.{Place, Flushed, file_buf, flush_entries, flush_to_file}

-- What FlushToCom1 does: the ring, its result, the number of entries in its first line, and the entries
-- that have a line each.
pub record Dumped : Type 0 where
  pub ring : ReplayRing
  pub result : Bool
  pub announced : ℕ
  pub lines : List ReplayEntry

-- FlushToCom1 on Windows; `com1` says whether the port can be opened
pub flush_to_com1 : ReplayRing → Bool → Option Dumped
flush_to_com1 r com1 =
    let stopped = stop_recording r in
    elim (get_all_entries stopped) [
      | none ↦ none
      | some es ↦
          if com1
          then some (record {
            ring = stopped;
            result = true;
            announced = length es;
            lines = take (min (length es) 1000) es;
          })
          else some (record { ring = stopped; result = false; announced = 0; lines = [] })
    ]

pub record BootReplayRecorder : Type 0 where
  pub ring : ReplayRing
  pub flushed : Bool

-- the constructor
abbrev pub new_recorder : BootReplayRecorder
new_recorder = record { ring = new_ring replay_default_capacity; flushed = false }

-- BootReplayRecorder::Start and Stop
pub start : BootReplayRecorder → Bool → ℕ → BootReplayRecorder × Bool
start b memory now =
    let (r, done) = initialize b.ring memory in
    if done
    then (record { ring = start_recording r now; flushed = false }, true)
    else (record b { ring = r }, false)

pub stop : BootReplayRecorder → BootReplayRecorder
stop b = record b { ring = stop_recording b.ring }

-- RecordIo
pub record_io : BootReplayRecorder → Io → Option BootReplayRecorder
record_io b io = write b.ring io >>= λ r. some (record b { ring = r })

-- What a flush leaves: the recorder, its result, the file and the lines that it wrote.
pub record Outcome : Type 0 where
  pub recorder : BootReplayRecorder
  pub result : Bool
  pub file : Option (List ℕ)
  pub lines : List ReplayEntry

abbrev already : BootReplayRecorder → Outcome
already b = record { recorder = b; result = true; file = none; lines = [] }

-- FlushNormal
pub flush_normal : BootReplayRecorder → Place → Option Outcome
flush_normal b p =
    if b.flushed
    then some (already b)
    else (flush_to_file b.ring p >>= λ f. some (record {
      recorder = record { ring = f.ring; flushed = if f.result then true else b.flushed };
      result = f.result;
      file = f.file;
      lines = [];
    }))

-- FlushEmergency
pub flush_emergency : BootReplayRecorder → Place → Bool → Option Outcome
flush_emergency b p com1 =
    if b.flushed
    then some (already b)
    else (flush_to_file b.ring p >>= λ f.
        if f.result
        then some (record {
          recorder = record { ring = f.ring; flushed = true };
          result = true;
          file = f.file;
          lines = [];
        })
        else (flush_to_com1 f.ring com1 >>= λ d. some (record {
          recorder = record { ring = d.ring; flushed = b.flushed };
          result = d.result;
          file = f.file;
          lines = d.lines;
        })))
