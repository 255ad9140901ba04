-- ===== src/Wal/Tests.antt =====
-- Runs of the log on small records.
use htkis_hyper_disk.Base.{
  ℕ, ◌≡◌, refl, true, false, List, [], ◌∷◌, ◌++◌, none, some, length, arith, drop,
}
use htkis_hyper_disk.Wal.Entry.{compute_crc32c, build, validate, parse, ok, nothing}
use htkis_hyper_disk.Wal.Entry.Laws.{entry_of, parse-build}
use htkis_hyper_disk.Wal.Segment.{
  Io, Disk, WalSegment, open_segment, well, write_entry, read_all_entries,
}
use htkis_hyper_disk.Wal.Segment.Laws.{Fits, stored, built, entries}
use htkis_hyper_disk.Wal.Segment.Writes.{AtEnd, write_all}
use htkis_hyper_disk.Wal.Segment.Crash.{AllFit, nil, cons, read_all-crash, write_entry-reopened}
use htkis_hyper_disk.Wal.Manager.{collect_entries_for_replay, crash_replay, write_checkpoint}
use htkis_hyper_disk.Wal.Manager.Replay.{
  logged, numbered, first_seq_id, collect-log_all, crash_replay-checkpoint,
}

-- CRC-32C of "123456789"
crc_of_digits : compute_crc32c (49 ∷ 50 ∷ 51 ∷ 52 ∷ 53 ∷ 54 ∷ 55 ∷ 56 ∷ 57 ∷ []) ≡ 3808858755
unfolding compute_crc32c
crc_of_digits = refl

abbrev payload : List ℕ
payload = 7 ∷ 8 ∷ 9 ∷ []

parse-build_example :
    (validate (build 5 (some payload) 3 ++ (1 ∷ []))
      ≡ record { status = ok; seq_id = 5; error_msg = nothing })
    × (parse (build 5 (some payload) 3 ++ (1 ∷ [])) ≡ entry_of 5 payload)
parse-build_example = parse-build 5 payload (1 ∷ []) (omega arith) (omega arith)

abbrev no_files : Disk
no_files path = []

abbrev first : ℕ × List ℕ
first = (1, payload)

abbrev second : ℕ × List ℕ
second = (2, 4 ∷ [])

first-Fits : Fits first
first-Fits = record { seq_fits = omega arith; len_fits = omega arith }

second-Fits : Fits second
second-Fits = record { seq_fits = omega arith; len_fits = omega arith }

abbrev fresh_segment : WalSegment
fresh_segment = open_segment well no_files 1 0 false

fresh_segment-AtEnd : AtEnd no_files fresh_segment
fresh_segment-AtEnd = record { fd_end = refl; unsealed = refl; writable = refl }

-- the system stops after ten bytes
abbrev ten_bytes : Io
ten_bytes = record well { written = λ n. some 10 }

read_all-crash_example :
    let before = write_all no_files fresh_segment (first ∷ []) in
    let after = write_entry ten_bytes before.disk before.segment 2 (some (4 ∷ [])) 1 in
    (read_all_entries well after.disk (open_segment well after.disk 1 0 true)).0 ≡ stored first ∷ []
read_all-crash_example =
    read_all-crash no_files fresh_segment (first ∷ []) second ten_bytes 10 0 true
      fresh_segment-AtEnd refl (cons first-Fits nil) second-Fits refl (omega arith)

write_entry-reopened_example :
    let w = write_entry well no_files (open_segment well no_files 1 0 false) 1 (some payload) 3 in
    entries (w.disk 1) ≡ stored first ∷ entries (drop (length (built first)) [])
write_entry-reopened_example = write_entry-reopened no_files 1 0 first first-Fits

both_fit : AllFit (numbered (first_seq_id none) (payload ∷ (4 ∷ []) ∷ []))
both_fit = cons first-Fits (cons second-Fits nil)

collect-log_all_example :
    (collect_entries_for_replay well (logged no_files none (payload ∷ (4 ∷ []) ∷ []))).0
    ≡ stored first ∷ stored second ∷ []
collect-log_all_example =
    collect-log_all no_files none (payload ∷ (4 ∷ []) ∷ []) (λ k. refl) both_fit (omega arith)
      (omega arith)

-- both are flushed before the replay, which sets the checkpoint back to 0
crash_replay-checkpoint_example :
    (crash_replay well
      (write_checkpoint well (logged no_files none (payload ∷ (4 ∷ []) ∷ [])) 2).0).0.checkpoint
    ≡ some 0
crash_replay-checkpoint_example =
    crash_replay-checkpoint no_files none payload ((4 ∷ []) ∷ []) 2 (λ k. refl) both_fit
      (omega arith) (omega arith)
