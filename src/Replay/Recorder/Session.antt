-- ===== src/Replay/Recorder/Session.antt =====
-- A whole recording: Start, any calls of RecordIo, FlushNormal, and ReadEntries of the file.
use htkis_hyper_disk.Base.{
  ℕ, zero, suc, ◌+◌, ◌-◌, ◌*◌, ◌≤◌, ◌<◌, ◌≡◌, ◌⊎◌, refl, ap, ◌∙◌, Bool, Bool-cases, inl, inr, true,
  false, ltb, take, none, ◌/◌, List, [], ◌∷◌, map, some, ◌>>=◌, arith, if◌then◌else◌, drop, length,
  length-drop,
}
use htkis_hyper_disk.Replay.{ReplayEntry, ReplayRing, Io, entry_of, get_all_entries}
use htkis_hyper_disk.Replay.File.{Place, Flushed, read_entries}
use htkis_hyper_disk.Replay.File.Laws.{
  AllFit, read_entries-cut, read_entries-none, length-file_buf, flushed, flush_to_file_lem,
}
use htkis_hyper_disk.Replay.Step.{AllWords, IsWord-Fits, run, recording}
use htkis_hyper_disk.Replay.Recent.{length-map_entry, get_all-runs}
use htkis_hyper_disk.Replay.Recorder.{Outcome, flush_normal}

AllFit-map : (start : ℕ) (ios : List Io) → AllWords ios → AllFit (map (entry_of start) ios)
AllFit-map start [] w = tt
AllFit-map start (io ∷ ios) w = (IsWord-Fits start io w.0, AllFit-map start ios w.1)

AllFit-drop : (n : ℕ) (es : List ReplayEntry) → AllFit es → AllFit (drop n es)
AllFit-drop zero es v = v
AllFit-drop (suc n) [] v = tt
AllFit-drop (suc n) (e ∷ es) v = AllFit-drop n es v.1

-- the entries of the last k requests
abbrev pub kept : ℕ → ℕ → List Io → List ReplayEntry
kept start k ios = drop (length ios - k) (map (entry_of start) ios)

-- what FlushNormal makes of what FlushToFile leaves
outcome : Flushed → Outcome
outcome f = record {
  recorder = record { ring = f.ring; flushed = if f.result then true else false };
  result = f.result;
  file = f.file;
  lines = [];
}

flush_normal_lem :
    (r : ReplayRing) (es : List ReplayEntry) (p : Place)
    → get_all_entries r ≡ some es
    → 0 < length es
    → flush_normal (record { ring = r; flushed = false }) p
      ≡ (if ltb p.spare 2 then none else some (outcome (flushed r es p)))
unfolding flush_normal outcome
flush_normal_lem r es p got pos =
    ap (λ o. o >>= λ (f : Flushed). some (outcome f)) (flush_to_file_lem r es p got pos)
    ∙ by_spare (ltb p.spare 2)
  where
    by_spare :
        (b : Bool)
        → ((if b then none else some (flushed r es p)) >>= λ (f : Flushed). some (outcome f))
          ≡ (if b then none else some (outcome (flushed r es p)))
    by_spare true = refl
    by_spare false = refl

outcome-flushed :
    (r : ReplayRing) (es : List ReplayEntry) (p : Place)
    → AllFit es
    → length es < 4294967296
    → ((outcome (flushed r es p)).result ≡ p.opens)
      × (read_entries (outcome (flushed r es p)).file
          ≡ (if p.opens then take ((p.written (24 + 33 * length es) - 16) / 33) es else []))
unfolding outcome
outcome-flushed r es p v lt = elim (Bool-cases p.opens) [
  | inl on ↦ simp on (
    refl,
    read_entries-cut es _ v lt
        ∙ ap (λ n. take ((p.written n - 16) / 33) es) (omega (arith, length-file_buf es)),
  )
  | inr off ↦ simp off (refl, read_entries-none)
]

-- The buffer has room for k entries, at least one, and fewer than 33 bytes more; requests are recorded
-- into it, at least one and fewer than 2 ^ 64, whose fields are words of their widths; and they are at
-- most k, or no bytes of the buffer are left over. Then no call of Write fails. FlushNormal writes over
-- foreign bytes of the stack if fewer than two bytes behind `header_buf` are spare. Otherwise it
-- succeeds exactly if it can create the file, however many bytes reach it; and when n bytes do,
-- ReadEntries gives, of the entries of the last k requests, the first (n - 16) / 33 in order.
pub read_entries-flush_normal :
    (start k rest : ℕ) (ios : List Io) (p : Place)
    → 0 < k
    → rest < 33
    → 2 * (33 * k + rest) ≤ 4294967296
    → AllWords ios
    → 0 < length ios
    → length ios < 18446744073709551616
    → (length ios ≤ k) ⊎ (rest ≡ 0)
    → (r : ReplayRing) × (o : Outcome) × (run ios (recording (33 * k + rest) start) ≡ some r)
      × (flush_normal (record { ring = r; flushed = false }) p
          ≡ (if ltb p.spare 2 then none else some o))
      × (o.result ≡ p.opens)
      × (read_entries o.file ≡ (
          if p.opens
          then take ((p.written (24 + 33 * length (kept start k ios)) - 16) / 33) (kept start k ios)
          else []))
read_entries-flush_normal start k rest ios p pos rest_lt small words some_ios lt fits =
    let es = kept start k ios in
    let (r, ran, got) = get_all-runs start k rest ios pos rest_lt small words lt fits in
    let many : length es ≡ length ios - (length ios - k) =
      length-drop (length ios - k) (map (entry_of start) ios)
      ∙ ap (λ n. n - (length ios - k)) (length-map_entry start ios) in
    let (result, read) =
      outcome-flushed r es p (AllFit-drop (length ios - k) _ (AllFit-map start ios words))
        (omega (arith, many)) in
    (
      r,
      outcome (flushed r es p),
      ran,
      flush_normal_lem r es p got (omega (arith, many)),
      result,
      read,
    )
