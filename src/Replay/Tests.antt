-- ===== src/Replay/Tests.antt =====
-- Two recorded requests in a buffer for two of them, three in the same buffer, and an insertion sort.
use htkis_hyper_disk.Base.{
  ℕ, zero, suc, ◌≤◌, ◌<◌, ◌≡◌, inl, refl, true, false, List, [], ◌∷◌, map, none, some, arith, leb,
  if◌then◌else◌, take, length, get_elem?,
}
use htkis_hyper_disk.Replay.{ReplayEntry, ReplayRing, Io, entry_of, get_all_entries}
use htkis_hyper_disk.Replay.File.{Place, file_buf, read_entries}
use htkis_hyper_disk.Replay.File.Laws.{read_entries-file_buf}
use htkis_hyper_disk.Replay.Step.{IsWord, AllWords, IsWord-Fits, run, recording}
use htkis_hyper_disk.Replay.Recent.{get_all-overrun}
use htkis_hyper_disk.Replay.Recorder.{Outcome, flush_normal}
use htkis_hyper_disk.Replay.Recorder.Session.{read_entries-flush_normal}
use htkis_hyper_disk.Replay.Report.{parse}
use htkis_hyper_disk.Replay.Report.Counts.{Summary, parse-Summary}
use htkis_hyper_disk.Replay.Perf.{
  PerfStage, analyze_perf, Ascending, Ordered, counted, early_entries, analyze_perf-Ordered,
}
use htkis_hyper_disk.Replay.Train.{freq_in, count_all, reads, rows, count_all-reads}

abbrev request : ℕ → ℕ → Io
request lba status = record {
  lba = lba;
  offset = 4096;
  size = 512;
  latency_us = 250;
  status = status;
  reserved = 0;
  now = 7000000;
}

request-IsWord : (lba status : ℕ) → lba < 256 → status < 256 → IsWord (request lba status)
request-IsWord lba status h k = record {
  lba_lt = omega arith;
  offset_lt = omega arith;
  size_lt = omega arith;
  latency_lt = omega arith;
  status_lt = omega arith;
  reserved_lt = omega arith;
}

abbrev two : List Io
two = request 7 0 ∷ request 9 1 ∷ []

abbrev three : List Io
three = request 5 2 ∷ two

two-AllWords : AllWords two
two-AllWords = (
  request-IsWord 7 0 (omega arith) (omega arith),
  (request-IsWord 9 1 (omega arith) (omega arith), tt),
)

-- a file that is written whole, and one that is cut off in its second entry
abbrev whole : Place
whole = record { spare = 2; opens = true; written = λ n. n }

abbrev cut : Place
cut = record { spare = 16; opens = true; written = λ n. 60 }

read_entries-flush_normal_example :
    (r : ReplayRing) × (o : Outcome) × (run two (recording 70 1000000) ≡ some r)
    × (flush_normal (record { ring = r; flushed = false }) whole ≡ some o)
    × (o.result ≡ true)
    × (read_entries o.file ≡ map (entry_of 1000000) two)
read_entries-flush_normal_example =
    read_entries-flush_normal 1000000 2 4 two whole (omega arith) (omega arith) (omega arith)
      two-AllWords (omega arith) (omega arith) (inl (omega arith))

cut_off :
    (r : ReplayRing) × (o : Outcome) × (run two (recording 70 1000000) ≡ some r)
    × (flush_normal (record { ring = r; flushed = false }) cut ≡ some o)
    × (o.result ≡ true)
    × (read_entries o.file ≡ entry_of 1000000 (request 7 0) ∷ [])
cut_off =
    read_entries-flush_normal 1000000 2 4 two cut (omega arith) (omega arith) (omega arith)
      two-AllWords (omega arith) (omega arith) (inl (omega arith))

get_all-overrun_example :
    (r : ReplayRing) × (run three (recording 70 1000000) ≡ some r) × (get_all_entries r ≡ none)
get_all-overrun_example =
    get_all-overrun 1000000 2 4 three (omega arith) (omega arith) (omega arith)
      (request-IsWord 5 2 (omega arith) (omega arith), two-AllWords) (omega arith) (omega arith)
      (omega arith)

abbrev entries : List ReplayEntry
entries = map (entry_of 1000000) two

read_entries-file_buf_example :
    read_entries (some (take 56 (file_buf entries))) ≡ entry_of 1000000 (request 7 0) ∷ []
read_entries-file_buf_example =
    read_entries-file_buf entries 40
      (IsWord-Fits 1000000 _ two-AllWords.0, (IsWord-Fits 1000000 _ two-AllWords.1.0, tt))
      (omega arith)

parse-Summary_example : Summary entries (parse entries)
parse-Summary_example =
    parse-Summary (entry_of 1000000 (request 7 0)) (entry_of 1000000 (request 9 1) ∷ [])
      (omega arith) (omega arith)

abbrev insert : ℕ → List ℕ → List ℕ
insert x [] = x ∷ []
insert x (y ∷ ys) = if leb x y then x ∷ y ∷ ys else y ∷ insert x ys

abbrev sort : List ℕ → List ℕ
sort [] = []
sort (x ∷ xs) = insert x (sort xs)

length-insert : (x : ℕ) (l : List ℕ) → length (insert x l) ≡ suc (length l)
length-insert x [] = refl
length-insert x (y ∷ ys) = ground (arith, length-insert x ys)

length-sort : (l : List ℕ) → length (sort l) ≡ length l
length-sort [] = refl
length-sort (x ∷ xs) = omega (arith, length-insert x (sort xs), length-sort xs)

abbrev Below : ℕ → List ℕ → Type 0
Below x [] = Unit
Below x (y ∷ ys) = (x ≤ y) × Below x ys

abbrev IsSorted : List ℕ → Type 0
IsSorted [] = Unit
IsSorted (x ∷ xs) = Below x xs × IsSorted xs

Below-le : (x y : ℕ) (l : List ℕ) → x ≤ y → Below y l → Below x l
Below-le x y [] h b = tt
Below-le x y (z ∷ zs) h b = (omega (arith, b.0), Below-le x y zs h b.1)

Below-insert : (z x : ℕ) (l : List ℕ) → z ≤ x → Below z l → Below z (insert x l)
Below-insert z x [] h b = (h, tt)
Below-insert z x (y ∷ ys) h b = ground (arith, h, b.0, b.1, Below-insert z x ys h b.1)

insert-IsSorted : (x : ℕ) (l : List ℕ) → IsSorted l → IsSorted (insert x l)
insert-IsSorted x [] s = (tt, tt)
insert-IsSorted x (y ∷ ys) s = ground (
  arith,
  s.0,
  s.1,
  insert-IsSorted x ys s.1,
  λ (h : x ≤ y). Below-le x y ys h s.0,
  λ (h : y ≤ x). Below-insert y x ys h s.0,
)

sort-IsSorted : (l : List ℕ) → IsSorted (sort l)
sort-IsSorted [] = tt
sort-IsSorted (x ∷ xs) = insert-IsSorted x (sort xs) (sort-IsSorted xs)

Below-get : (x : ℕ) (l : List ℕ) (j y : ℕ) → Below x l → get_elem? l j ≡ some y → x ≤ y
Below-get x [] j y b e = cc
Below-get x (z ∷ zs) zero y b e = ground (arith, b.0)
Below-get x (z ∷ zs) (suc j) y b e = Below-get x zs j y b.1 e

IsSorted-Ascending : (l : List ℕ) → IsSorted l → Ascending l
IsSorted-Ascending [] s i j x y h p q = cc
IsSorted-Ascending (z ∷ zs) s zero zero x y h p q = ground (arith, p, q)
IsSorted-Ascending (z ∷ zs) s zero (suc j) x y h p q = ground (arith, p, Below-get z zs j y s.0 q)
IsSorted-Ascending (z ∷ zs) s (suc i) zero x y h p q = absurd (omega arith)
IsSorted-Ascending (z ∷ zs) s (suc i) (suc j) x y h p q =
    IsSorted-Ascending zs s.1 i j x y (omega arith) p q

analyze_perf-Ordered_example :
    (stages : List PerfStage) × (analyze_perf sort entries ≡ some stages)
    × Ordered stages
    × (counted stages ≡ early_entries entries)
analyze_perf-Ordered_example =
    analyze_perf-Ordered sort entries length-sort
      (λ l. IsSorted-Ascending (sort l) (sort-IsSorted l)) (omega arith)

count_all-reads_example :
    (freq_in 7 (count_all [] entries) ≡ reads 7 entries) × (rows 7 (count_all [] entries) ≤ 1)
count_all-reads_example = count_all-reads entries 7 (omega arith)
