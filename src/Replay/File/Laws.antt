-- ===== src/Replay/File/Laws.antt =====
-- What is read of a file of recorded requests, also of one that was cut off.
use mathlib.Core.List.{append_assoc}
use native.Mathlib.Decide.{dec_lt}
use native.Mathlib.Nat.{mod-eq_of_lt}
use htkis_hyper_disk.Base.{
  ℕ, zero, suc, ◌+◌, ◌-◌, ◌*◌, ◌/◌, ◌≤◌, ◌<◌, ◌≡◌, refl, sym, ap, ◌∙◌, true, false, List, [], ◌∷◌,
  ◌++◌, Option, none, some, arith, ltb, if◌then◌else◌, take, drop, length, length-take,
  length-append, u32, to_le, from_le, from_le-to_le,
}
use htkis_hyper_disk.BootDiag.Gpt.{compute_crc32c}
use htkis_hyper_disk.Replay.{
  ReplayEntry, entry_memory, load_entry, ReplayRing, stop_recording, get_all_entries,
}
use htkis_hyper_disk.Replay.Slots.{take-append_len, drop-append_len, take-append_past}
use htkis_hyper_disk.Replay.Ring.{Fits, load_entry-entry_memory}
use htkis_hyper_disk.Replay.File.{
  header_buf, entries_memory, file_buf, Place, Flushed, flush_entries, flush_to_file, read_loop,
  read_entries,
}

abbrev pub AllFit : List ReplayEntry → Type 0
AllFit [] = Unit
AllFit (e ∷ es) = Fits e × AllFit es

take-nil {ℓ} : {A : Type ℓ} (n : ℕ) → take {A = A} n [] ≡ []
take-nil zero = refl
take-nil (suc n) = refl

read_loop-nil : (bytes : List ℕ) → read_loop 0 bytes ≡ []
unfolding read_loop
read_loop-nil bytes = refl

read_loop-short : (n : ℕ) (bytes : List ℕ) → length bytes < 33 → read_loop n bytes ≡ []
unfolding read_loop
read_loop-short zero bytes h = refl
read_loop-short (suc n) bytes h = ground (arith, h)

read_loop-step :
    (n : ℕ) (x bytes : List ℕ)
    → length x ≡ 33
    → read_loop (suc n) (x ++ bytes) ≡ load_entry x ∷ read_loop n bytes
unfolding read_loop
read_loop-step n x bytes h =
    ap
      (λ c.
        if c then [] else (load_entry (take 33 (x ++ bytes)) ∷ read_loop n (drop 33 (x ++ bytes))))
      (long (length (x ++ bytes)) (omega (arith, length-append x bytes)))
    ∙ ap (λ y. load_entry y ∷ read_loop n (drop 33 (x ++ bytes))) (take-append_len 33 x bytes h)
    ∙ ap (λ y. load_entry x ∷ read_loop n y) (drop-append_len 33 x bytes h)
  where
    long : (n : ℕ) → 33 ≤ n → ltb n 33 ≡ false
    long n h = ground (arith, h)

-- the loop reads the entries that lie wholly in the first j bytes
read_loop-take :
    (es : List ReplayEntry) (rest : List ℕ) (j : ℕ)
    → AllFit es
    → read_loop (length es) (take j (entries_memory es ++ rest)) ≡ take (j / 33) es
read_loop-take [] rest j v = read_loop-nil (take j rest) ∙ sym (take-nil (j / 33))
read_loop-take (e ∷ es) rest j v = elim (dec_lt j 33) [
  | yes lt ↦
      let none_whole : 0 ≡ j / 33 = omega arith in
      read_loop-short _ _ (omega (arith, length-take j (entries_memory (e ∷ es) ++ rest)))
      ∙ ap (λ k. take k (e ∷ es)) none_whole
  | no ge ↦
      let one_more : suc ((j - 33) / 33) ≡ j / 33 = omega arith in
      ap (λ l. read_loop (suc (length es)) (take j l))
        (append_assoc (entry_memory e) (entries_memory es) rest)
      ∙ ap (read_loop (suc (length es)))
          (take-append_past j (j - 33) (entry_memory e) (entries_memory es ++ rest) (omega arith))
      ∙ read_loop-step (length es) (entry_memory e) (take (j - 33) (entries_memory es ++ rest)) refl
      ∙ ap (λ x. x ∷ read_loop (length es) (take (j - 33) (entries_memory es ++ rest)))
          (load_entry-entry_memory e v.0)
      ∙ ap (λ l. e ∷ l) (read_loop-take es rest (j - 33) v.1)
      ∙ ap (λ k. take k (e ∷ es)) one_more
]

length-header_buf : (n : ℕ) → length (header_buf n) ≡ 16
unfolding header_buf
length-header_buf n = refl

-- what ReadEntries makes of the header that FlushToFile writes
read_entries-header :
    (n : ℕ) (bytes : List ℕ) → read_entries (some (header_buf n ++ bytes)) ≡ read_loop (u32 n) bytes
unfolding read_entries header_buf
read_entries-header n bytes =
    ap (λ c. if c then [] else read_loop (from_le (to_le 4 (u32 n))) bytes)
      (long (length (header_buf n ++ bytes))
        (omega (arith, length-append (header_buf n) bytes, length-header_buf n)))
    ∙ ap (λ c. read_loop c bytes) (from_le-to_le 4 (u32 n) (omega arith))
  where
    long : (n : ℕ) → 16 ≤ n → ltb n 16 ≡ false
    long n h = ground (arith, h)

-- A file of fewer than 2 ^ 32 entries, whose fields fit their widths, is cut off behind the header and
-- j bytes more. Then ReadEntries gives exactly the entries that lie wholly in these j bytes, in order:
-- the first j / 33 of them, which are all if the file is not cut.
pub read_entries-file_buf :
    (es : List ReplayEntry) (j : ℕ)
    → AllFit es
    → length es < 4294967296
    → read_entries (some (take (16 + j) (file_buf es))) ≡ take (j / 33) es
unfolding file_buf
read_entries-file_buf es j v lt =
    ap (λ l. read_entries (some (take (16 + j) l)))
      (append_assoc (header_buf (length es)) (entries_memory es) footer)
    ∙ ap (λ l. read_entries (some l))
        (take-append_past (16 + j) j (header_buf (length es)) (entries_memory es ++ footer)
          (omega (arith, length-header_buf (length es))))
    ∙ read_entries-header (length es) (take j (entries_memory es ++ footer))
    ∙ ap (λ n. read_loop n (take j (entries_memory es ++ footer))) (mod-eq_of_lt lt)
    ∙ read_loop-take es footer j v
  where
    footer : List ℕ
    footer =
        to_le 4 (compute_crc32c (header_buf (length es) ++ entries_memory es)) ++ to_le 4 1212438598

length-entries_memory : (es : List ReplayEntry) → length (entries_memory es) ≡ 33 * length es
length-entries_memory [] = refl
length-entries_memory (e ∷ es) =
    omega (arith, length-append (entry_memory e) (entries_memory es), length-entries_memory es)

pub length-file_buf : (es : List ReplayEntry) → length (file_buf es) ≡ 16 + (33 * length es + 8)
unfolding file_buf
length-file_buf es = omega (
  arith,
  length-append (header_buf (length es) ++ entries_memory es) footer,
  length-append (header_buf (length es)) (entries_memory es),
  length-entries_memory es,
  length-header_buf (length es),
)
  where
    footer : List ℕ
    footer =
        to_le 4 (compute_crc32c (header_buf (length es) ++ entries_memory es)) ++ to_le 4 1212438598

read_entries-short : (bytes : List ℕ) → length bytes < 16 → read_entries (some bytes) ≡ []
unfolding read_entries
read_entries-short bytes h = ground (arith, h)

pub read_entries-none : read_entries none ≡ []
unfolding read_entries
read_entries-none = refl

-- the same with the length written out: of a file's first n bytes, (n - 16) / 33 entries are read
pub read_entries-cut :
    (es : List ReplayEntry) (n : ℕ)
    → AllFit es
    → length es < 4294967296
    → read_entries (some (take n (file_buf es))) ≡ take ((n - 16) / 33) es
read_entries-cut es n v lt = elim (dec_lt n 16) [
  | yes short ↦
      let none_whole : 0 ≡ (n - 16) / 33 = omega arith in
      read_entries-short (take n (file_buf es)) (omega (arith, length-take n (file_buf es)))
      ∙ ap (λ k. take k es) none_whole
  | no long ↦
      let split : n ≡ 16 + (n - 16) = omega arith in
      ap (λ k. read_entries (some (take k (file_buf es)))) split
      ∙ read_entries-file_buf es (n - 16) v lt
]

get_all_entries-stop_recording :
    (r : ReplayRing) → get_all_entries (stop_recording r) ≡ get_all_entries r
unfolding get_all_entries stop_recording
get_all_entries-stop_recording r = refl

flush_to_file-entries :
    (r : ReplayRing) (es : List ReplayEntry) (p : Place)
    → get_all_entries r ≡ some es
    → flush_to_file r p ≡ flush_entries (stop_recording r) es p
unfolding flush_to_file
flush_to_file-entries r es p got = ap flush (get_all_entries-stop_recording r ∙ got)
  where
    flush : Option (List ReplayEntry) → Option Flushed
    flush o = elim o [ none ↦ none | some es ↦ flush_entries (stop_recording r) es p ]

-- what a flush of entries leaves when it writes over nothing
abbrev pub flushed : ReplayRing → List ReplayEntry → Place → Flushed
flushed r es p =
    if p.opens
    then record {
      ring = stop_recording r;
      result = true;
      file = some (take (p.written (length (file_buf es))) (file_buf es));
    }
    else record { ring = stop_recording r; result = false; file = none }

pub flush_to_file_lem :
    (r : ReplayRing) (es : List ReplayEntry) (p : Place)
    → get_all_entries r ≡ some es
    → 0 < length es
    → flush_to_file r p ≡ (if ltb p.spare 2 then none else some (flushed r es p))
unfolding flush_entries
flush_to_file_lem r [] p got pos = absurd (omega arith)
flush_to_file_lem r (e ∷ es) p got pos =
    flush_to_file-entries r (e ∷ es) p got
    ∙ ap (λ c. if c then none else some (flushed r (e ∷ es) p)) same
  where
    same : ltb (16 + p.spare) 18 ≡ ltb p.spare 2
    same = ground arith
