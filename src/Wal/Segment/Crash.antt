-- ===== src/Wal/Segment/Crash.antt =====
-- What is read of a segment file after a crash in a write.
use mathlib.Core.List.{append-nil, append_assoc}
use htkis_hyper_disk.Base.{
  Option, none, false, drop, ℕ, ◌≡◌, ◌<◌, refl, sym, ap, ◌∙◌, Bool, List, [], ◌∷◌, ◌++◌, some, take,
  length, arith, map, take_all,
}
use htkis_hyper_disk.Wal.Entry.{entry_size}
use htkis_hyper_disk.Wal.Segment.{
  read_open, seal, Io, Disk, WalSegment, open_segment, write_entry, read_all_entries, well,
}
use htkis_hyper_disk.Wal.Segment.Laws.{
  Fits, built, stored, length-built, entries, entries-built, entries-cut, entries-nil,
}
use htkis_hyper_disk.Wal.Segment.Writes.{
  write_entry-start, AtEnd, log, write_entry-Added, write_all, write_all-Added,
}

-- What an open segment reads as, when it knows the size of its file.
pub read_all-whole :
    (d : Disk) (s : WalSegment) (n : ℕ)
    → s.fd ≡ some n
    → s.file_size ≡ length (d s.path)
    → (read_all_entries well d s).0 ≡ entries (d s.path)
unfolding read_all_entries read_open
read_all-whole d s n fd size =
    ap (λ f. (read_open well d s f).0) fd
    ∙ ap (λ k. entries (take k (d s.path))) size
    ∙ ap entries (take_all (length (d s.path)) (d s.path) refl)

read_open-seal :
    (d : Disk) (s : WalSegment) (fd : Option ℕ)
    → (read_open well d (seal s) fd).0 ≡ (read_open well d s fd).0
unfolding read_open
read_open-seal d s none = refl
read_open-seal d s (some pos) = refl

-- Sealing changes nothing that is read.
pub read_all-seal :
    (d : Disk) (s : WalSegment)
    → (read_all_entries well d (seal s)).0 ≡ (read_all_entries well d s).0
unfolding read_all_entries
read_all-seal d s = read_open-seal d s s.fd

pub data AllFit : List (ℕ × List ℕ) → Type 0 where
  nil : AllFit []
  cons : {r : ℕ × List ℕ} {rs : List (ℕ × List ℕ)} → Fits r → AllFit rs → AllFit (r ∷ rs)

pub entries-log :
    (rs : List (ℕ × List ℕ)) (tail : List ℕ)
    → AllFit rs
    → entries (log rs ++ tail) ≡ map stored rs ++ entries tail
entries-log [] tail nil = refl
entries-log (r ∷ rs) tail (cons v vs) =
    ap entries (append_assoc (built r) (log rs) tail)
    ∙ entries-built r (log rs ++ tail) v
    ∙ ap (λ t. stored r ∷ t) (entries-log rs tail vs)

pub entries-log_all : (rs : List (ℕ × List ℕ)) → AllFit rs → entries (log rs) ≡ map stored rs
entries-log_all rs v =
    ap entries (sym (append-nil (log rs)))
    ∙ entries-log rs [] v
    ∙ ap (λ l. map stored rs ++ l) entries-nil
    ∙ append-nil (map stored rs)

-- Records are written to an empty segment file in full, and of one more record the system writes only
-- the first n bytes, fewer than the entry has without its padding. When the file is opened again then,
-- for reading or for writing, ReadAllEntries gives exactly the entries of the records written in full,
-- in their order.
pub read_all-crash :
    (d : Disk) (s : WalSegment) (rs : List (ℕ × List ℕ)) (last : ℕ × List ℕ) (io : Io) (n start : ℕ)
    (read_only : Bool)
    → AtEnd d s
    → d s.path ≡ []
    → AllFit rs
    → Fits last
    → io.written (length (built last)) ≡ some n
    → n < entry_size (length last.1)
    → let before = write_all d s rs in
      let after = write_entry io before.disk before.segment last.0 (some last.1) (length last.1) in
      (read_all_entries well after.disk (open_segment well after.disk s.path start read_only)).0
      ≡ map stored rs
unfolding read_all_entries read_open
read_all-crash d s rs last io n start read_only at_end empty fit last_fits answer short =
    let b = write_all-Added d s rs at_end in
    let before = write_all d s rs in
    let e =
      write_entry-Added io before.disk before.segment last n b.at_end answer
        (omega (arith, short, length-built last)) in
    let after = write_entry io before.disk before.segment last.0 (some last.1) (length last.1) in
    let file =
      ap after.disk (sym b.same_path)
      ∙ e.file
      ∙ ap (λ k. before.disk k ++ take n (built last)) b.same_path
      ∙ ap (λ l. l ++ take n (built last)) (b.file ∙ ap (λ l. l ++ log rs) empty) in
    ap entries (take_all (length (after.disk s.path)) (after.disk s.path) refl ∙ file)
    ∙ entries-log rs (take n (built last)) fit
    ∙ ap (λ l. map stored rs ++ l) (entries-cut last n last_fits short)
    ∙ append-nil (map stored rs)

-- The first write after a segment file is opened again does not add to it: it overwrites the entries
-- at its start, and what is read then is the new record and what the old bytes behind it still show.
pub write_entry-reopened :
    (d : Disk) (path start : ℕ) (r : ℕ × List ℕ)
    → Fits r
    → let w =
        write_entry well d (open_segment well d path start false) r.0 (some r.1) (length r.1) in
      entries (w.disk path) ≡ stored r ∷ entries (drop (length (built r)) (d path))
write_entry-reopened d path start r v =
    ap entries (write_entry-start d path start r)
    ∙ entries-built r (drop (length (built r)) (d path)) v
