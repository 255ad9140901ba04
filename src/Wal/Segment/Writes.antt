-- ===== src/Wal/Segment/Writes.antt =====
-- What a write does to a segment file: in full, or cut short by the system.
use mathlib.Core.Path.{subst⁻¹}
use mathlib.Core.List.{append-nil, append_assoc}
use htkis_hyper_disk.Base.{
  ℕ, ◌+◌, ◌-◌, ◌≡◌, ◌<◌, ◌≤◌, ◌≢◌, refl, sym, ap, ◌∙◌, Bool, true, false, List, [], ◌∷◌, ◌++◌,
  Option, none, some, take, drop, length, arith, length-append, ◌==◌, ==_iff, replicate, u32, u64,
  if◌then◌else◌, ◌||◌, ==_ne, ==-false, drop-past, take_all, inl, inr, Bool-cases, length-take,
}
use htkis_hyper_disk.Wal.Segment.{
  Io, Disk, put_file, WalSegment, Written, open_segment, overwrite, put_bytes, write_open,
  write_entry, well,
}
use htkis_hyper_disk.Wal.Segment.Laws.{built}

-- An open segment that may be written and whose position is the end of its file.
pub record AtEnd (d : Disk) (s : WalSegment) : Type 0 where
  pub fd_end : s.fd ≡ some (length (d s.path))
  pub unsealed : s.is_sealed ≡ false
  pub writable : s.read_only ≡ false

pub put_file_self : (d : Disk) (k : ℕ) (b : List ℕ) → put_file d k b k ≡ b
put_file_self d k b = simp ((==_iff k k).1 refl) refl

pub put_file_other : (d : Disk) (k j : ℕ) (b : List ℕ) → j ≢ k → put_file d k b j ≡ d j
put_file_other d k j b ne = elim (Bool-cases (j == k)) [
  | inl e ↦ absurd (ne ((==_iff j k).0 e))
  | inr e ↦ simp e refl
]

overwrite_end : (file chunk : List ℕ) → overwrite file (length file) chunk ≡ file ++ chunk
overwrite_end file chunk =
    ap (λ l. l ++ gap (length file - length file)) (take_all (length file) file refl)
    ∙ ap (λ n. file ++ gap n) none_missing
    ∙ ap (λ l. file ++ (chunk ++ l)) (drop-past (length file + length chunk) file (omega arith))
    ∙ ap (λ l. file ++ l) (append-nil chunk)
  where
    gap : ℕ → List ℕ
    gap n = replicate n 0 ++ (chunk ++ drop (length file + length chunk) file)

    none_missing : length file - length file ≡ 0
    none_missing = omega arith

put_bytes-end :
    (d : Disk) (s : WalSegment) (seq : ℕ) (buf : List ℕ) (n : ℕ)
    → n < length buf
    → put_bytes d s (length (d s.path)) seq buf n ≡ record {
      segment = record s { fd = some (length (d s.path) + n) };
      disk = put_file d s.path (d s.path ++ take n buf);
      result = false;
    }
unfolding put_bytes
put_bytes-end d s seq buf n short = simp (==_ne n (length buf) (omega (arith, short))) (
    ap
      (λ b. record {
        segment = record s { fd = some (length (d s.path) + n) };
        disk = put_file d s.path b;
        result = false;
      })
      (overwrite_end (d s.path) (take n buf)))

pub put_bytes-all :
    (d : Disk) (s : WalSegment) (seq : ℕ) (buf : List ℕ)
    → put_bytes d s (length (d s.path)) seq buf (length buf) ≡ record {
      segment = record s {
        fd = some (length (d s.path) + length buf);
        last_seq_id = seq;
        entry_count = u32 (s.entry_count + 1);
        file_size = u64 (s.file_size + length buf);
      };
      disk = put_file d s.path (d s.path ++ buf);
      result = true;
    }
unfolding put_bytes
put_bytes-all d s seq buf = simp ((==_iff (length buf) (length buf)).1 refl) (
    ap
      (λ b. record {
        segment = record s {
          fd = some (length (d s.path) + length buf);
          last_seq_id = seq;
          entry_count = u32 (s.entry_count + 1);
          file_size = u64 (s.file_size + length buf);
        };
        disk = put_file d s.path b;
        result = true;
      })
      (ap (overwrite (d s.path) (length (d s.path))) (take_all (length buf) buf refl)
        ∙ overwrite_end (d s.path) buf))

-- A write of an entry at the end of a file of which the system does the first n bytes.
pub write_entry-end :
    (io : Io) (d : Disk) (s : WalSegment) (r : ℕ × List ℕ) (n : ℕ)
    → AtEnd d s
    → io.written (length (built r)) ≡ some n
    → write_entry io d s r.0 (some r.1) (length r.1)
      ≡ put_bytes d s (length (d s.path)) r.0 (built r) n
unfolding write_entry write_open
write_entry-end io d s r n at_end answer =
    ap (λ x. if x || s.read_only then refused else opened s.fd) at_end.unsealed
    ∙ ap (λ x. if x then refused else opened s.fd) at_end.writable
    ∙ ap opened at_end.fd_end
    ∙ ap
        (λ a. elim a [
          | none ↦ refused
          | some k ↦ put_bytes d s (length (d s.path)) r.0 (built r) k
        ])
        answer
  where
    refused : Written
    refused = record { segment = s; disk = d; result = false }

    opened : Option ℕ → Written
    opened = write_open io d s r.0 (built r)

-- The first write after a file is opened.
pub write_entry-start :
    (d : Disk) (path start : ℕ) (r : ℕ × List ℕ)
    → (write_entry well d (open_segment well d path start false) r.0 (some r.1) (length r.1)).disk
        path
      ≡ built r ++ drop (length (built r)) (d path)
unfolding write_entry write_open put_bytes
write_entry-start d path start r = simp ((==_iff (length (built r)) (length (built r))).1 refl) (
    put_file_self d path (overwrite (d path) 0 (take (length (built r)) (built r)))
    ∙ no_gap
    ∙ ap (λ b. b ++ drop (length b) (d path)) (take_all (length (built r)) (built r) refl))
  where
    chunk : List ℕ
    chunk = take (length (built r)) (built r)

    none_missing : 0 - length (d path) ≡ 0
    none_missing = omega arith

    behind : 0 + length chunk ≡ length chunk
    behind = omega arith

    no_gap : overwrite (d path) 0 chunk ≡ chunk ++ drop (length chunk) (d path)
    no_gap =
        ap (λ n. replicate n 0 ++ (chunk ++ drop (0 + length chunk) (d path))) none_missing
        ∙ ap (λ n. chunk ++ drop n (d path)) behind

-- A write of an entry at the end of a file that the system does in full.
pub write_entry-full :
    (d : Disk) (s : WalSegment) (r : ℕ × List ℕ)
    → AtEnd d s
    → write_entry well d s r.0 (some r.1) (length r.1) ≡ record {
      segment = record s {
        fd = some (length (d s.path) + length (built r));
        last_seq_id = r.0;
        entry_count = u32 (s.entry_count + 1);
        file_size = u64 (s.file_size + length (built r));
      };
      disk = put_file d s.path (d s.path ++ built r);
      result = true;
    }
write_entry-full d s r at_end =
    write_entry-end well d s r (length (built r)) at_end refl ∙ put_bytes-all d s r.0 (built r)

-- What a write has done: `bytes` are added to the file, and the position is its end again.
pub record Added (d : Disk) (s : WalSegment) (bytes : List ℕ) (w : Written) : Type 0 where
  pub at_end : AtEnd w.disk w.segment
  pub file : w.disk s.path ≡ d s.path ++ bytes
  pub same_path : w.segment.path ≡ s.path

pub Added-record :
    (d : Disk) (s t : WalSegment) (bytes : List ℕ) (result : Bool)
    → t.fd ≡ some (length (d s.path) + length bytes)
    → t.is_sealed ≡ false
    → t.read_only ≡ false
    → t.path ≡ s.path
    → Added d s bytes
        (record { segment = t; disk = put_file d s.path (d s.path ++ bytes); result = result })
Added-record d s t bytes result fd unsealed writable path =
    let file = put_file_self d s.path (d s.path ++ bytes) in
    let len =
      sym (length-append (d s.path) bytes)
      ∙ ap length (sym file)
      ∙ ap (λ k. length (put_file d s.path (d s.path ++ bytes) k)) (sym path) in
    record {
      at_end = record { fd_end = fd ∙ ap some len; unsealed = unsealed; writable = writable };
      file = file;
      same_path = path;
    }

-- A write of which the system does the first n bytes, all of them or fewer.
pub write_entry-Added :
    (io : Io) (d : Disk) (s : WalSegment) (r : ℕ × List ℕ) (n : ℕ)
    → AtEnd d s
    → io.written (length (built r)) ≡ some n
    → n ≤ length (built r)
    → Added d s (take n (built r)) (write_entry io d s r.0 (some r.1) (length r.1))
write_entry-Added io d s r n at_end answer le = elim (Bool-cases (n == length (built r))) [
  | inl e ↦
      let all = (==_iff n (length (built r))).0 e in
      subst⁻¹ (λ w. Added d s (take n (built r)) w)
        (write_entry-end io d s r n at_end answer
          ∙ ap (put_bytes d s (length (d s.path)) r.0 (built r)) all
          ∙ put_bytes-all d s r.0 (built r))
        (subst⁻¹
          (λ l. Added d s l (record {
            segment = record s {
              fd = some (length (d s.path) + length (built r));
              last_seq_id = r.0;
              entry_count = u32 (s.entry_count + 1);
              file_size = u64 (s.file_size + length (built r));
            };
            disk = put_file d s.path (d s.path ++ built r);
            result = true;
          }))
          (take_all n (built r) (sym all))
          (Added-record d s _ (built r) true refl at_end.unsealed at_end.writable refl))
  | inr e ↦
      subst⁻¹ (λ w. Added d s (take n (built r)) w)
        (write_entry-end io d s r n at_end answer
          ∙ put_bytes-end d s r.0 (built r) n (omega (arith, le, ==-false n (length (built r)) e)))
        (Added-record d s _ (take n (built r)) false
          (ap (λ k. some (length (d s.path) + k)) (omega (arith, le, length-take n (built r))))
          at_end.unsealed at_end.writable refl)
]

abbrev pub log : List (ℕ × List ℕ) → List ℕ
log [] = []
log (r ∷ rs) = built r ++ log rs

-- a run of writes that the system does in full
pub write_all : Disk → WalSegment → List (ℕ × List ℕ) → Written
write_all d s [] = record { segment = s; disk = d; result = true }
write_all d s (r ∷ rs) =
    let w = write_entry well d s r.0 (some r.1) (length r.1) in write_all w.disk w.segment rs

pub write_all-Added :
    (d : Disk) (s : WalSegment) (rs : List (ℕ × List ℕ))
    → AtEnd d s
    → Added d s (log rs) (write_all d s rs)
unfolding write_all
write_all-Added d s [] at_end = record {
  at_end = at_end;
  file = sym (append-nil (d s.path));
  same_path = refl;
}
write_all-Added d s (r ∷ rs) at_end =
    let w = write_entry well d s r.0 (some r.1) (length r.1) in
    let one = write_entry-Added well d s r (length (built r)) at_end refl (omega arith) in
    let more = write_all-Added w.disk w.segment rs one.at_end in
    record {
      at_end = more.at_end;
      file =
          ap (λ k. (write_all w.disk w.segment rs).disk k) (sym one.same_path)
          ∙ more.file
          ∙ ap (λ k. w.disk k ++ log rs) one.same_path
          ∙ ap (λ l. l ++ log rs)
              (one.file ∙ ap (λ l. d s.path ++ l) (take_all (length (built r)) (built r) refl))
          ∙ append_assoc (d s.path) (built r) (log rs);
      same_path = more.same_path ∙ one.same_path;
    }
