-- ===== src/Wal/Manager/Chain.antt =====
-- The log as a chain of segments: what the sealed ones and the active one hold after any writes.
use mathlib.Core.List.{append-nil, append_assoc, map-append}
use htkis_hyper_disk.Base.{
  ℕ, ◌+◌, ◌≡◌, ◌<◌, ◌≤◌, refl, sym, ap, ◌∙◌, true, false, List, [], ◌∷◌, ◌++◌, Option, some, length,
  arith, map,
}
use htkis_hyper_disk.Wal.Segment.{
  Disk, put_file, WalSegment, open_segment, seal, read_all_entries, well,
}
use htkis_hyper_disk.Wal.Segment.Laws.{Fits, built, stored, entries}
use htkis_hyper_disk.Wal.Segment.Writes.{AtEnd, log, put_file_self, put_file_other}
use htkis_hyper_disk.Wal.Segment.Crash.{
  read_all-whole, read_all-seal, AllFit, nil, cons, entries-log_all,
}
use htkis_hyper_disk.Wal.Manager.{WalManager, read_each}

-- an open manager whose active segment has the current number
abbrev pub chain : Disk → Option ℕ → ℕ → List WalSegment → WalSegment → WalManager
chain d checkpoint seq olds s = record {
  disk = d;
  checkpoint = checkpoint;
  next_seq_id = seq;
  active_segment = some s;
  sealed_segments = olds;
  next_segment_number = s.path;
  is_open = true;
}

-- The sealed segments read as `before`, whatever is written to the active one and to later ones; the
-- active one holds `after`, and the files behind it are empty.
pub record Chain (d : Disk) (olds : List WalSegment) (s : WalSegment)
    (before after : List (ℕ × List ℕ)) : Type 0 where
  pub at_end : AtEnd d s
  pub size : s.file_size ≡ length (d s.path)
  pub file : d s.path ≡ log after
  pub fit : AllFit after
  pub fresh : (k : ℕ) → s.path < k → d k ≡ []
  pub sealed_read :
      (e : Disk)
      → ((k : ℕ) → k < s.path → e k ≡ d k)
      → (read_each well e olds).0 ≡ map stored before

log-snoc : (rs : List (ℕ × List ℕ)) (r : ℕ × List ℕ) → log (rs ++ (r ∷ [])) ≡ log rs ++ built r
log-snoc [] r = append-nil (built r)
log-snoc (x ∷ rs) r =
    ap (λ l. built x ++ l) (log-snoc rs r) ∙ sym (append_assoc (built x) (log rs) (built r))

AllFit-snoc :
    (rs : List (ℕ × List ℕ)) (r : ℕ × List ℕ) → AllFit rs → Fits r → AllFit (rs ++ (r ∷ []))
AllFit-snoc [] r nil f = cons f nil
AllFit-snoc (x ∷ rs) r (cons g fs) f = cons g (AllFit-snoc rs r fs f)

read_each-append :
    (d : Disk) (ss ts : List WalSegment)
    → (read_each well d (ss ++ ts)).0 ≡ (read_each well d ss).0 ++ (read_each well d ts).0
read_each-append d [] ts = refl
read_each-append d (s ∷ ss) ts =
    ap (λ l. (read_all_entries well d s).0 ++ l) (read_each-append d ss ts)
    ∙ sym
        (append_assoc (read_all_entries well d s).0 (read_each well d ss).0 (read_each well d ts).0)

-- what the sealed segments and the active one read as together, on a disk that has the same files
pub Chain-entries :
    (d e : Disk) (olds : List WalSegment) (s : WalSegment) (before after : List (ℕ × List ℕ))
    → Chain d olds s before after
    → ((k : ℕ) → k ≤ s.path → e k ≡ d k)
    → (read_each well e olds).0 ++ (read_all_entries well e s).0 ≡ map stored (before ++ after)
Chain-entries d e olds s before after c same =
    ap (λ l. l ++ (read_all_entries well e s).0)
      (c.sealed_read e (λ k lt. same k (omega (arith, lt))))
    ∙ ap (λ l. map stored before ++ l)
        (read_all-whole e s (length (d s.path)) c.at_end.fd_end
            (c.size ∙ ap length (sym (same s.path (omega arith))))
          ∙ ap entries (same s.path (omega arith) ∙ c.file)
          ∙ entries-log_all after c.fit)
    ∙ sym (map-append stored before after)

-- What a write leaves of the chain.
pub append-Chain :
    (d : Disk) (olds : List WalSegment) (s t : WalSegment) (before after : List (ℕ × List ℕ))
    (r : ℕ × List ℕ)
    → Chain d olds s before after
    → Fits r
    → t.path ≡ s.path
    → AtEnd (put_file d s.path (d s.path ++ built r)) t
    → t.file_size ≡ length (d s.path ++ built r)
    → Chain (put_file d s.path (d s.path ++ built r)) olds t before (after ++ (r ∷ []))
append-Chain d olds s t before after r c f path at_end size =
    let written = d s.path ++ built r in
    let here = ap (put_file d s.path written) path ∙ put_file_self d s.path written in
    record {
      at_end = at_end;
      size = size ∙ ap length (sym here);
      file = here ∙ ap (λ l. l ++ built r) c.file ∙ sym (log-snoc after r);
      fit = AllFit-snoc after r c.fit f;
      fresh = λ k lt.
          put_file_other d s.path k written (λ e. omega (arith, e, lt, path))
          ∙ c.fresh k (omega (arith, lt, path));
      sealed_read = λ e same. c.sealed_read e (λ k lt.
          same k (omega (arith, lt, path))
          ∙ put_file_other d s.path k written (λ e. omega (arith, e, lt)));
    }

-- What a rollover leaves of the chain: the active segment is sealed and a new one is open.
pub rollover-Chain :
    (d : Disk) (olds : List WalSegment) (s : WalSegment) (before after : List (ℕ × List ℕ))
    (start : ℕ)
    → Chain d olds s before after
    → Chain d
        (olds ++ (seal s ∷ []))
        (open_segment well d (s.path + 1) start false)
        (before ++ after)
        []
rollover-Chain d olds s before after start c =
    let empty = c.fresh (s.path + 1) (omega arith) in
    record {
      at_end = record {
        fd_end = ap (λ l. some (length l)) (sym empty);
        unsealed = refl;
        writable = refl;
      };
      size = refl;
      file = empty;
      fit = nil;
      fresh = λ k lt. c.fresh k (omega (arith, lt));
      sealed_read = λ e same.
          read_each-append e olds (seal s ∷ [])
          ∙ ap (λ l. (read_each well e olds).0 ++ l)
              (append-nil (read_all_entries well e (seal s)).0 ∙ read_all-seal e s)
          ∙ Chain-entries d e olds s before after c (λ k le. same k (omega (arith, le)));
    }
