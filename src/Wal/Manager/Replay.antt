-- ===== src/Wal/Manager/Replay.antt =====
-- What the log holds after any run of WriteEntry, and the checkpoint that CrashReplay leaves.
use mathlib.Core.List.{append-nil, append_assoc}
use htkis_hyper_disk.Base.{
  ℕ, ◌+◌, ◌≡◌, ◌<◌, refl, sym, ap, ◌∙◌, false, List, [], ◌∷◌, ◌++◌, Option, none, some, length,
  arith, map, ltb, leb, if◌then◌else◌, u64, sub64, bound,
}
use htkis_hyper_disk.Wal.Entry.{Entry}
use htkis_hyper_disk.Wal.Entry.Laws.{seq_id-entry_of}
use htkis_hyper_disk.Wal.Segment.{Disk, open_segment, well}
use htkis_hyper_disk.Wal.Segment.Laws.{stored}
use htkis_hyper_disk.Wal.Segment.Crash.{AllFit, nil, cons}
use htkis_hyper_disk.Wal.Manager.{
  WalManager, log_entry, collect_entries_for_replay, crash_replay, replay_from, open_manager,
  new_manager, write_checkpoint, read_checkpoint,
}
use htkis_hyper_disk.Wal.Manager.Chain.{chain, Chain-entries}
use htkis_hyper_disk.Wal.Manager.Runs.{Holds, log_entry-Holds}

-- a run of WriteEntry on payloads that are there
pub log_all : WalManager → List (List ℕ) → WalManager
log_all m [] = m
log_all m (p ∷ ps) = log_all (log_entry well m (some p) (length p)).0 ps

-- payloads with consecutive numbers
abbrev pub numbered : ℕ → List (List ℕ) → List (ℕ × List ℕ)
numbered seq [] = []
numbered seq (p ∷ ps) = (seq, p) ∷ numbered (seq + 1) ps

Holds-cast :
    {m : WalManager} {checkpoint : Option ℕ} {a a' k k' : ℕ} {rs rs' : List (ℕ × List ℕ)}
    → a ≡ a'
    → k ≡ k'
    → rs ≡ rs'
    → Holds m checkpoint a k rs
    → Holds m checkpoint a' k' rs'
Holds-cast {m} {checkpoint} p q r h = coe 0 1 (i. Holds m checkpoint (p i) (q i) (r i)) h

log_all-Holds :
    (m : WalManager) (checkpoint : Option ℕ) (seq segments : ℕ) (rs : List (ℕ × List ℕ))
    (ps : List (List ℕ))
    → Holds m checkpoint seq segments rs
    → AllFit (numbered seq ps)
    → seq + length ps < bound 8
    → segments + length ps < 4294967296
    → Holds
        (log_all m ps)
        checkpoint
        (seq + length ps)
        (segments + length ps)
        (rs ++ numbered seq ps)
unfolding log_all
log_all-Holds m checkpoint seq segments rs [] h fit seq_fits few =
    Holds-cast (omega arith) (omega arith) (sym (append-nil rs)) h
log_all-Holds m checkpoint seq segments rs (p ∷ ps) h (cons f fit) seq_fits few =
    let one =
      log_entry-Holds m checkpoint seq segments rs p h f.len_fits (omega (arith, seq_fits))
        (omega (arith, few)) in
    Holds-cast (omega arith) (omega arith) (append_assoc rs ((seq, p) ∷ []) (numbered (seq + 1) ps))
      (log_all-Holds (log_entry well m (some p) (length p)).0 checkpoint (seq + 1) (segments + 1)
        (rs ++ ((seq, p) ∷ [])) ps one fit (omega (arith, seq_fits)) (omega (arith, few)))

collect-Holds :
    (m : WalManager) (checkpoint : Option ℕ) (seq segments : ℕ) (rs : List (ℕ × List ℕ))
    → Holds m checkpoint seq segments rs
    → (collect_entries_for_replay well m).0 ≡ map stored rs
unfolding collect_entries_for_replay
collect-Holds m checkpoint seq segments rs h =
    ap (λ x. (collect_entries_for_replay well x).0) h.shape
    ∙ Chain-entries h.d h.d h.olds h.s h.before h.after h.chained (λ k le. refl)
    ∙ ap (map stored) h.all

Holds-checkpoint :
    {m : WalManager} {checkpoint : Option ℕ} {seq segments : ℕ} {rs : List (ℕ × List ℕ)}
    (flushed : ℕ)
    → Holds m checkpoint seq segments rs
    → Holds (record m { checkpoint = some flushed }) (some flushed) seq segments rs
Holds-checkpoint flushed h = record {
  d = h.d;
  olds = h.olds;
  s = h.s;
  before = h.before;
  after = h.after;
  shape = ap with_flushed h.shape;
  chained = h.chained;
  all = h.all;
  room = h.room;
  number = h.number;
}
  where
    with_flushed : WalManager → WalManager
    with_flushed x = record x { checkpoint = some flushed }

open-Holds :
    (d : Disk) (checkpoint : Option ℕ)
    → ((k : ℕ) → d k ≡ [])
    → read_checkpoint well (new_manager d checkpoint) + 1 < bound 8
    → Holds
        (open_manager well (new_manager d checkpoint))
        checkpoint
        (read_checkpoint well (new_manager d checkpoint) + 1)
        1
        []
unfolding open_manager new_manager
open-Holds d checkpoint empty fits =
    let f = read_checkpoint well (new_manager d checkpoint) in
    let first = open_segment well d 1 (sub64 (u64 (f + 1)) 1) false in
    record {
      d = d;
      olds = [];
      s = first;
      before = [];
      after = [];
      shape = ap (λ n. chain d checkpoint n [] first) (omega (arith, fits));
      chained = record {
        at_end = record {
          fd_end = ap (λ l. some (length l)) (sym (empty 1));
          unsealed = refl;
          writable = refl;
        };
        size = refl;
        file = empty 1;
        fit = nil;
        fresh = λ k lt. empty k;
        sealed_read = λ e same. refl;
      };
      all = refl;
      room = omega (arith, ap length (empty 1));
      number = omega arith;
    }

replay_from-step :
    (flushed prev : ℕ) (e : Entry) (es : List Entry)
    → replay_from flushed prev (e ∷ es)
      ≡ replay_from flushed (if leb e.seq_id flushed then prev else e.seq_id) es
unfolding replay_from
replay_from-step flushed prev e es = ground arith

replay_from-nil : (flushed prev : ℕ) → replay_from flushed prev [] ≡ prev
unfolding replay_from
replay_from-nil flushed prev = refl

replay_from-first :
    (flushed prev seq : ℕ) (p : List ℕ) (ps : List (List ℕ))
    → replay_from flushed prev (map stored (numbered seq (p ∷ ps)))
      ≡ replay_from flushed
          (if leb seq flushed then prev else seq)
          (map stored (numbered (seq + 1) ps))
replay_from-first flushed prev seq p ps =
    replay_from-step flushed prev (stored (seq, p)) (map stored (numbered (seq + 1) ps))
    ∙ ap
        (λ n.
          replay_from flushed (if leb n flushed then prev else n)
            (map stored (numbered (seq + 1) ps)))
        (seq_id-entry_of seq p)

-- The loop of CrashReplay on consecutive numbers ends with the last one, if it is not flushed.
replay_from-numbered :
    (flushed prev seq : ℕ) (p : List ℕ) (ps : List (List ℕ))
    → replay_from flushed prev (map stored (numbered seq (p ∷ ps)))
      ≡ (if ltb flushed (seq + length ps) then seq + length ps else prev)
replay_from-numbered flushed prev seq p [] =
    replay_from-first flushed prev seq p []
    ∙ replay_from-nil flushed (if leb seq flushed then prev else seq)
    ∙ ground arith
replay_from-numbered flushed prev seq p (q ∷ ps) =
    replay_from-first flushed prev seq p (q ∷ ps)
    ∙ replay_from-numbered flushed (if leb seq flushed then prev else seq) (seq + 1) q ps
    ∙ ground arith

-- the number after the checkpoint's, and the log after payloads are written from a new start on
abbrev pub first_seq_id : Option ℕ → ℕ
first_seq_id none = 1
first_seq_id (some flushed) = flushed + 1

read_checkpoint-first :
    (d : Disk) (checkpoint : Option ℕ)
    → read_checkpoint well (new_manager d checkpoint) + 1 ≡ first_seq_id checkpoint
unfolding read_checkpoint new_manager
read_checkpoint-first d none = omega arith
read_checkpoint-first d (some flushed) = omega arith

abbrev pub logged : Disk → Option ℕ → List (List ℕ) → WalManager
logged d checkpoint ps = log_all (open_manager well (new_manager d checkpoint)) ps

logged-Holds :
    (d : Disk) (checkpoint : Option ℕ) (ps : List (List ℕ))
    → ((k : ℕ) → d k ≡ [])
    → AllFit (numbered (first_seq_id checkpoint) ps)
    → first_seq_id checkpoint + length ps < bound 8
    → 1 + length ps < 4294967296
    → Holds
        (logged d checkpoint ps)
        checkpoint
        (first_seq_id checkpoint + length ps)
        (1 + length ps)
        (numbered (first_seq_id checkpoint) ps)
logged-Holds d checkpoint ps empty fit seq_fits few =
    let from = read_checkpoint-first d checkpoint in
    log_all-Holds (open_manager well (new_manager d checkpoint)) checkpoint
      (first_seq_id checkpoint) 1 [] ps
      (Holds-cast from refl refl (open-Holds d checkpoint empty (omega (arith, from, seq_fits))))
      fit seq_fits few

-- Any payloads are written one after another to a log that is opened on empty segment files, each
-- shorter than 2 ^ 32 bytes, fewer than 2 ^ 32 - 1 of them and with numbers below 2 ^ 64, and every
-- call of the system succeeds. Then CollectEntriesForReplay gives exactly these payloads, in their
-- order and with consecutive numbers from the one behind the checkpoint's, however many rollovers to a
-- new segment file there were.
pub collect-log_all :
    (d : Disk) (checkpoint : Option ℕ) (ps : List (List ℕ))
    → ((k : ℕ) → d k ≡ [])
    → AllFit (numbered (first_seq_id checkpoint) ps)
    → first_seq_id checkpoint + length ps < bound 8
    → 1 + length ps < 4294967296
    → (collect_entries_for_replay well (logged d checkpoint ps)).0
      ≡ map stored (numbered (first_seq_id checkpoint) ps)
collect-log_all d checkpoint ps empty fit seq_fits few =
    collect-Holds (logged d checkpoint ps) checkpoint (first_seq_id checkpoint + length ps)
      (1 + length ps) (numbered (first_seq_id checkpoint) ps)
      (logged-Holds d checkpoint ps empty fit seq_fits few)

-- At least one payload is written to such a log, then the checkpoint of some flushed number, then
-- CrashReplay runs. It leaves the last payload's number in the checkpoint if that is above the flushed
-- one, and 0 if everything was flushed.
pub crash_replay-checkpoint :
    (d : Disk) (checkpoint : Option ℕ) (p : List ℕ) (ps : List (List ℕ)) (flushed : ℕ)
    → ((k : ℕ) → d k ≡ [])
    → AllFit (numbered (first_seq_id checkpoint) (p ∷ ps))
    → first_seq_id checkpoint + length (p ∷ ps) < bound 8
    → 1 + length (p ∷ ps) < 4294967296
    → let last = first_seq_id checkpoint + length ps in
      (crash_replay well
        (write_checkpoint well (logged d checkpoint (p ∷ ps)) flushed).0).0.checkpoint
      ≡ some (if ltb flushed last then last else 0)
unfolding crash_replay write_checkpoint read_checkpoint
crash_replay-checkpoint d checkpoint p ps flushed empty fit seq_fits few =
    let first = first_seq_id checkpoint in
    let h = logged-Holds d checkpoint (p ∷ ps) empty fit seq_fits few in
    let m = record (logged d checkpoint (p ∷ ps)) { checkpoint = some flushed } in
    let found =
      collect-Holds m (some flushed) _ _ (numbered first (p ∷ ps)) (Holds-checkpoint flushed h) in
    ap (λ es. some (replay_from flushed 0 es)) found
    ∙ ap some (replay_from-numbered flushed 0 first p ps)
