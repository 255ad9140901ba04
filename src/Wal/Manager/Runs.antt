-- ===== src/Wal/Manager/Runs.antt =====
-- A write of the manager keeps the chain, with a rollover behind it or without.
use mathlib.Core.Path.{subst⁻¹}
use mathlib.Core.List.{append-nil, append_assoc}
use htkis_hyper_disk.Base.{
  ℕ, ◌+◌, ◌≡◌, ◌<◌, ◌≤◌, refl, sym, ap, ◌∙◌, Bool, true, false, List, [], ◌∷◌, ◌++◌, Option, some,
  length, arith, length-append, u32, u64, sub64, leb, leb-false, ◌||◌, if◌then◌else◌, inl, inr,
  Bool-cases, bound,
}
use htkis_hyper_disk.Wal.Segment.{
  Disk, put_file, WalSegment, open_segment, is_full, seal, well, wal_segment_size,
}
use htkis_hyper_disk.Wal.Segment.Laws.{Fits, built, length-built}
use htkis_hyper_disk.Wal.Segment.Writes.{AtEnd, write_entry-full, put_file_self}
use htkis_hyper_disk.Wal.Manager.{
  WalManager, log_entry, roll_over_if_needed, trigger_segment_rollover, finish_entry,
}
use htkis_hyper_disk.Wal.Manager.Chain.{Chain, chain, append-Chain, rollover-Chain}

-- The segment after a write in full.
abbrev grown : Disk → WalSegment → ℕ × List ℕ → WalSegment
grown d s r = record s {
  fd = some (length (d s.path) + length (built r));
  last_seq_id = r.0;
  entry_count = u32 (s.entry_count + 1);
  file_size = u64 (s.file_size + length (built r));
}

log_entry-chain :
    (d : Disk) (checkpoint : Option ℕ) (olds : List WalSegment) (s : WalSegment) (r : ℕ × List ℕ)
    → AtEnd d s
    → (log_entry well (chain d checkpoint r.0 olds s) (some r.1) (length r.1)).0
      ≡ roll_over_if_needed well (grown d s r) (
          chain
            (put_file d s.path (d s.path ++ built r))
            checkpoint
            (u64 (r.0 + 1))
            olds
            (grown d s r))
unfolding log_entry finish_entry
log_entry-chain d checkpoint olds s r at_end =
    ap (λ w. (finish_entry well (chain d checkpoint r.0 olds s) w).0)
      (write_entry-full d s r at_end)

-- The manager is a chain that holds the records `rs`, in at most so many segments.
pub record Holds (m : WalManager) (checkpoint : Option ℕ) (seq segments : ℕ)
    (rs : List (ℕ × List ℕ)) : Type 0 where
  pub d : Disk
  pub olds : List WalSegment
  pub s : WalSegment
  pub before : List (ℕ × List ℕ)
  pub after : List (ℕ × List ℕ)
  pub shape : m ≡ chain d checkpoint seq olds s
  pub chained : Chain d olds s before after
  pub all : before ++ after ≡ rs
  pub room : s.file_size < wal_segment_size
  pub number : s.path ≤ segments

grown-Chain :
    (d : Disk) (olds : List WalSegment) (s : WalSegment) (before after : List (ℕ × List ℕ))
    (r : ℕ × List ℕ)
    → Chain d olds s before after
    → Fits r
    → s.file_size < wal_segment_size
    → Chain (put_file d s.path (d s.path ++ built r)) olds (grown d s r) before (after ++ (r ∷ []))
grown-Chain d olds s before after r c f room =
    let len = length-append (d s.path) (built r) in
    append-Chain d olds s (grown d s r) before after r c f refl
      (record {
        fd_end = ap some (sym len ∙ ap length (sym (put_file_self d s.path (d s.path ++ built r))));
        unsealed = c.at_end.unsealed;
        writable = c.at_end.writable;
      })
      (omega (arith, len, c.size, room, length-built r, f.len_fits))

not_full : (t : WalSegment) → is_full t ≡ false → t.file_size < wal_segment_size
not_full t e =
    leb-false wal_segment_size t.file_size
      (full_cases (leb wal_segment_size t.file_size) (leb 500000 t.entry_count) e)
  where
    full_cases : (a b : Bool) → (a || b) ≡ false → a ≡ false
    full_cases false b e = refl
    full_cases true b e = e

roll_over-Holds :
    (d : Disk) (checkpoint : Option ℕ) (seq segments : ℕ) (olds : List WalSegment) (t : WalSegment)
    (before after rs : List (ℕ × List ℕ))
    → Chain d olds t before after
    → before ++ after ≡ rs
    → t.path ≤ segments
    → segments + 1 < 4294967296
    → Holds
        (roll_over_if_needed well t (chain d checkpoint seq olds t))
        checkpoint
        seq
        (segments + 1)
        rs
unfolding roll_over_if_needed trigger_segment_rollover
roll_over-Holds d checkpoint seq segments olds t before after rs c all number few =
    elim (Bool-cases (is_full t)) [
      | inr e ↦ record {
        d = d;
        olds = olds;
        s = t;
        before = before;
        after = after;
        shape = pick e;
        chained = c;
        all = all;
        room = not_full t e;
        number = omega (arith, number);
      }
      | inl e ↦ record {
        d = d;
        olds = olds ++ (seal t ∷ []);
        s = open_segment well d (t.path + 1) (sub64 seq 1) false;
        before = before ++ after;
        after = [];
        shape =
            pick e
            ∙ ap
                (λ k.
                  chain d checkpoint seq (olds ++ (seal t ∷ []))
                    (open_segment well d k (sub64 seq 1) false))
                next_path;
        chained = rollover-Chain d olds t before after (sub64 seq 1) c;
        all = append-nil (before ++ after) ∙ all;
        room = omega (arith, ap length (c.fresh (t.path + 1) (omega arith)));
        number = omega (arith, number);
      }
    ]
  where
    now : WalManager
    now = chain d checkpoint seq olds t

    next_path : u32 (t.path + 1) ≡ t.path + 1
    next_path = omega (arith, number, few)

    pick :
        {b : Bool}
        → is_full t ≡ b
        → roll_over_if_needed well t now ≡ (if b then trigger_segment_rollover well now else now)
    pick e = ap (λ b. if b then trigger_segment_rollover well now else now) e

-- One record more, with a rollover behind it or without.
pub log_entry-Holds :
    (m : WalManager) (checkpoint : Option ℕ) (seq segments : ℕ) (rs : List (ℕ × List ℕ))
    (p : List ℕ)
    → Holds m checkpoint seq segments rs
    → length p < bound 4
    → seq + 1 < bound 8
    → segments + 1 < 4294967296
    → Holds
        (log_entry well m (some p) (length p)).0
        checkpoint
        (seq + 1)
        (segments + 1)
        (rs ++ ((seq, p) ∷ []))
log_entry-Holds m checkpoint seq segments rs p h len_fits seq_fits few =
    let r : ℕ × List ℕ = (seq, p) in
    let t = grown h.d h.s r in
    let d' = put_file h.d h.s.path (h.d h.s.path ++ built r) in
    let fits : Fits r = record { seq_fits = omega (arith, seq_fits); len_fits = len_fits } in
    let chained = grown-Chain h.d h.olds h.s h.before h.after r h.chained fits h.room in
    let shape =
      ap (λ x. (log_entry well x (some p) (length p)).0) h.shape
      ∙ log_entry-chain h.d checkpoint h.olds h.s r h.chained.at_end in
    let all = sym (append_assoc h.before h.after (r ∷ [])) ∙ ap (λ l. l ++ (r ∷ [])) h.all in
    subst⁻¹ (λ x. Holds x checkpoint (seq + 1) (segments + 1) (rs ++ (r ∷ [])))
      (shape
        ∙ ap (λ n. roll_over_if_needed well t (chain d' checkpoint n h.olds t))
            (omega (arith, seq_fits)))
      (roll_over-Holds d' checkpoint (seq + 1) segments h.olds t h.before (h.after ++ (r ∷ []))
        (rs ++ (r ∷ [])) chained all h.number few)
