-- ===== src/Replay/Ring.antt =====
-- How the entries of recorded requests lie in the buffer, and what a copy does to them.
pub mod Loop
use mathlib.Core.List.{append_assoc}
use native.Mathlib.Nat.{mod-eq_of_lt, mod-eq-sub-mod}
use htkis_hyper_disk.Base.{
  ℕ, zero, suc, ◌+◌, ◌-◌, ◌*◌, ◌%◌, ◌≤◌, ◌<◌, ◌≡◌, refl, sym, ap, ◌∙◌, List, [], ◌∷◌, ◌++◌, Option,
  none, some, arith, ltb, if◌then◌else◌, take, drop, length, bound, from_le-to_le, u32,
}
use htkis_hyper_disk.Replay.{ReplayEntry, entry_memory, load_entry, copy_to, read_entries_loop}
use htkis_hyper_disk.Replay.Slots.{slice-copy_self, slice-copy_before, drop-copy_after}

-- Every field of an entry fits its width.
pub record Fits (e : ReplayEntry) : Type 0 where
  pub lba_fits : e.lba < bound 8
  pub offset_fits : e.offset < bound 8
  pub size_fits : e.size < bound 4
  pub latency_fits : e.latency_us < bound 4
  pub status_fits : e.status < bound 4
  pub timestamp_fits : e.timestamp_ms < bound 4
  pub reserved_fits : e.reserved < bound 1

pub load_entry-entry_memory : (e : ReplayEntry) → Fits e → load_entry (entry_memory e) ≡ e
load_entry-entry_memory e v = λ i. record {
  lba = from_le-to_le 8 e.lba v.lba_fits i;
  offset = from_le-to_le 8 e.offset v.offset_fits i;
  size = from_le-to_le 4 e.size v.size_fits i;
  latency_us = from_le-to_le 4 e.latency_us v.latency_fits i;
  status = from_le-to_le 4 e.status v.status_fits i;
  timestamp_ms = from_le-to_le 4 e.timestamp_ms v.timestamp_fits i;
  reserved = from_le-to_le 1 e.reserved v.reserved_fits i;
}

-- the n entries that lie one behind the other from the position p on
pub entries_at : List ℕ → ℕ → ℕ → List ReplayEntry
entries_at b p zero = []
entries_at b p (suc n) = load_entry (take 33 (drop p b)) ∷ entries_at b (p + 33) n

pub entries_at-nil : (b : List ℕ) (p n : ℕ) → n ≡ 0 → entries_at b p n ≡ []
unfolding entries_at
entries_at-nil b p zero e = refl
entries_at-nil b p (suc n) e = absurd (omega arith)

pub length-entries_at : (b : List ℕ) (p n : ℕ) → length (entries_at b p n) ≡ n
unfolding entries_at
length-entries_at b p zero = refl
length-entries_at b p (suc n) = ap suc (length-entries_at b (p + 33) n)

pub entries_at-add :
    (b : List ℕ) (p m n : ℕ)
    → entries_at b p (m + n) ≡ entries_at b p m ++ entries_at b (p + 33 * m) n
unfolding entries_at
entries_at-add b p zero n =
    ap (entries_at b p) (omega arith) ∙ ap (λ q. entries_at b q n) (omega arith)
entries_at-add b p (suc m) n =
    ap (entries_at b p) suc_add
    ∙ ap (λ t. load_entry (take 33 (drop p b)) ∷ t)
        (entries_at-add b (p + 33) m n
          ∙ ap (λ q. entries_at b (p + 33) m ++ entries_at b q n) (omega arith))
  where
    suc_add : suc m + n ≡ suc (m + n)
    suc_add = omega arith

module _ (b : List ℕ) (p : ℕ) (e : ReplayEntry) (room : p + 33 ≤ length b) where
  abbrev copied : List ℕ
  copied = copy_to b p (entry_memory e)

  entries_at-before : (q n : ℕ) → q + 33 * n ≤ p → entries_at copied q n ≡ entries_at b q n
  unfolding entries_at
  entries_at-before q zero h = refl
  entries_at-before q (suc n) h =
      ap (λ x. load_entry x ∷ entries_at copied (q + 33) n)
        (slice-copy_before b p (entry_memory e) room q 33 (omega arith))
      ∙ ap (λ t. load_entry (take 33 (drop q b)) ∷ t) (entries_at-before (q + 33) n (omega arith))

  entries_at-after : (q n : ℕ) → p + 33 ≤ q → entries_at copied q n ≡ entries_at b q n
  unfolding entries_at
  entries_at-after q zero h = refl
  entries_at-after q (suc n) h =
      ap (λ x. load_entry (take 33 x) ∷ entries_at copied (q + 33) n)
        (drop-copy_after b p (entry_memory e) room q h)
      ∙ ap (λ t. load_entry (take 33 (drop q b)) ∷ t) (entries_at-after (q + 33) n (omega arith))

  entries_at_self : Fits e → entries_at copied p 1 ≡ e ∷ []
  unfolding entries_at
  entries_at_self v =
      ap (λ x. load_entry x ∷ []) (slice-copy_self b p (entry_memory e) room 33 refl)
      ∙ ap (λ x. x ∷ []) (load_entry-entry_memory e v)

  -- a copy into the place behind the first c puts the entry behind them
  pub entries_at-snoc :
      (c : ℕ) → 33 * c ≡ p → Fits e → entries_at copied 0 (c + 1) ≡ entries_at b 0 c ++ (e ∷ [])
  entries_at-snoc c at v =
      entries_at-add copied 0 c 1
      ∙ ap (λ q. entries_at copied 0 c ++ entries_at copied q 1) (omega arith)
      ∙ ap (λ l. entries_at copied 0 c ++ l) (entries_at_self v)
      ∙ ap (λ l. l ++ (e ∷ [])) (entries_at-before 0 c (omega arith))

  -- the k entries of a full buffer, read from the place c on: a copy there moves the start on
  pub entries_at-turn :
      (c k : ℕ)
      → 33 * c ≡ p
      → c < k
      → Fits e
      → entries_at copied (33 * (c + 1)) (k - (c + 1)) ++ entries_at copied 0 (c + 1)
        ≡ drop 1 ((entries_at b (33 * c) (k - c) ++ entries_at b 0 c) ++ (e ∷ []))
  unfolding entries_at
  entries_at-turn c k at lt v =
      ap (λ l. l ++ entries_at copied 0 (c + 1)) (entries_at-after _ _ (omega arith))
      ∙ ap (λ l. entries_at b (33 * (c + 1)) (k - (c + 1)) ++ l) (entries_at-snoc c at v)
      ∙ sym (append_assoc (entries_at b (33 * (c + 1)) (k - (c + 1))) (entries_at b 0 c) (e ∷ []))
      ∙ ap (λ q. (entries_at b q (k - (c + 1)) ++ entries_at b 0 c) ++ (e ∷ [])) (omega arith)
      ∙ ap (λ n. drop 1 ((entries_at b (33 * c) n ++ entries_at b 0 c) ++ (e ∷ []))) more
    where
      more : suc (k - (c + 1)) ≡ k - c
      more = omega arith
