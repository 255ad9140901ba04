-- ===== src/Replay/Step.antt =====
-- How Write puts the entries of a list of requests into the buffer.
pub mod After
use mathlib.Core.List.{append-nil, append_assoc}
use mathlib.Core.Path.{subst, subst⁻¹}
use native.Mathlib.Decide.{dec_lt}
use native.Mathlib.Nat.{mod-eq_of_lt}
use htkis_hyper_disk.Base.{
  ℕ, ◌+◌, ◌-◌, ◌*◌, ◌/◌, ◌%◌, ◌≤◌, ◌<◌, ◌≡◌, ◌⊎◌, inl, inr, refl, sym, ap, ◌∙◌, true, List, [], ◌∷◌,
  ◌++◌, map, Option, some, ◌>>=◌, arith, ltb, if◌then◌else◌, drop, length, length-append,
  drop-append_le, drop-drop, u32, u64, bound,
}
use htkis_hyper_disk.Replay.{
  ReplayEntry, entry_memory, ReplayRing, new_ring, initialize, start_recording, copy_to, Io,
  entry_of, write_position, write_at, write,
}
use htkis_hyper_disk.Replay.Slots.{length-copy_to}
use htkis_hyper_disk.Replay.Ring.{
  Fits, entries_at, entries_at-nil, entries_at-snoc, entries_at-turn,
}
use htkis_hyper_disk.Replay.Ring.Loop.{mod_in, mod_past}

-- The arguments of Write as words of their widths.
pub record IsWord (io : Io) : Type 0 where
  pub lba_lt : io.lba < bound 8
  pub offset_lt : io.offset < bound 8
  pub size_lt : io.size < bound 4
  pub latency_lt : io.latency_us < bound 4
  pub status_lt : io.status < bound 4
  pub reserved_lt : io.reserved < bound 1

pub IsWord-Fits : (start : ℕ) (io : Io) → IsWord io → Fits (entry_of start io)
IsWord-Fits start io w = record {
  lba_fits = w.lba_lt;
  offset_fits = w.offset_lt;
  size_fits = w.size_lt;
  latency_fits = w.latency_lt;
  status_fits = w.status_lt;
  timestamp_fits = omega arith;
  reserved_fits = w.reserved_lt;
}

abbrev pub AllWords : List Io → Type 0
AllWords [] = Unit
AllWords (io ∷ ios) = IsWord io × AllWords ios

-- The requests of a list are recorded one after another.
pub run : List Io → ReplayRing → Option ReplayRing
run [] r = some r
run (io ∷ ios) r = write r io >>= run ios

-- a ring whose buffer is allocated, and that records from the time `start` on
unfoldable pub recording : ℕ → ℕ → ReplayRing
unfolding initialize start_recording
recording capacity start = start_recording (initialize (new_ring capacity) true).0 start

-- The ring after `hist` was recorded: its buffer is `b`, has room for k entries and `rest` bytes more,
-- and the last entry was put into the place before the place d.
pub record Inv (start k rest : ℕ) (hist : List ReplayEntry) (r : ReplayRing) (b : List ℕ) (d : ℕ)
    : Type 0 where
  pub buffer_is : r.buffer ≡ some b
  pub length_is : length b ≡ 33 * k + rest
  pub capacity_is : r.capacity ≡ 33 * k + rest
  pub is_active : r.active ≡ true
  pub start_is : r.record_start ≡ start
  pub count_is : r.write_count ≡ length hist
  pub overwritten_is : r.overwrite_count ≡ length hist - k
  pub place_le : d ≤ k
  pub placed : 0 < length hist → 0 < d
  pub early_place : length hist ≤ k → d ≡ length hist
  pub head_is : (r.head ≡ 33 * d) ⊎ ((r.head ≡ 0) × (d ≡ k) × (rest ≡ 0))
  pub early : length hist ≤ k → entries_at b 0 d ≡ hist
  pub late :
      k ≤ length hist
      → entries_at b (33 * d) (k - d) ++ entries_at b 0 d ≡ drop (length hist - k) hist

-- the place c that the next entry is put into
pub record Ready (k : ℕ) (hist : List ReplayEntry) (r : ReplayRing) (b : List ℕ) (c : ℕ)
    : Type 0 where
  pub position_is : write_position r ≡ 33 * c
  pub place_lt : c < k
  pub ready_place : length hist < k → c ≡ length hist
  pub ready_early : length hist < k → entries_at b 0 c ≡ hist
  pub ready_late :
      k ≤ length hist
      → entries_at b (33 * c) (k - c) ++ entries_at b 0 c ≡ drop (length hist - k) hist

module _ (start k rest : ℕ) (pos : 0 < k) (rest_lt : rest < 33)
    (small : 2 * (33 * k + rest) ≤ 4294967296) where
  position_in :
      (cap head : ℕ)
      → head + 33 ≤ cap
      → 2 * cap ≤ 4294967296
      → (if ltb cap (u32 (head + 33)) then 0 else head) ≡ head
  position_in cap head h s = ground (arith, h, s)

  position_past :
      (cap head : ℕ)
      → head ≤ cap
      → cap < head + 33
      → 33 ≤ cap
      → 2 * cap ≤ 4294967296
      → (if ltb cap (u32 (head + 33)) then 0 else head) ≡ 0
  position_past cap head h g c s = ground (arith, h, g, s)

  module _ (hist : List ReplayEntry) (r : ReplayRing) (b : List ℕ) (d : ℕ)
      (v : Inv start k rest hist r b d) where
    open v use {capacity_is, place_le, early_place, head_is, early, late}

    Inv-Ready_inside : d < k → Ready k hist r b d
    unfolding write_position
    Inv-Ready_inside lt = record {
      position_is = elim head_is [
        | inl e ↦ position_in r.capacity r.head (omega arith) (omega arith) ∙ e
        | inr (_, e, _) ↦ absurd (omega arith)
      ];
      place_lt = lt;
      ready_place = λ h. early_place (omega arith);
      ready_early = λ h. early (omega arith);
      ready_late = late;
    }

    Inv-Ready_end : d ≡ k → Ready k hist r b 0
    unfolding write_position
    Inv-Ready_end e = record {
      position_is = elim head_is [
        | inl at ↦
            position_past r.capacity r.head (omega arith) (omega arith) (omega arith) (omega arith)
        | inr (at, _, _) ↦ position_in r.capacity r.head (omega arith) (omega arith) ∙ at
      ];
      place_lt = pos;
      ready_place = λ h. absurd (omega (arith, early_place (omega arith)));
      ready_early = λ h. absurd (omega (arith, early_place (omega arith)));
      ready_late = λ h.
          ap (λ j. entries_at b 0 j ++ entries_at b 0 0) (omega arith)
          ∙ ap (λ l. entries_at b 0 k ++ l) (entries_at-nil b 0 0 refl)
          ∙ append-nil (entries_at b 0 k)
          ∙ ap (λ l. l ++ entries_at b 0 k) (sym (entries_at-nil b (33 * d) (k - d) (omega arith)))
          ∙ ap (λ j. entries_at b (33 * d) (k - d) ++ entries_at b 0 j) (sym e)
          ∙ late h;
    }

    pub Inv-Ready : (c : ℕ) × Ready k hist r b c
    Inv-Ready = elim (dec_lt d k) [
      | yes lt ↦ (d, Inv-Ready_inside lt)
      | no ge ↦ (0, Inv-Ready_end (omega arith))
    ]
