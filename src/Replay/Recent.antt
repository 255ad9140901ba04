-- ===== src/Replay/Recent.antt =====
-- The ring of recorded requests against the list of all requests that were recorded.
use Prim.Native.Nat.{min}
use native.Mathlib.Decide.{dec_lt}
use native.Mathlib.Nat.{mod-eq_of_lt}
use htkis_hyper_disk.Base.{
  ℕ, suc, ◌+◌, ◌-◌, ◌*◌, ◌≤◌, ◌<◌, ◌≡◌, ◌⊎◌, inl, inr, refl, sym, ap, ◌∙◌, List, [], ◌∷◌, ◌/◌, ◌++◌,
  map, Option, none, some, arith, ltb, if◌then◌else◌, drop, length, replicate, length-replicate,
  u32,
}
use htkis_hyper_disk.Replay.{
  ReplayEntry, ReplayRing, Io, entry_of, read_entries_loop, get_all_entries,
}
use htkis_hyper_disk.Replay.Ring.{entries_at, entries_at-nil}
use htkis_hyper_disk.Replay.Ring.Loop.{read-in, read-turn, read-out}
use htkis_hyper_disk.Replay.Step.{AllWords, run, recording, Inv}
use htkis_hyper_disk.Replay.Step.After.{run-Inv}

pub length-map_entry : (start : ℕ) (ios : List Io) → length (map (entry_of start) ios) ≡ length ios
length-map_entry start [] = refl
length-map_entry start (io ∷ ios) = ap suc (length-map_entry start ios)

module _ (start k rest : ℕ) (pos : 0 < k) (rest_lt : rest < 33)
    (small : 2 * (33 * k + rest) ≤ 4294967296) where
  new-Inv : Inv start k rest [] (recording (33 * k + rest) start) (replicate (33 * k + rest) 0) 0
  unfolding recording
  new-Inv = record {
    buffer_is = refl;
    length_is = length-replicate (33 * k + rest) 0;
    capacity_is = refl;
    is_active = refl;
    start_is = refl;
    count_is = refl;
    overwritten_is = omega arith;
    place_le = omega arith;
    placed = λ h. absurd (omega arith);
    early_place = λ h. refl;
    head_is = inl (omega arith);
    early = λ h. entries_at-nil _ 0 0 refl;
    late = λ h. absurd (omega arith);
  }

  module _ (hist : List ReplayEntry) (r : ReplayRing) (b : List ℕ) (d : ℕ)
      (v : Inv start k rest hist r b d) where
    open v use {
      capacity_is, count_is, overwritten_is, place_le, placed, early_place, head_is, early, late,
    }

    start_early : (o h : ℕ) → o ≡ 0 → (if ltb 0 o then h else 0) ≡ 0
    start_early o h e = ground (arith, e)

    start_late : (o h : ℕ) → 0 < o → (if ltb 0 o then h else 0) ≡ h
    start_late o h e = ground (arith, e)

    -- the loop of GetAllEntries, with the number of rounds and its start written out
    get_all-loop :
        (n s : ℕ)
        → n ≡ min (length hist) k
        → (if ltb 0 r.overwrite_count then r.head else 0) ≡ s
        → get_all_entries r ≡ read_entries_loop b (33 * k + rest) s 0 n
    unfolding get_all_entries
    get_all-loop n s en es =
        ap read v.buffer_is
        ∙ ap (λ q. read_entries_loop b r.capacity q 0 count) es
        ∙ ap (λ m. read_entries_loop b r.capacity s 0 m) rounds
        ∙ ap (λ q. read_entries_loop b q s 0 n) capacity_is
      where
        count : ℕ
        count = u32 (min r.write_count (r.capacity / 33))

        read : Option (List ℕ) → Option (List ReplayEntry)
        read o = elim o [
          | none ↦ some []
          | some x ↦
              read_entries_loop x r.capacity (if ltb 0 r.overwrite_count then r.head else 0) 0 count
        ]

        rounds : count ≡ n
        rounds = mod-eq_of_lt (omega arith) ∙ omega (arith, en)

    get_all-early : length hist ≤ k → get_all_entries r ≡ some hist
    get_all-early h =
        get_all-loop d 0 (omega (arith, early_place h))
          (start_early r.overwrite_count r.head (omega arith))
        ∙ read-in b (33 * k + rest) 0 small 0 d (omega arith)
        ∙ ap (λ q. some (entries_at b q d)) (omega arith)
        ∙ ap some (early h)

    get_all-late :
        k < length hist → rest ≡ 0 → get_all_entries r ≡ some (drop (length hist - k) hist)
    get_all-late h e = elim head_is [
      | inl at ↦
          get_all-loop (k - d + d) (33 * d) (omega arith)
            (start_late r.overwrite_count r.head (omega arith) ∙ at)
          ∙ read-turn b (33 * k + rest) (33 * d) small 0 (k - d) d (omega arith) (omega arith)
          ∙ ap (λ q. some (entries_at b q (k - d) ++ entries_at b 0 d)) (omega arith)
          ∙ ap some (late (omega arith))
      | inr (at, full, _) ↦
          get_all-loop k 0 (omega arith) (start_late r.overwrite_count r.head (omega arith) ∙ at)
          ∙ read-in b (33 * k + rest) 0 small 0 k (omega arith)
          ∙ ap (λ q. some (entries_at b q k)) (omega arith)
          ∙ ap (λ j. some (entries_at b 0 j)) (sym full)
          ∙ ap (λ l. some (l ++ entries_at b 0 d))
              (sym (entries_at-nil b (33 * d) (k - d) (omega arith)))
          ∙ ap some (late (omega arith))
    ]

    get_all-out : k < length hist → 0 < rest → get_all_entries r ≡ none
    get_all-out h e = elim head_is [
      | inl at ↦
          get_all-loop ((k - d) + suc (d - 1)) (33 * d) (omega arith)
            (start_late r.overwrite_count r.head (omega arith) ∙ at)
          ∙ read-out b (33 * k + rest) (33 * d) small 0 (k - d) (d - 1) (omega arith) (omega arith)
      | inr (_, _, none_left) ↦ absurd (omega arith)
    ]

    get_all-hist :
        (length hist ≤ k) ⊎ (rest ≡ 0) → get_all_entries r ≡ some (drop (length hist - k) hist)
    get_all-hist fits = elim (dec_lt k (length hist)) [
      | yes more ↦ elim fits [ inl le ↦ absurd (omega arith) | inr e ↦ get_all-late more e ]
      | no few ↦
          let nothing : 0 ≡ length hist - k = omega arith in
          get_all-early (omega arith) ∙ ap (λ j. some (drop j hist)) nothing
    ]

recorded :
    (start k rest : ℕ) (ios : List Io)
    → 0 < k
    → rest < 33
    → 2 * (33 * k + rest) ≤ 4294967296
    → AllWords ios
    → length ios < 18446744073709551616
    → (r : ReplayRing) × (b : List ℕ) × (d : ℕ) × (run ios (recording (33 * k + rest) start)
        ≡ some r)
      × Inv start k rest (map (entry_of start) ios) r b d
recorded start k rest ios pos rest_lt small words lt =
    run-Inv start k rest pos rest_lt small ios [] (recording (33 * k + rest) start)
      (replicate (33 * k + rest) 0) 0 (new-Inv start k rest pos rest_lt small) words (omega arith)

pub get_all-runs :
    (start k rest : ℕ) (ios : List Io)
    → 0 < k
    → rest < 33
    → 2 * (33 * k + rest) ≤ 4294967296
    → AllWords ios
    → length ios < 18446744073709551616
    → (length ios ≤ k) ⊎ (rest ≡ 0)
    → (r : ReplayRing) × (run ios (recording (33 * k + rest) start) ≡ some r)
      × (get_all_entries r ≡ some (drop (length ios - k) (map (entry_of start) ios)))
get_all-runs start k rest ios pos rest_lt small words lt fits =
    let (r, b, d, ran, v) = recorded start k rest ios pos rest_lt small words lt in
    (
      r,
      ran,
      get_all-hist start k rest pos rest_lt small (map (entry_of start) ios) r b d v
            (elim fits [ inl le ↦ inl (omega (arith, length-map_entry start ios)) | inr e ↦ inr e ])
          ∙ ap (λ n. some (drop (n - k) (map (entry_of start) ios))) (length-map_entry start ios),
    )

-- A recorder's buffer has room for k entries, at least one, and 1 to 32 bytes more. More than k
-- requests are recorded into it, fewer than 2 ^ 64, whose fields are words of their widths. Then no call
-- of Write fails, and GetAllEntries reads behind the end of the buffer.
pub get_all-overrun :
    (start k rest : ℕ) (ios : List Io)
    → 0 < k
    → rest < 33
    → 2 * (33 * k + rest) ≤ 4294967296
    → AllWords ios
    → length ios < 18446744073709551616
    → k < length ios
    → 0 < rest
    → (r : ReplayRing) × (run ios (recording (33 * k + rest) start) ≡ some r)
      × (get_all_entries r ≡ none)
get_all-overrun start k rest ios pos rest_lt small words lt more left =
    let (r, b, d, ran, v) = recorded start k rest ios pos rest_lt small words lt in
    (
      r,
      ran,
      get_all-out start k rest pos rest_lt small (map (entry_of start) ios) r b d v
          (omega (arith, length-map_entry start ios)) left,
    )
