-- ===== src/Replay/Step/After.antt =====
-- What one call of Write, and any number of them, leave.
use mathlib.Core.List.{append-nil, append_assoc}
use mathlib.Core.Path.{subst, subst⁻¹}
use native.Mathlib.Decide.{dec_lt}
use native.Mathlib.Nat.{mod-eq_of_lt}
use htkis_hyper_disk.Base.{
  ℕ, ◌+◌, ◌-◌, ◌*◌, ◌/◌, ◌%◌, ◌≤◌, ◌<◌, ◌≡◌, ◌⊎◌, inl, inr, refl, sym, ap, ◌∙◌, List, [], ◌∷◌, ◌++◌,
  map, some, ◌>>=◌, arith, ltb, if◌then◌else◌, drop, length, length-append, drop-append_le,
  drop-drop, u32, u64,
}
use htkis_hyper_disk.Replay.{
  ReplayEntry, entry_memory, ReplayRing, copy_to, Io, entry_of, write_position, write_at, write,
}
use htkis_hyper_disk.Replay.Slots.{length-copy_to}
use htkis_hyper_disk.Replay.Ring.{
  Fits, entries_at, entries_at-nil, entries_at-snoc, entries_at-turn,
}
use htkis_hyper_disk.Replay.Ring.Loop.{mod_in, mod_past}
use htkis_hyper_disk.Replay.Step.{IsWord-Fits, AllWords, run, Inv, Ready, Inv-Ready}

module _ (start k rest : ℕ) (pos : 0 < k) (rest_lt : rest < 33)
    (small : 2 * (33 * k + rest) ≤ 4294967296) where
  over_next :
      (m w o n : ℕ) → m ≡ k → w ≡ n + 1 → o ≡ n - k → (if ltb m w then w - m else o) ≡ n + 1 - k
  over_next m w o n hm hw ho = ground (arith, hm, hw, ho)

  -- the ring that Write leaves, with an entry put at a position of the buffer `b`
  after : ReplayRing → List ℕ → ℕ → ReplayEntry → ReplayRing
  after r b at e = record r {
    buffer = some (copy_to b at (entry_memory e));
    head = u32 (at + 33) % r.capacity;
    write_count = u64 (r.write_count + 1);
    overwrite_count =
        if ltb (r.capacity / 33) (u64 (r.write_count + 1))
        then u64 (r.write_count + 1) - r.capacity / 33
        else r.overwrite_count;
  }

  write_at-after :
      (r : ReplayRing) (b : List ℕ) (at : ℕ) (e : ReplayEntry)
      → r.buffer ≡ some b
      → at + 33 ≤ r.capacity
      → write_at r at e ≡ some (after r b at e)
  unfolding write_at after
  write_at-after r b at e is room = rw is (ground (arith, room))

  module _ (hist : List ReplayEntry) (r : ReplayRing) (b : List ℕ) (d c : ℕ) (e : ReplayEntry)
      (v : Inv start k rest hist r b d) (w : Ready k hist r b c) (fits : Fits e)
      (count_lt : length hist + 1 < 18446744073709551616) where
    open v use {capacity_is, length_is, is_active, start_is, count_is, overwritten_is}
    open w use {place_lt, ready_place, ready_early, ready_late}

    room : 33 * c + 33 ≤ length b
    room = omega arith

    length-snoc : length (hist ++ (e ∷ [])) ≡ length hist + 1
    length-snoc = length-append hist (e ∷ [])

    overwritten :
        (if ltb (r.capacity / 33) (u64 (r.write_count + 1))
          then u64 (r.write_count + 1) - r.capacity / 33
          else r.overwrite_count)
        ≡ length hist + 1 - k
    overwritten =
        over_next (r.capacity / 33) (u64 (r.write_count + 1)) r.overwrite_count (length hist)
          (omega arith) (ap (λ n. u64 (n + 1)) count_is ∙ mod-eq_of_lt count_lt) overwritten_is

    head_next :
        (u32 (33 * c + 33) % r.capacity ≡ 33 * (c + 1))
        ⊎ ((u32 (33 * c + 33) % r.capacity ≡ 0) × (c + 1 ≡ k) × (rest ≡ 0))
    head_next = elim (dec_lt (33 * c + 33) r.capacity) [
      | yes lt ↦ inl (mod_in r.capacity (33 * c + 33) lt (omega arith) ∙ omega arith)
      | no ge ↦ inr (
        mod_past r.capacity (33 * c + 33) (omega arith) (omega arith) (omega arith) ∙ omega arith,
        omega arith,
        omega arith,
      )
    ]

    nothing_lost : length hist < k → 0 ≡ length (hist ++ (e ∷ [])) - k
    nothing_lost lt = omega (arith, length-snoc)

    after-Inv :
        Inv start k rest
          (hist ++ (e ∷ []))
          (after r b (33 * c) e)
          (copy_to b (33 * c) (entry_memory e))
          (c + 1)
    unfolding after
    after-Inv = record {
      buffer_is = refl;
      length_is = length-copy_to b (33 * c) (entry_memory e) room ∙ length_is;
      capacity_is = capacity_is;
      is_active = is_active;
      start_is = start_is;
      count_is = ap (λ n. u64 (n + 1)) count_is ∙ mod-eq_of_lt count_lt ∙ sym length-snoc;
      overwritten_is = overwritten ∙ ap (λ n. n - k) (sym length-snoc);
      place_le = omega arith;
      placed = λ h. omega arith;
      early_place = λ h. omega (arith, length-snoc, ready_place (omega (arith, length-snoc)));
      head_is = head_next;
      early = λ h.
          entries_at-snoc b (33 * c) e room c refl fits
          ∙ ap (λ l. l ++ (e ∷ [])) (ready_early (omega (arith, length-snoc)));
      late = λ h. elim (dec_lt (length hist) k) [
        | yes lt ↦
            ap (λ l. l ++ entries_at (copy_to b (33 * c) (entry_memory e)) 0 (c + 1))
              (entries_at-nil _ (33 * (c + 1)) (k - (c + 1))
                (omega (arith, length-snoc, ready_place lt)))
            ∙ entries_at-snoc b (33 * c) e room c refl fits
            ∙ ap (λ l. l ++ (e ∷ [])) (ready_early lt)
            ∙ ap (λ j. drop j (hist ++ (e ∷ []))) (nothing_lost lt)
        | no ge ↦
            entries_at-turn b (33 * c) e room c k refl place_lt fits
            ∙ ap (λ l. drop 1 (l ++ (e ∷ []))) (ready_late (omega arith))
            ∙ ap (drop 1) (sym (drop-append_le (length hist - k) hist (e ∷ []) (omega arith)))
            ∙ drop-drop 1 (length hist - k) (hist ++ (e ∷ []))
            ∙ ap (λ j. drop j (hist ++ (e ∷ []))) (omega (arith, length-snoc))
      ];
    }

  write-after :
      (hist : List ReplayEntry) (r : ReplayRing) (b : List ℕ) (d c : ℕ) (io : Io)
      → Inv start k rest hist r b d
      → Ready k hist r b c
      → write r io ≡ some (after r b (33 * c) (entry_of start io))
  unfolding write
  write-after hist r b d c io v w =
      ap (λ x. if x then write_at r (write_position r) (entry_of r.record_start io) else some r)
        v.is_active
      ∙ ap (λ q. write_at r q (entry_of r.record_start io)) w.position_is
      ∙ ap (λ s. write_at r (33 * c) (entry_of s io)) v.start_is
      ∙ write_at-after r b (33 * c) (entry_of start io) v.buffer_is (omega arith)

  pub run-Inv :
      (ios : List Io) (hist : List ReplayEntry) (r : ReplayRing) (b : List ℕ) (d : ℕ)
      → Inv start k rest hist r b d
      → AllWords ios
      → length hist + length ios < 18446744073709551616
      → (r' : ReplayRing) × (b' : List ℕ) × (d' : ℕ) × (run ios r ≡ some r')
        × Inv start k rest (hist ++ map (entry_of start) ios) r' b' d'
  unfolding run
  run-Inv [] hist r b d v words lt =
      (r, b, d, refl, subst⁻¹ (λ h. Inv start k rest h r b d) (append-nil hist) v)
  run-Inv (io ∷ ios) hist r b d v words lt =
      let (c, w) = Inv-Ready start k rest pos rest_lt small hist r b d v in
      let e = entry_of start io in
      let v' = after-Inv hist r b d c e v w (IsWord-Fits start io words.0) (omega arith) in
      let (r', b', d', ran, kept) =
        run-Inv ios (hist ++ (e ∷ [])) (after r b (33 * c) e) _ (c + 1) v' words.1
          (omega (arith, length-append hist (e ∷ []))) in
      (
        r',
        b',
        d',
        ap (λ o. o >>= run ios) (write-after hist r b d c io v w) ∙ ran,
        subst (λ h. Inv start k rest h r' b' d')
            (append_assoc hist (e ∷ []) (map (entry_of start) ios)) kept,
      )
