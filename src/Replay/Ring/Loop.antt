-- ===== src/Replay/Ring/Loop.antt =====
-- The loop of GetAllEntries: what it reads inside the buffer, behind its end and in its last bytes.
use native.Mathlib.Nat.{mod-eq_of_lt, mod-eq-sub-mod}
use htkis_hyper_disk.Base.{
  ℕ, zero, suc, ◌+◌, ◌-◌, ◌*◌, ◌%◌, ◌≤◌, ◌<◌, ◌≡◌, refl, ap, ◌∙◌, List, ◌∷◌, ◌++◌, Option, none,
  some, arith, ltb, if◌then◌else◌, take, drop, u32,
}
use htkis_hyper_disk.Replay.{ReplayEntry, load_entry, read_entries_loop}
use htkis_hyper_disk.Replay.Ring.{entries_at}

-- a round of the loop that reads at `pos`, and what the rounds behind it give
round : List ℕ → ℕ → ℕ → Option (List ReplayEntry) → Option (List ReplayEntry)
round b cap pos rest =
    if ltb cap (pos + 33)
    then none
    else elim rest [ none ↦ none | some es ↦ some (load_entry (take 33 (drop pos b)) ∷ es) ]

round-in :
    (b : List ℕ) (cap pos : ℕ) (es : List ReplayEntry)
    → pos + 33 ≤ cap
    → round b cap pos (some es) ≡ some (load_entry (take 33 (drop pos b)) ∷ es)
unfolding round
round-in b cap pos es h = ground (arith, h)

round-out :
    (b : List ℕ) (cap pos : ℕ) (rest : Option (List ReplayEntry))
    → cap < pos + 33
    → round b cap pos rest ≡ none
unfolding round
round-out b cap pos rest h = ground (arith, h)

round-none : (b : List ℕ) (cap pos : ℕ) → round b cap pos none ≡ none
unfolding round
round-none b cap pos = ground arith

pub mod_in : (cap x : ℕ) → x < cap → cap ≤ 4294967296 → u32 x % cap ≡ x
mod_in cap x h small = ap (λ y. y % cap) (mod-eq_of_lt (omega arith)) ∙ mod-eq_of_lt h

pub mod_past : (cap x : ℕ) → cap ≤ x → x < 2 * cap → 2 * cap ≤ 4294967296 → u32 x % cap ≡ x - cap
mod_past cap x h lt small =
    ap (λ y. y % cap) (mod-eq_of_lt (omega arith)) ∙ mod-eq-sub-mod h ∙ mod-eq_of_lt (omega arith)

module _ (b : List ℕ) (cap start : ℕ) (small : 2 * cap ≤ 4294967296) where
  loop-round :
      (i n : ℕ)
      → read_entries_loop b cap start i (suc n)
        ≡ round b cap (u32 (start + i * 33) % cap) (read_entries_loop b cap start (i + 1) n)
  unfolding read_entries_loop round
  loop-round i n = refl

  pub read-in :
      (i n : ℕ)
      → start + 33 * (i + n) ≤ cap
      → read_entries_loop b cap start i n ≡ some (entries_at b (start + 33 * i) n)
  unfolding read_entries_loop entries_at
  read-in i zero h = refl
  read-in i (suc n) h =
      loop-round i n
      ∙ ap (λ r. round b cap (u32 (start + i * 33) % cap) r) (read-in (i + 1) n (omega arith))
      ∙ ap (λ q. round b cap q (some (entries_at b (start + 33 * (i + 1)) n))) at
      ∙ round-in b cap (start + 33 * i) _ (omega arith)
      ∙ ap (λ q. some (load_entry (take 33 (drop (start + 33 * i) b)) ∷ entries_at b q n))
          (omega arith)
    where
      at : u32 (start + i * 33) % cap ≡ start + 33 * i
      at = mod_in cap (start + i * 33) (omega arith) (omega arith) ∙ omega arith

  -- the rounds behind the buffer's end, which begin at its start again
  pub read-past :
      (i n : ℕ)
      → cap ≤ start + 33 * i
      → start + 33 * (i + n) ≤ 2 * cap
      → read_entries_loop b cap start i n ≡ some (entries_at b (start + 33 * i - cap) n)
  unfolding read_entries_loop entries_at
  read-past i zero p h = refl
  read-past i (suc n) p h =
      loop-round i n
      ∙ ap (λ r. round b cap (u32 (start + i * 33) % cap) r)
          (read-past (i + 1) n (omega arith) (omega arith))
      ∙ ap (λ q. round b cap q (some (entries_at b (start + 33 * (i + 1) - cap) n))) at
      ∙ round-in b cap (start + 33 * i - cap) _ (omega arith)
      ∙ ap (λ q. some (load_entry (take 33 (drop (start + 33 * i - cap) b)) ∷ entries_at b q n))
          (omega arith)
    where
      at : u32 (start + i * 33) % cap ≡ start + 33 * i - cap
      at = mod_past cap (start + i * 33) (omega arith) (omega arith) small ∙ omega arith

  -- m rounds up to the buffer's end, and n behind it
  pub read-turn :
      (i m n : ℕ)
      → start + 33 * (i + m) ≡ cap
      → 33 * n ≤ cap
      → read_entries_loop b cap start i (m + n)
        ≡ some (entries_at b (start + 33 * i) m ++ entries_at b 0 n)
  unfolding entries_at
  read-turn i zero n e h =
      ap (read_entries_loop b cap start i) (omega arith)
      ∙ read-past i n (omega arith) (omega arith)
      ∙ ap (λ q. some (entries_at b q n)) (omega arith)
  read-turn i (suc m) n e h =
      ap (read_entries_loop b cap start i) more
      ∙ loop-round i (m + n)
      ∙ ap (λ r. round b cap (u32 (start + i * 33) % cap) r) (read-turn (i + 1) m n (omega arith) h)
      ∙ ap (λ q. round b cap q (some (entries_at b (start + 33 * (i + 1)) m ++ entries_at b 0 n)))
          at
      ∙ round-in b cap (start + 33 * i) _ (omega arith)
      ∙ ap
          (λ q. some (
            load_entry (take 33 (drop (start + 33 * i) b))
            ∷ (entries_at b q m ++ entries_at b 0 n)))
          (omega arith)
    where
      more : suc m + n ≡ suc (m + n)
      more = omega arith

      at : u32 (start + i * 33) % cap ≡ start + 33 * i
      at = mod_in cap (start + i * 33) (omega arith) (omega arith) ∙ omega arith

  -- a round that begins in the last bytes, too few for an entry
  pub read-out :
      (i m n : ℕ)
      → start + 33 * (i + m) < cap
      → cap < start + 33 * (i + m) + 33
      → read_entries_loop b cap start i (m + suc n) ≡ none
  read-out i zero n lt gt =
      ap (read_entries_loop b cap start i) zero-add
      ∙ loop-round i n
      ∙ ap (λ q. round b cap q (read_entries_loop b cap start (i + 1) n)) at
      ∙ round-out b cap (start + 33 * i) _ (omega arith)
    where
      zero-add : zero + suc n ≡ suc n
      zero-add = omega arith

      at : u32 (start + i * 33) % cap ≡ start + 33 * i
      at = mod_in cap (start + i * 33) (omega arith) (omega arith) ∙ omega arith
  read-out i (suc m) n lt gt =
      ap (read_entries_loop b cap start i) more
      ∙ loop-round i (m + suc n)
      ∙ ap (λ r. round b cap (u32 (start + i * 33) % cap) r)
          (read-out (i + 1) m n (omega arith) (omega arith))
      ∙ round-none b cap _
    where
      more : suc m + suc n ≡ suc (m + suc n)
      more = omega arith
