-- ===== src/Lfu/Sketch/Periods.antt =====
-- TinyLFU over its periods: after as many accesses as the threshold says everything is forgotten, and
-- what came since is estimated from above.
use mathlib.Core.Path.{subst⁻¹}
use native.Mathlib.Nat.{suc-mul}
use htkis_hyper_disk.Base.{
  ℕ, zero, suc, ◌+◌, ◌*◌, ◌≡◌, ◌<◌, ◌≤◌, refl, sym, ap, ◌∙◌, true, false, List, [], ◌∷◌, ◌++◌, leb,
  if◌then◌else◌, length, replicate, map, arith, u32, u64, take, drop, take-drop, length-set,
  length-take, length-drop, length-replicate, get_or,
}
use htkis_hyper_disk.Lfu.Sketch.{
  zero_row, CountMinSketch, seeds_from, new_sketch, hash, add_rows, min_rows, add, estimate, reset,
  TinyLfu, new_tinylfu, reset_tinylfu, access,
}
use htkis_hyper_disk.Lfu.Sketch.Counts.{
  count, hits, count-hits, hits-length, hash-bound, add_all, Cells, row_cells, zero-Cells,
  add_all-Cells, min_rows-least, min_rows-first,
}

pub access_all : TinyLfu → List ℕ → TinyLfu
access_all t [] = t
access_all t (k ∷ ks) = access_all (access t k) ks

access_all-append :
    (t : TinyLfu) (ks ls : List ℕ) → access_all t (ks ++ ls) ≡ access_all (access_all t ks) ls
unfolding access_all
access_all-append t [] ls = refl
access_all-append t (k ∷ ks) ls = access_all-append (access t k) ks ls

abbrev zeros : ℕ → List ℕ
zeros n = replicate n 0

zero_rows-add_rows :
    (width key n : ℕ) (rows : List (List ℕ)) (seeds : List ℕ)
    → map zero_row (add_rows width key n rows seeds) ≡ map zero_row rows
zero_rows-add_rows width key n [] seeds = refl
zero_rows-add_rows width key n (row ∷ rows) [] = refl
zero_rows-add_rows width key n (row ∷ rows) (seed ∷ seeds) = λ i.
    zeros (length-set row (hash width key seed) (u32 (get_or row (hash width key seed) 0 + n)) i)
    ∷ zero_rows-add_rows width key n rows seeds i

-- An access before a reset leaves no trace.
reset-add : (s : CountMinSketch) (k n : ℕ) → reset (add s k n) ≡ reset s
unfolding reset add
reset-add s k n = ap (λ t. record s { table = t }) (zero_rows-add_rows s.width k n s.table s.seeds)

zero_rows-replicate :
    (width depth : ℕ) → map zero_row (replicate depth (zeros width)) ≡ replicate depth (zeros width)
zero_rows-replicate width zero = refl
zero_rows-replicate width (suc depth) =
    λ i. zeros (length-replicate {A = ℕ} width 0 i) ∷ zero_rows-replicate width depth i

reset-new : (width depth : ℕ) → reset (new_sketch width depth) ≡ new_sketch width depth
unfolding reset new_sketch
reset-new width depth =
    ap (λ t. record { width = width; table = t; seeds = seeds_from 0 depth })
      (zero_rows-replicate width depth)

wrapped : (n : ℕ) → n + 1 < 4294967297 → u64 (n + 1) ≡ n + 1
wrapped n h = omega (arith, h)

lt→leb-false : (a b : ℕ) → b < a → leb a b ≡ false
lt→leb-false a b h = ground (arith, h)

eq→leb : (a b : ℕ) → b ≡ a → leb a b ≡ true
eq→leb a b h = ground (arith, h)

abbrev seen : TinyLfu → ℕ → ℕ → TinyLfu
seen t k n = record t { cm = add t.cm k 1; total_access = n }

abbrev choose : TinyLfu → ℕ → ℕ → TinyLfu
choose t k n = if leb t.reset_threshold n then reset_tinylfu (seen t k n) else seen t k n

access_below :
    (t : TinyLfu) (k : ℕ)
    → t.total_access + 1 < t.reset_threshold
    → t.reset_threshold < 4294967296
    → access t k ≡ record t { cm = add t.cm k 1; total_access = t.total_access + 1 }
unfolding access
access_below t k below small =
    ap (choose t k) (wrapped t.total_access (omega (arith, below, small)))
    ∙ ap
        (λ b.
          if b
          then reset_tinylfu (seen t k (t.total_access + 1))
          else seen t k (t.total_access + 1))
        (lt→leb-false t.reset_threshold (t.total_access + 1) below)

access_full :
    (t : TinyLfu) (k : ℕ)
    → t.total_access + 1 ≡ t.reset_threshold
    → t.reset_threshold < 4294967296
    → access t k ≡ record t { cm = reset t.cm; total_access = 0 }
unfolding access reset_tinylfu
access_full t k full small =
    ap (choose t k) (wrapped t.total_access (omega (arith, full, small)))
    ∙ ap
        (λ b.
          if b
          then reset_tinylfu (seen t k (t.total_access + 1))
          else seen t k (t.total_access + 1))
        (eq→leb t.reset_threshold (t.total_access + 1) full)
    ∙ ap (λ s. record t { cm = s; total_access = 0 }) (reset-add t.cm k 1)

access_all-below :
    (t : TinyLfu) (ks : List ℕ)
    → t.total_access + length ks < t.reset_threshold
    → t.reset_threshold < 4294967296
    → access_all t ks ≡ record t { cm = add_all t.cm ks; total_access = t.total_access + length ks }
unfolding access_all add_all
access_all-below t [] below small = ap (λ n. record t { total_access = n }) (omega arith)
access_all-below t (k ∷ ks) below small =
    ap (λ u. access_all u ks) (access_below t k (omega (arith, below)) small)
    ∙ access_all-below (record t { cm = add t.cm k 1; total_access = t.total_access + 1 }) ks
        (omega (arith, below)) small
    ∙ ap (λ n. record t { cm = add_all (add t.cm k 1) ks; total_access = n }) (omega arith)

-- The accesses up to the threshold end in a reset.
access_all-full :
    (t : TinyLfu) (ks : List ℕ)
    → t.total_access < t.reset_threshold
    → t.total_access + length ks ≡ t.reset_threshold
    → t.reset_threshold < 4294967296
    → access_all t ks ≡ record t { cm = reset t.cm; total_access = 0 }
unfolding access_all
access_all-full t [] before full small = absurd (omega (arith, before, full))
access_all-full t (k ∷ []) before full small = access_full t k (omega (arith, full)) small
access_all-full t (k ∷ k' ∷ ks) before full small =
    ap (λ u. access_all u (k' ∷ ks)) (access_below t k (omega (arith, full)) small)
    ∙ access_all-full (record t { cm = add t.cm k 1; total_access = t.total_access + 1 }) (k' ∷ ks)
        (omega (arith, full)) (omega (arith, full)) small
    ∙ ap (λ s. record t { cm = s; total_access = 0 }) (reset-add t.cm k 1)

periods :
    (t : TinyLfu) (m : ℕ) (ks : List ℕ)
    → t.total_access ≡ 0
    → reset t.cm ≡ t.cm
    → 0 < t.reset_threshold
    → t.reset_threshold < 4294967296
    → length ks ≡ m * t.reset_threshold
    → access_all t ks ≡ t
unfolding access_all
periods t zero [] start clean pos small len = refl
periods t zero (k ∷ ks) start clean pos small len = absurd (omega (arith, len))
periods t (suc m) ks start clean pos small len =
    let n = t.reset_threshold in
    let size : length ks ≡ n + m * n = omega (arith, len, suc-mul m n) in
    ap (access_all t) (sym (take-drop n ks))
    ∙ access_all-append t (take n ks) (drop n ks)
    ∙ ap (λ u. access_all u (drop n ks))
        (access_all-full t (take n ks) (omega (arith, start, pos))
            (omega (arith, start, length-take n ks, size)) small
          ∙ λ i. record t { cm = clean i; total_access = sym start i })
    ∙ periods t m (drop n ks) start clean pos small (omega (arith, length-drop n ks, size))

rows-counts :
    (width key seed : ℕ) (ks seeds : List ℕ) (rows : List (List ℕ))
    → 0 < width
    → length ks < 4294967295
    → Cells width (λ seed i. 0 + hits width seed i ks) rows (seed ∷ seeds)
    → (count key ks ≤ min_rows width key 4294967295 rows (seed ∷ seeds))
      × (min_rows width key 4294967295 rows (seed ∷ seeds) ≤ length ks)
rows-counts width key seed ks seeds [] pos few cells = elim cells [ ]
rows-counts width key seed ks seeds (row ∷ rows) pos few (row_cells len cell more) =
    let inside = hash-bound width key seed pos in
    let le = λ (s : ℕ). count-hits width s key ks in
    let short = hits-length width seed (hash width key seed) ks in
    (
      min_rows-least width key (count key ks) 4294967295 (λ s i. 0 + hits width s i ks) (row ∷ rows)
          (seed ∷ seeds) pos (omega (arith, le seed, short, few)) (λ s. omega (arith, le s))
          (row_cells len cell more),
      first_cell (min_rows-first width key 4294967295 row rows seed seeds)
          (cell (hash width key seed) ∙ ground (arith, inside)) short,
    )
  where
    first_cell : {a b c d : ℕ} → a ≤ b → b ≡ c → c ≤ d → a ≤ d
    first_cell h e g = omega (arith, h, e, g)

add_all-table :
    (s : CountMinSketch) (ks : List ℕ) → add_all s ks ≡ record s { table = (add_all s ks).table }
unfolding add_all add
add_all-table s [] = refl
add_all-table s (k ∷ ks) = add_all-table (add s k 1) ks

estimate-counts :
    (width depth key : ℕ) (ks : List ℕ)
    → 0 < width
    → 0 < depth
    → length ks < 4294967295
    → (count key ks ≤ estimate (add_all (new_sketch width depth) ks) key)
      × (estimate (add_all (new_sketch width depth) ks) key ≤ length ks)
unfolding estimate new_sketch
estimate-counts width zero key ks pos rows few = absurd (omega (arith, rows))
estimate-counts width (suc depth) key ks pos rows few =
    let s = new_sketch width (suc depth) in
    subst⁻¹ (λ u. (count key ks ≤ estimate u key) × (estimate u key ≤ length ks))
      (add_all-table s ks)
      (rows-counts width key (u32 (2654435761 * (0 + 1))) ks (seeds_from 1 depth)
        (add_all s ks).table pos few
        (add_all-Cells s (λ seed i. 0) 0 ks pos (λ seed i. omega arith) (omega (arith, few))
          (zero-Cells width 0 (suc depth))))

-- For a sketch of at least one row and one column and a capacity whose tenfold is at least 1 and below
-- 2 ^ 32: after any whole number of periods of ten times the capacity accesses and then fewer accesses
-- than a period has, the estimate of a key is at least the number of its accesses since the last
-- period ended, and at most the number of all accesses since then. What came before does not matter.
pub access_all-estimate :
    (capacity width depth m key : ℕ) (olds news : List ℕ)
    → 0 < width
    → 0 < depth
    → 0 < capacity
    → capacity * 10 < 4294967296
    → length olds ≡ m * (capacity * 10)
    → length news < capacity * 10
    → let t = access_all (new_tinylfu capacity width depth) (olds ++ news) in
      (count key news ≤ estimate t.cm key) × (estimate t.cm key ≤ length news)
unfolding new_tinylfu
access_all-estimate capacity width depth m key olds news columns rows pos small whole part =
    let t = new_tinylfu capacity width depth in
    let threshold : t.reset_threshold ≡ capacity * 10 = omega (arith, small) in
    let after =
      access_all-append t olds news
      ∙ ap (λ u. access_all u news)
          (periods t m olds refl (reset-new width depth) (omega (arith, pos, small))
            (omega (arith, small)) (whole ∙ ap (λ n. m * n) (sym threshold)))
      ∙ access_all-below t news (omega (arith, part, small)) (omega (arith, small)) in
    subst⁻¹ (λ u. (count key news ≤ estimate u.cm key) × (estimate u.cm key ≤ length news)) after
      (estimate-counts width depth key news columns rows (omega (arith, part, small)))
