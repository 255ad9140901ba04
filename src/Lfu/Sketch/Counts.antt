-- ===== src/Lfu/Sketch/Counts.antt =====
-- What the sketch counts: each cell holds how many accesses since the last reset fell on it, so an
-- estimate is never below the truth.
use Prim.Native.Nat.{min}
use native.Mathlib.Nat.{mod-lt}
use htkis_hyper_disk.Base.{
  ℕ, zero, suc, ◌+◌, ◌≡◌, ◌<◌, ◌≤◌, refl, sym, ap, ◌∙◌, List, [], ◌∷◌, ltb, ◌==◌, ==_iff, ==-false,
  if◌then◌else◌, get_or, length, replicate, arith, u32, inl, inr, Bool-cases, length-set,
  get_or-set_self, get_or-set_ne, length-replicate,
}
use htkis_hyper_disk.Lfu.Sketch.{
  CountMinSketch, seeds_from, hash, add_cell, add_rows, min_rows, add,
}

-- how often a key is in a list
abbrev pub count : ℕ → List ℕ → ℕ
count key [] = 0
count key (k ∷ ks) = if k == key then suc (count key ks) else count key ks

-- how many keys of a list have the hash i
abbrev pub hits : ℕ → ℕ → ℕ → List ℕ → ℕ
hits width seed i [] = 0
hits width seed i (k ∷ ks) =
    if hash width k seed == i then suc (hits width seed i ks) else hits width seed i ks

pub count-hits :
    (width seed key : ℕ) (ks : List ℕ) → count key ks ≤ hits width seed (hash width key seed) ks
count-hits width seed key [] = omega arith
count-hits width seed key (k ∷ ks) =
    let rest = count-hits width seed key ks in
    elim (Bool-cases (k == key)) [
      | inl e ↦ ground (arith, rest, ap (λ x. hash width x seed) ((==_iff k key).0 e))
      | inr e ↦ ground (arith, rest, e)
    ]

pub hits-length : (width seed i : ℕ) (ks : List ℕ) → hits width seed i ks ≤ length ks
hits-length width seed i [] = omega arith
hits-length width seed i (k ∷ ks) = let rest = hits-length width seed i ks in ground (arith, rest)

unfoldable pub add_all : CountMinSketch → List ℕ → CountMinSketch
add_all s [] = s
add_all s (k ∷ ks) = add_all (add s k 1) ks

abbrev one_hit : ℕ → ℕ → ℕ → ℕ → ℕ
one_hit width k seed i = if hash width k seed == i then 1 else 0

-- Every cell of every row holds what `c` says of the row's seed and the cell's index.
pub data Cells (width : ℕ) (c : ℕ → ℕ → ℕ) : List (List ℕ) → List ℕ → Type 0 where
  no_rows : Cells width c [] []
  row_cells :
      {row : List ℕ} {rows : List (List ℕ)} {seed : ℕ} {seeds : List ℕ}
      → length row ≡ width
      → ((i : ℕ) → get_or row i 0 ≡ (if ltb i width then c seed i else 0))
      → Cells width c rows seeds
      → Cells width c (row ∷ rows) (seed ∷ seeds)

pub hash-bound : (width key seed : ℕ) → 0 < width → hash width key seed < width
unfolding hash
hash-bound width key seed pos = mod-lt _ pos

-- A cell of a row after one access, with j where it falls.
add_cell-cell :
    (row : List ℕ) (j i width : ℕ) (c : ℕ → ℕ)
    → length row ≡ width
    → j < width
    → ((i : ℕ) → c i + 1 < 4294967296)
    → ((i : ℕ) → get_or row i 0 ≡ (if ltb i width then c i else 0))
    → get_or (add_cell row j 1) i 0 ≡ (if ltb i width then c i + (if j == i then 1 else 0) else 0)
add_cell-cell row j i width c len inside few cell = elim (Bool-cases (j == i)) [
  | inl e ↦
      let same = (==_iff j i).0 e in
      ap (λ x. get_or (add_cell row j 1) x 0) (sym same)
      ∙ get_or-set_self row j (u32 (get_or row j 0 + 1)) 0 (omega (arith, len, inside))
      ∙ ap (λ x. u32 (get_or row x 0 + 1)) same
      ∙ ap (λ x. u32 (x + 1)) (cell i)
      ∙ ground (arith, inside, same, few i)
  | inr e ↦
      get_or-set_ne row j i (u32 (get_or row j 0 + 1)) 0 (==-false j i e)
      ∙ cell i
      ∙ ground (arith, ==-false j i e)
]

add_rows-Cells :
    (width k : ℕ) (c : ℕ → ℕ → ℕ) (rows : List (List ℕ)) (seeds : List ℕ)
    → 0 < width
    → ((seed i : ℕ) → c seed i + 1 < 4294967296)
    → Cells width c rows seeds
    → Cells width
        (λ seed i. c seed i + one_hit width k seed i)
        (add_rows width k 1 rows seeds)
        seeds
add_rows-Cells width k c [] [] pos few no_rows = no_rows
add_rows-Cells width k c [] (seed ∷ seeds) pos few cells = elim cells [ ]
add_rows-Cells width k c (row ∷ rows) [] pos few cells = elim cells [ ]
add_rows-Cells width k c (row ∷ rows) (seed ∷ seeds) pos few (row_cells len cell more) =
    row_cells
      (length-set row (hash width k seed) (u32 (get_or row (hash width k seed) 0 + 1)) ∙ len)
      (λ i.
        add_cell-cell row (hash width k seed) i width (c seed) len (hash-bound width k seed pos)
          (few seed) cell)
      (add_rows-Cells width k c rows seeds pos few more)

-- The estimate is the least of the cells that the key falls on, which all count it.
pub min_rows-least :
    (width key n min_val : ℕ) (c : ℕ → ℕ → ℕ) (rows : List (List ℕ)) (seeds : List ℕ)
    → 0 < width
    → n ≤ min_val
    → ((seed : ℕ) → n ≤ c seed (hash width key seed))
    → Cells width c rows seeds
    → n ≤ min_rows width key min_val rows seeds
min_rows-least width key n min_val c [] seeds pos le least cells = le
min_rows-least width key n min_val c (row ∷ rows) [] pos le least cells = le
min_rows-least width key n min_val c (row ∷ rows) (seed ∷ seeds) pos le least
      (row_cells len cell more) =
    min_rows-least width key n (min min_val (get_or row (hash width key seed) 0)) c rows seeds pos
      (ground (arith, le, cell (hash width key seed), hash-bound width key seed pos, least seed))
      least more

min_rows-le :
    (width key min_val : ℕ) (rows : List (List ℕ)) (seeds : List ℕ)
    → min_rows width key min_val rows seeds ≤ min_val
min_rows-le width key min_val [] seeds = omega arith
min_rows-le width key min_val (row ∷ rows) [] = omega arith
min_rows-le width key min_val (row ∷ rows) (seed ∷ seeds) =
    let least =
      min_rows-le width key (min min_val (get_or row (hash width key seed) 0)) rows seeds in
    omega (arith, least)

pub min_rows-first :
    (width key min_val : ℕ) (row : List ℕ) (rows : List (List ℕ)) (seed : ℕ) (seeds : List ℕ)
    → min_rows width key min_val (row ∷ rows) (seed ∷ seeds) ≤ get_or row (hash width key seed) 0
min_rows-first width key min_val row rows seed seeds =
    let least =
      min_rows-le width key (min min_val (get_or row (hash width key seed) 0)) rows seeds in
    omega (arith, least)

Cells-ext :
    {width : ℕ} {c c' : ℕ → ℕ → ℕ} {rows : List (List ℕ)} {seeds : List ℕ}
    → ((seed i : ℕ) → c seed i ≡ c' seed i)
    → Cells width c rows seeds
    → Cells width c' rows seeds
Cells-ext {width} {rows = rows} {seeds = seeds} e cells =
    coe 0 1 (j. Cells width (λ seed i. e seed i j) rows seeds) cells

abbrev zeros : ℕ → List ℕ
zeros n = replicate n 0

get_or-zeros : (n i : ℕ) → get_or (zeros n) i 0 ≡ zero
get_or-zeros zero i = refl
get_or-zeros (suc n) zero = refl
get_or-zeros (suc n) (suc i) = get_or-zeros n i

pub zero-Cells :
    (width i depth : ℕ)
    → Cells width (λ seed j. 0) (replicate depth (replicate width 0)) (seeds_from i depth)
zero-Cells width i zero = no_rows
zero-Cells width i (suc depth) =
    row_cells (length-replicate {A = ℕ} width 0) (λ j. get_or-zeros width j ∙ ground arith)
      (zero-Cells width (suc i) depth)

pub add_all-Cells :
    (s : CountMinSketch) (c : ℕ → ℕ → ℕ) (n : ℕ) (ks : List ℕ)
    → 0 < s.width
    → ((seed i : ℕ) → c seed i ≤ n)
    → n + length ks < 4294967296
    → Cells s.width c s.table s.seeds
    → Cells s.width (λ seed i. c seed i + hits s.width seed i ks) (add_all s ks).table s.seeds
unfolding add_all add
add_all-Cells s c n [] pos le few cells = Cells-ext (λ seed i. omega arith) cells
add_all-Cells s c n (k ∷ ks) pos le few cells =
    Cells-ext (λ seed i. ground arith)
      (add_all-Cells (add s k 1) (λ seed i. c seed i + one_hit s.width k seed i) (n + 1) ks pos
        (λ seed i. ground (arith, le seed i)) (omega (arith, few))
        (add_rows-Cells s.width k c s.table s.seeds pos (λ seed i. omega (arith, le seed i, few))
          cells))
