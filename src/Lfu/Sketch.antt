-- ===== src/Lfu/Sketch.antt =====
-- w_tinylfu.cpp: CountMinSketch, which estimates how often a key was seen, and TinyLFU, which empties it
-- after ten accesses for each place of the cache.
pub mod Counts
pub mod Periods
use Prim.Native.Nat.{bit_xor, min}
use htkis_hyper_disk.Base.{
  ℕ, zero, suc, ◌+◌, ◌*◌, ◌/◌, ◌%◌, List, [], ◌∷◌, leb, if◌then◌else◌, get_or, set, length,
  replicate, map, u32, u64,
}

-- The members; the rows of `table` belong to the seeds in their order.
pub record CountMinSketch : Type 0 where
  pub width : ℕ
  pub table : List (List ℕ)
  pub seeds : List ℕ

-- the seeds from the index i on
abbrev pub seeds_from : ℕ → ℕ → List ℕ
seeds_from i zero = []
seeds_from i (suc n) = u32 (2654435761 * (i + 1)) ∷ seeds_from (suc i) n

-- the constructor
pub new_sketch : ℕ → ℕ → CountMinSketch
new_sketch width depth = record {
  width = width;
  table = replicate depth (replicate width 0);
  seeds = seeds_from 0 depth;
}

-- Hash, for a width that is not 0
pub hash : ℕ → ℕ → ℕ → ℕ
hash width key seed =
    let h = bit_xor key seed in
    let h' = u64 (bit_xor (h / 65536) h * 73244475) in
    let h'' = u64 (bit_xor (h' / 65536) h' * 73244475) in bit_xor (h'' / 65536) h'' % width

abbrev pub add_cell : List ℕ → ℕ → ℕ → List ℕ
add_cell row i count = set row i (u32 (get_or row i 0 + count))

-- the loops of Add and of Estimate over the rows
abbrev pub add_rows : ℕ → ℕ → ℕ → List (List ℕ) → List ℕ → List (List ℕ)
add_rows width key count [] seeds = []
add_rows width key count (row ∷ rows) [] = row ∷ rows
add_rows width key count (row ∷ rows) (seed ∷ seeds) =
    add_cell row (hash width key seed) count ∷ add_rows width key count rows seeds

abbrev pub min_rows : ℕ → ℕ → ℕ → List (List ℕ) → List ℕ → ℕ
min_rows width key min_val [] seeds = min_val
min_rows width key min_val (row ∷ rows) [] = min_val
min_rows width key min_val (row ∷ rows) (seed ∷ seeds) =
    min_rows width key (min min_val (get_or row (hash width key seed) 0)) rows seeds

-- Add
pub add : CountMinSketch → ℕ → ℕ → CountMinSketch
add s key count = record s { table = add_rows s.width key count s.table s.seeds }

-- Estimate
pub estimate : CountMinSketch → ℕ → ℕ
estimate s key = min_rows s.width key 4294967295 s.table s.seeds

abbrev pub zero_row : List ℕ → List ℕ
zero_row row = replicate (length row) 0

-- Reset
pub reset : CountMinSketch → CountMinSketch
reset s = record s { table = map zero_row s.table }

pub record TinyLfu : Type 0 where
  pub cm : CountMinSketch
  pub total_access : ℕ
  pub reset_threshold : ℕ

-- the constructor
pub new_tinylfu : ℕ → ℕ → ℕ → TinyLfu
new_tinylfu capacity cm_width cm_depth = record {
  cm = new_sketch cm_width cm_depth;
  total_access = 0;
  reset_threshold = u32 (capacity * 10);
}

-- TinyLFU::Reset
pub reset_tinylfu : TinyLfu → TinyLfu
reset_tinylfu t = record t { cm = reset t.cm; total_access = 0 }

-- Access
pub access : TinyLfu → ℕ → TinyLfu
access t key =
    let seen = record t { cm = add t.cm key 1; total_access = u64 (t.total_access + 1) } in
    if leb t.reset_threshold seen.total_access then reset_tinylfu seen else seen
