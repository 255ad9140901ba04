-- ===== src/Replay/Report/Counts.antt =====
-- What Parse counts and which bounds it gives.
use Prim.Native.Nat.{min, max}
use native.Mathlib.Decide.{dec_lt}
use native.Mathlib.Nat.{mod-eq_of_lt}
use htkis_hyper_disk.Base.{
  ℕ, suc, ◌+◌, ◌≤◌, ◌<◌, ◌≡◌, ◌⊎◌, inl, inr, refl, ◌∙◌, Bool, true, false, List, [], ◌∷◌, arith,
  ◌==◌, if◌then◌else◌, length, u32,
}
use htkis_hyper_disk.Replay.{ReplayEntry}
use htkis_hyper_disk.Replay.Report.{
  ParseResult, empty_result, u64_max, count_status, parse_entry, parse_loop, parse,
}

-- how many entries have a status, and what lies between two bounds
pub statuses : ℕ → List ReplayEntry → ℕ
statuses s [] = 0
statuses s (e ∷ es) = (if e.status == s then 1 else 0) + statuses s es

abbrev pub Between : ℕ → ℕ → ℕ → List ReplayEntry → Type 0
Between low high late [] = Unit
Between low high late (e ∷ es) =
    ((low ≤ e.lba) × (e.lba ≤ high) × (e.timestamp_ms ≤ late)) × Between low high late es

abbrev pub Reaches : ℕ → List ReplayEntry → Type 0
Reaches x [] = ⊥
Reaches x (e ∷ es) = (x ≡ e.lba) ⊎ Reaches x es

-- what the loop leaves of the result r
record Counted (r : ParseResult) (es : List ReplayEntry) (t : ParseResult) : Type 0 where
  kept : t.entry_count ≡ r.entry_count
  success : t.success_count ≡ r.success_count + statuses 0 es
  timeout : t.timeout_count ≡ r.timeout_count + statuses 1 es
  error : t.error_count ≡ r.error_count + statuses 2 es
  retry : t.retry_count ≡ r.retry_count + statuses 3 es
  low_le : t.lba_min ≤ r.lba_min
  high_le : r.lba_max ≤ t.lba_max
  late_le : r.time_range_ms ≤ t.time_range_ms
  between : Between t.lba_min t.lba_max t.time_range_ms es
  low_reached : (t.lba_min ≡ r.lba_min) ⊎ Reaches t.lba_min es
  high_reached : (t.lba_max ≡ r.lba_max) ⊎ Reaches t.lba_max es

record Step (r : ParseResult) (e : ReplayEntry) (t : ParseResult) : Type 0 where
  kept : t.entry_count ≡ r.entry_count
  success : t.success_count ≡ r.success_count + (if e.status == 0 then 1 else 0)
  timeout : t.timeout_count ≡ r.timeout_count + (if e.status == 1 then 1 else 0)
  error : t.error_count ≡ r.error_count + (if e.status == 2 then 1 else 0)
  retry : t.retry_count ≡ r.retry_count + (if e.status == 3 then 1 else 0)
  low : t.lba_min ≡ min r.lba_min e.lba
  high : t.lba_max ≡ max r.lba_max e.lba
  late : t.time_range_ms ≡ max r.time_range_ms e.timestamp_ms

abbrev Room : ParseResult → ℕ → Type 0
Room r n =
    (r.success_count + n < 4294967296)
    × (r.timeout_count + n < 4294967296)
    × (r.error_count + n < 4294967296)
    × (r.retry_count + n < 4294967296)

nothing_added : (n k : ℕ) → n ≡ n + statuses k []
unfolding statuses
nothing_added n k = omega arith

parse_entry-Step : (r : ParseResult) (e : ReplayEntry) → Room r 1 → Step r e (parse_entry r e)
unfolding parse_entry count_status
parse_entry-Step r e room = ground arith

bit-le_one : (b : Bool) → (if b then 1 else 0) ≤ 1
bit-le_one true = omega arith
bit-le_one false = omega arith

min-cases : (a b : ℕ) → (min a b ≡ a) ⊎ (min a b ≡ b)
min-cases a b = elim (dec_lt a b) [ yes lt ↦ inl (omega arith) | no ge ↦ inr (omega arith) ]

max-cases : (a b : ℕ) → (max a b ≡ a) ⊎ (max a b ≡ b)
max-cases a b = elim (dec_lt a b) [ yes lt ↦ inr (omega arith) | no ge ↦ inl (omega arith) ]

-- a bound of the rest is a bound of the whole, or it is reached
reach :
    (t old new : ℕ) (e : ReplayEntry) (es : List ReplayEntry)
    → (new ≡ old) ⊎ (new ≡ e.lba)
    → (t ≡ new) ⊎ Reaches t es
    → (t ≡ old) ⊎ Reaches t (e ∷ es)
reach t old new e es (inl a) (inl b) = inl (b ∙ a)
reach t old new e es (inr a) (inl b) = inr (inl (b ∙ a))
reach t old new e es c (inr b) = inr (inr b)

module _ (r t : ParseResult) (e : ReplayEntry) (es : List ReplayEntry)
    (s : Step r e (parse_entry r e)) (c : Counted (parse_entry r e) es t) where
  cons-Counted : Counted r (e ∷ es) t
  unfolding statuses
  cons-Counted = record {
    kept = c.kept ∙ s.kept;
    success = omega (arith, c.success, s.success);
    timeout = omega (arith, c.timeout, s.timeout);
    error = omega (arith, c.error, s.error);
    retry = omega (arith, c.retry, s.retry);
    low_le = omega (arith, c.low_le, s.low);
    high_le = omega (arith, c.high_le, s.high);
    late_le = omega (arith, c.late_le, s.late);
    between = (
      (
        omega (arith, c.low_le, s.low),
        omega (arith, c.high_le, s.high),
        omega (arith, c.late_le, s.late),
      ),
      c.between,
    );
    low_reached =
        reach t.lba_min r.lba_min _ e es (low_from (min-cases r.lba_min e.lba)) c.low_reached;
    high_reached =
        reach t.lba_max r.lba_max _ e es (high_from (max-cases r.lba_max e.lba)) c.high_reached;
  }
    where
      low_from :
          (min r.lba_min e.lba ≡ r.lba_min) ⊎ (min r.lba_min e.lba ≡ e.lba)
          → ((parse_entry r e).lba_min ≡ r.lba_min) ⊎ ((parse_entry r e).lba_min ≡ e.lba)
      low_from (inl a) = inl (s.low ∙ a)
      low_from (inr a) = inr (s.low ∙ a)

      high_from :
          (max r.lba_max e.lba ≡ r.lba_max) ⊎ (max r.lba_max e.lba ≡ e.lba)
          → ((parse_entry r e).lba_max ≡ r.lba_max) ⊎ ((parse_entry r e).lba_max ≡ e.lba)
      high_from (inl a) = inl (s.high ∙ a)
      high_from (inr a) = inr (s.high ∙ a)

Room-step : (r t : ParseResult) (e : ReplayEntry) (n : ℕ) → Step r e t → Room r (suc n) → Room t n
Room-step r t e n s room = (
  omega (arith, room, s.success, bit-le_one (e.status == 0)),
  omega (arith, room, s.timeout, bit-le_one (e.status == 1)),
  omega (arith, room, s.error, bit-le_one (e.status == 2)),
  omega (arith, room, s.retry, bit-le_one (e.status == 3)),
)

parse_loop-Counted :
    (r : ParseResult) (es : List ReplayEntry) → Room r (length es) → Counted r es (parse_loop r es)
unfolding parse_loop
parse_loop-Counted r [] room = record {
  kept = refl;
  success = nothing_added r.success_count 0;
  timeout = nothing_added r.timeout_count 1;
  error = nothing_added r.error_count 2;
  retry = nothing_added r.retry_count 3;
  low_le = omega arith;
  high_le = omega arith;
  late_le = omega arith;
  between = tt;
  low_reached = inl refl;
  high_reached = inl refl;
}
parse_loop-Counted r (e ∷ es) room =
    let s = parse_entry-Step r e (omega (arith, room)) in
    cons-Counted r (parse_loop (parse_entry r e) es) e es s
      (parse_loop-Counted (parse_entry r e) es (Room-step r (parse_entry r e) e (length es) s room))

-- What Parse says of the entries of a file.
pub record Summary (es : List ReplayEntry) (t : ParseResult) : Type 0 where
  pub entry_count_is : t.entry_count ≡ length es
  pub success_count_is : t.success_count ≡ statuses 0 es
  pub timeout_count_is : t.timeout_count ≡ statuses 1 es
  pub error_count_is : t.error_count ≡ statuses 2 es
  pub retry_count_is : t.retry_count ≡ statuses 3 es
  pub bounds : Between t.lba_min t.lba_max t.time_range_ms es
  pub lba_min_is : Reaches t.lba_min es
  pub lba_max_is : Reaches t.lba_max es

-- For one entry or more, fewer than 2 ^ 32, the first of which has an address of 64 bits, Parse gives
-- the number of the entries and of those with each of the four statuses; the smallest and the largest
-- address that occur, between which all lie; and a time range that no time stamp exceeds.
pub parse-Summary :
    (e : ReplayEntry) (es : List ReplayEntry)
    → suc (length es) < 4294967296
    → e.lba ≤ u64_max
    → Summary (e ∷ es) (parse (e ∷ es))
unfolding parse
parse-Summary e es lt word = record {
  entry_count_is = c.kept ∙ mod-eq_of_lt lt;
  success_count_is = c.success ∙ omega arith;
  timeout_count_is = c.timeout ∙ omega arith;
  error_count_is = c.error ∙ omega arith;
  retry_count_is = c.retry ∙ omega arith;
  bounds = c.between;
  lba_min_is = elim c.low_reached [ inl a ↦ inl (omega (arith, c.between.0, word)) | inr b ↦ b ];
  lba_max_is = elim c.high_reached [ inl a ↦ inl (omega (arith, c.between.0)) | inr b ↦ b ];
}
  where
    start : ParseResult
    start = record empty_result { entry_count = u32 (length (e ∷ es)); lba_min = u64_max }

    c : Counted start (e ∷ es) (parse_loop start (e ∷ es))
    c = parse_loop-Counted start (e ∷ es) (omega arith)
