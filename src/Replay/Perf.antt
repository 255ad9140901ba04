-- ===== src/Replay/Perf.antt =====
-- BootReplayAnalyzer::AnalyzePerf, on the entries that ReadEntries gives. The code divides the latencies
-- by 1000.0; here they stay in microseconds, and the average is its sum. std::sort is a parameter; a
-- read outside the vector is none.
use mathlib.Core.Path.{subst}
use native.Mathlib.Nat.{mod-eq_of_lt}
use htkis_hyper_disk.Base.{
  ℕ, zero, suc, ◌+◌, ◌*◌, ◌/◌, ◌≤◌, ◌<◌, ◌≡◌, refl, sym, ◌∙◌, ◌&&◌, List, [], ◌∷◌, Option, some,
  ◌>>=◌, arith, ltb, leb, if◌then◌else◌, length, get_elem?, u32,
}
use htkis_hyper_disk.Replay.{ReplayEntry}

pub data StageName : Type 0 where
  boot_start driver_load desktop_init : StageName

-- `ranges`: the stages and their times in milliseconds
pub record StageRange : Type 0 where
  pub name : StageName
  pub start_ms : ℕ
  pub end_ms : ℕ

abbrev pub ranges : List StageRange
ranges =
    record { name = boot_start; start_ms = 0; end_ms = 10000 }
    ∷ record { name = driver_load; start_ms = 10000; end_ms = 15000 }
    ∷ record { name = desktop_init; start_ms = 15000; end_ms = 30000 }
    ∷ []

pub record PerfStage : Type 0 where
  pub name : StageName
  pub total_us : ℕ
  pub p50_us : ℕ
  pub p95_us : ℕ
  pub p99_us : ℕ
  pub count : ℕ

-- the latencies of the entries in a range, in their order
pub latencies : StageRange → List ReplayEntry → List ℕ
latencies range [] = []
latencies range (e ∷ es) =
    let rest = latencies range es in
    if leb range.start_ms e.timestamp_ms && ltb e.timestamp_ms range.end_ms
    then e.latency_us ∷ rest
    else rest

abbrev pub sum : List ℕ → ℕ
sum [] = 0
sum (x ∷ xs) = x + sum xs

module _ (sort : List ℕ → List ℕ) where
  -- the stage of some latencies, sorted as `l`
  pub stage_of : StageName → ℕ → List ℕ → Option PerfStage
  stage_of name total l = get_elem? l (length l * 50 / 100) >>= λ p50.
      get_elem? l (length l * 95 / 100) >>= λ p95. get_elem? l (length l * 99 / 100) >>= λ p99.
      some (record {
        name = name;
        total_us = total;
        p50_us = p50;
        p95_us = p95;
        p99_us = p99;
        count = u32 (length l);
      })

  -- a round of the loop over the ranges, with the latencies of its range and the later stages
  pub add_stage : StageName → List ℕ → Option (List PerfStage) → Option (List PerfStage)
  add_stage name [] later = later
  add_stage name (x ∷ xs) later =
      stage_of name (sum (x ∷ xs)) (sort (x ∷ xs)) >>= λ s. later >>= λ l. some (s ∷ l)

  pub stages_of : List StageRange → List ReplayEntry → Option (List PerfStage)
  stages_of [] es = some []
  stages_of (range ∷ rest) es = add_stage range.name (latencies range es) (stages_of rest es)

  -- AnalyzePerf
  pub analyze_perf : List ReplayEntry → Option (List PerfStage)
  analyze_perf [] = some []
  analyze_perf (e ∷ es) = stages_of ranges (e ∷ es)

get_elem?-in : (l : List ℕ) (i : ℕ) → i < length l → (x : ℕ) × (get_elem? l i ≡ some x)
get_elem?-in [] i h = absurd (omega arith)
get_elem?-in (x ∷ xs) zero h = (x, refl)
get_elem?-in (x ∷ xs) (suc i) h = get_elem?-in xs i (omega arith)

-- A list in ascending order: of two places, the later holds no less.
abbrev pub Ascending : List ℕ → Type 0
Ascending l = (i j x y : ℕ) → i ≤ j → get_elem? l i ≡ some x → get_elem? l j ≡ some y → x ≤ y

-- the percentiles of a stage are in order, and it has at least one entry
abbrev pub Ordered : List PerfStage → Type 0
Ordered [] = Unit
Ordered (s ∷ l) = ((s.p50_us ≤ s.p95_us) × (s.p95_us ≤ s.p99_us)) × Ordered l

-- how many entries lie before the end of the last stage
pub early_entries : List ReplayEntry → ℕ
early_entries [] = 0
early_entries (e ∷ es) = (if ltb e.timestamp_ms 30000 then 1 else 0) + early_entries es

abbrev pub counted : List PerfStage → ℕ
counted [] = 0
counted (s ∷ l) = s.count + counted l

latencies-early :
    (es : List ReplayEntry)
    → length (latencies (record { name = boot_start; start_ms = 0; end_ms = 10000 }) es)
        + (length (latencies (record { name = driver_load; start_ms = 10000; end_ms = 15000 }) es)
            + length
                (latencies (record { name = desktop_init; start_ms = 15000; end_ms = 30000 }) es))
      ≡ early_entries es
unfolding latencies early_entries
latencies-early [] = refl
latencies-early (e ∷ es) = ground (arith, latencies-early es)

latencies-le : (r : StageRange) (es : List ReplayEntry) → length (latencies r es) ≤ length es
unfolding latencies
latencies-le r [] = omega arith
latencies-le r (e ∷ es) = ground (arith, latencies-le r es)

no_entries : early_entries [] ≡ 0
unfolding early_entries
no_entries = refl

-- what a stage is made of n sorted latencies
record IsStage (n : ℕ) (o : Option PerfStage) : Type 0 where
  stage : PerfStage
  made : o ≡ some stage
  low : stage.p50_us ≤ stage.p95_us
  high : stage.p95_us ≤ stage.p99_us
  count_is : stage.count ≡ n

-- what the stages are, which count n entries in all
record AreStages (n : ℕ) (o : Option (List PerfStage)) : Type 0 where
  stages : List PerfStage
  all_made : o ≡ some stages
  ordered : Ordered stages
  total_is : counted stages ≡ n

module _ (sort : List ℕ → List ℕ) (same : (l : List ℕ) → length (sort l) ≡ length l)
    (ascending : (l : List ℕ) → Ascending (sort l)) where
  stage_of-IsStage :
      (name : StageName) (total : ℕ) (l : List ℕ)
      → Ascending l
      → 0 < length l
      → length l < 4294967296
      → IsStage (length l) (stage_of sort name total l)
  unfolding stage_of
  stage_of-IsStage name total l asc pos small =
      let (x, hx) = get_elem?-in l (length l * 50 / 100) (omega arith) in
      let (y, hy) = get_elem?-in l (length l * 95 / 100) (omega arith) in
      let (z, hz) = get_elem?-in l (length l * 99 / 100) (omega arith) in
      record {
        stage = record {
          name = name;
          total_us = total;
          p50_us = x;
          p95_us = y;
          p99_us = z;
          count = u32 (length l);
        };
        made = rw (hx, hy, hz) refl;
        low = asc _ _ x y (omega arith) hx hy;
        high = asc _ _ y z (omega arith) hy hz;
        count_is = mod-eq_of_lt small;
      }

  add_stage-AreStages :
      (name : StageName) (n : ℕ) (l : List ℕ) (later : Option (List PerfStage))
      → length l < 4294967296
      → AreStages n later
      → AreStages (length l + n) (add_stage sort name l later)
  unfolding add_stage
  add_stage-AreStages name n [] later small v = record {
    stages = v.stages;
    all_made = v.all_made;
    ordered = v.ordered;
    total_is = v.total_is ∙ omega arith;
  }
  add_stage-AreStages name n (x ∷ xs) later small v =
      let s =
        stage_of-IsStage name (sum (x ∷ xs)) (sort (x ∷ xs)) (ascending (x ∷ xs))
          (omega (arith, same (x ∷ xs))) (omega (arith, same (x ∷ xs))) in
      record {
        stages = s.stage ∷ v.stages;
        all_made = rw (s.made, v.all_made) refl;
        ordered = ((s.low, s.high), v.ordered);
        total_is = omega (arith, s.count_is, v.total_is, same (x ∷ xs));
      }

  stages_of-AreStages :
      (es : List ReplayEntry)
      → length es < 4294967296
      → AreStages (early_entries es) (stages_of sort ranges es)
  unfolding stages_of
  stages_of-AreStages es small =
      subst (λ n. AreStages n (stages_of sort ranges es)) (total es)
        (add_stage-AreStages boot_start _ _ _
          (le (record { name = boot_start; start_ms = 0; end_ms = 10000 }))
          (add_stage-AreStages driver_load _ _ _
            (le (record { name = driver_load; start_ms = 10000; end_ms = 15000 }))
            (add_stage-AreStages desktop_init 0 _ _
              (le (record { name = desktop_init; start_ms = 15000; end_ms = 30000 }))
              (record { stages = []; all_made = refl; ordered = tt; total_is = refl }))))
    where
      le : (r : StageRange) → length (latencies r es) < 4294967296
      le r = omega (arith, latencies-le r es)

      total :
          (es : List ReplayEntry)
          → length (latencies (record { name = boot_start; start_ms = 0; end_ms = 10000 }) es)
              + (length
                    (latencies (record { name = driver_load; start_ms = 10000; end_ms = 15000 }) es)
                  + (length (
                        latencies
                          (record { name = desktop_init; start_ms = 15000; end_ms = 30000 })
                          es)
                      + 0))
            ≡ early_entries es
      total es = omega (arith, latencies-early es)

-- If std::sort keeps the length and sorts in ascending order, then for fewer than 2 ^ 32 entries
-- AnalyzePerf reads only inside its vectors; in each stage the 50th percentile is at most the 95th and
-- that at most the 99th; and the stages count together every entry before 30000 ms once.
pub analyze_perf-Ordered :
    (sort : List ℕ → List ℕ) (es : List ReplayEntry)
    → ((l : List ℕ) → length (sort l) ≡ length l)
    → ((l : List ℕ) → Ascending (sort l))
    → length es < 4294967296
    → (stages : List PerfStage) × (analyze_perf sort es ≡ some stages)
      × Ordered stages
      × (counted stages ≡ early_entries es)
unfolding analyze_perf
analyze_perf-Ordered sort [] same ascending small = ([], refl, tt, sym no_entries)
analyze_perf-Ordered sort (e ∷ es) same ascending small =
    let v = stages_of-AreStages sort same ascending (e ∷ es) small in
    (v.stages, v.all_made, v.ordered, v.total_is)
