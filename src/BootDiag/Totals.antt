-- ===== src/BootDiag/Totals.antt =====
-- The totals of a run: every check is counted once.
use htkis_hyper_disk.Base.{
  ℕ, suc, ◌+◌, ◌<◌, ◌≡◌, refl, ◌∙◌, Bool, true, false, List, [], ◌∷◌, Option, some, arith, length,
  length-set, get_or,
}
use htkis_hyper_disk.BootDiag.{
  Outcome, pass, fail, skip, Verdict, outcome, Result, Context, no_result, attempts, skip_check,
  count_check, run_checks,
}
use htkis_hyper_disk.BootDiag.Attempts.{Attempted, attempts_lem}

-- what a run has counted
abbrev pub counted : Context → ℕ
counted c = c.total_pass + c.total_fail + c.total_skip

-- The run of `cs` from the context `c` ends, with a total more for each of them.
pub record Counts (cs : List (Bool × (ℕ → Verdict))) (c : Context) (answer : Option Context)
    : Type 0 where
  pub after : Context
  pub value : answer ≡ some after
  pub total : counted after ≡ counted c + length cs
  pub size : length after.results ≡ length c.results

skip_check-counted :
    (i : ℕ) (c : Context) → counted c < 4294967295 → counted (skip_check i c) ≡ counted c + 1
unfolding skip_check
skip_check-counted i c h = omega arith

count_check-counted :
    (i : ℕ) (done : Outcome × Result) (c : Context)
    → counted c < 4294967295
    → counted (count_check i done c) ≡ counted c + 1
unfolding count_check
count_check-counted i (pass, r) c h = omega arith
count_check-counted i (fail, r) c h = omega arith
count_check-counted i (skip, r) c h = omega arith

skip_check-size : (i : ℕ) (c : Context) → length (skip_check i c).results ≡ length c.results
unfolding skip_check
skip_check-size i c = length-set c.results i _

count_check-size :
    (i : ℕ) (done : Outcome × Result) (c : Context)
    → length (count_check i done c).results ≡ length c.results
unfolding count_check
count_check-size i (pass, r) c = length-set c.results i r
count_check-size i (fail, r) c = length-set c.results i r
count_check-size i (skip, r) c = length-set c.results i r

-- When --retry is below 2 ^ 32 - 1 and the counts cannot wrap round, main's loop over the checks ends; the
-- three totals together have then grown by one for each check, and the array of results has kept its size,
-- whatever the checks answer.
pub run_checks-Counts :
    (fuel retry_count : ℕ) (cs : List (Bool × (ℕ → Verdict))) (i : ℕ) (c : Context)
    → retry_count < 4294967295
    → retry_count < fuel
    → counted c + length cs < 4294967296
    → Counts cs c (run_checks fuel retry_count cs i c)
unfolding run_checks
run_checks-Counts fuel retry_count [] i c small enough room = record {
  after = c;
  value = refl;
  total = omega arith;
  size = refl;
}
run_checks-Counts fuel retry_count ((true, check) ∷ cs) i c small enough room =
    let one : counted (skip_check i c) ≡ counted c + 1 = skip_check-counted i c (omega arith) in
    let r : Counts cs (skip_check i c) (run_checks fuel retry_count cs (suc i) (skip_check i c)) =
      run_checks-Counts fuel retry_count cs (suc i) (skip_check i c) small enough (omega arith) in
    record {
      after = r.after;
      value = r.value;
      total = omega (arith, r.total, one);
      size = r.size ∙ skip_check-size i c;
    }
run_checks-Counts fuel retry_count ((false, check) ∷ cs) i c small enough room =
    let start : Result = record (get_or c.results i no_result) { check_id = suc i } in
    let a : Attempted check retry_count (attempts fuel check retry_count 0 start) =
      attempts_lem fuel check retry_count start small enough in
    let done : Outcome × Result = (outcome (check a.last), a.stored) in
    let one : counted (count_check i done c) ≡ counted c + 1 =
      count_check-counted i done c (omega arith) in
    let r : Counts cs (count_check i done c)
        (run_checks fuel retry_count cs (suc i) (count_check i done c)) =
      run_checks-Counts fuel retry_count cs (suc i) (count_check i done c) small enough
        (omega arith) in
    rw (a.value, run_checks)
      (record {
        after = r.after;
        value = r.value;
        total = omega (arith, r.total, one);
        size = r.size ∙ count_check-size i done c;
      })
