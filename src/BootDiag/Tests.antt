-- ===== src/BootDiag/Tests.antt =====
-- Concrete runs of the boot checks.
use htkis_hyper_disk.Base.{
  ℕ, ◌≡◌, refl, sym, Bool, true, false, List, [], ◌∷◌, Option, some, ◌==◌, if◌then◌else◌, replicate,
  length-replicate, arith,
}
use htkis_hyper_disk.BootDiag.{
  Verdict, passed, failed, skipped, no_result, empty_context, attempts, run_checks,
}
use htkis_hyper_disk.BootDiag.Attempts.{Attempted, attempts_lem}
use htkis_hyper_disk.BootDiag.Totals.{Counts, run_checks-Counts}
use htkis_hyper_disk.BootDiag.Image.{cluster_size}
use htkis_hyper_disk.BootDiag.Gpt.Laws.{IsDevice}

-- a check that passes at its third attempt, and one that never passes
abbrev third : ℕ → Verdict
third k = if k == 2 then passed else failed 2001

abbrev never : ℕ → Verdict
never k = failed 1002

attempts_lem_example : Attempted third 3 (attempts 4 third 3 0 no_result)
attempts_lem_example = attempts_lem 4 third 3 no_result (omega arith) (omega arith)

abbrev checks : List (Bool × (ℕ → Verdict))
checks = (false, never) ∷ (true, never) ∷ (false, third) ∷ (false, λ _. skipped 4099) ∷ []

run_checks-Counts_example : Counts checks empty_context (run_checks 4 3 checks 0 empty_context)
run_checks-Counts_example =
    run_checks-Counts 4 3 checks 0 empty_context (omega arith) (omega arith) (omega arith)

cluster_size_8 : cluster_size 512 8 ≡ some 131072
cluster_size_8 = refl

abbrev blank : ℕ → Option (List ℕ)
blank _ = some (replicate 512 0)

blank-IsDevice : IsDevice blank
blank-IsDevice lba sector h =
    let e : replicate 512 0 ≡ sector = cc in rw (sym e) (length-replicate {A = ℕ} 512 0)
