-- ===== src/BootDiag.antt =====
-- tools/bootdiag/main.c: the run of the boot checks, its totals, the gate and the boot.meta flags.
-- A check is what its function returns and stores at each attempt; the names, the detail texts and the
-- elapsed times are only printed, and are left out. `uint32_t` counters keep their wrap-around.
pub mod Attempts
pub mod Totals
pub mod Gate
pub mod Flags
pub mod Image
pub mod Gpt
mod Tests
use htkis_hyper_disk.Base.{
  ℕ, zero, suc, ◌+◌, ◌*◌, ◌/◌, ◌%◌, ◌^◌, Bool, true, false, not, ◌&&◌, List, [], ◌∷◌, Option, none,
  some, ltb, leb, ◌==◌, if◌then◌else◌, length, get_or, set, take, replicate, u32,
}

-- BOOTDIAG_CHECK_COUNT and BOOTDIAG_CHECK_CRITICAL_COUNT
abbrev pub check_count : ℕ
check_count = 7

abbrev pub critical_count : ℕ
critical_count = 3

-- BOOTDIAG_RESULT_PASS, _FAIL and _SKIP
pub data Outcome : Type 0 where
  pass fail skip : Outcome

abbrev pub is_pass : Outcome → Bool
is_pass pass = true
is_pass _ = false

abbrev pub is_fail : Outcome → Bool
is_fail fail = true
is_fail _ = false

-- What a check function does: what it returns, with the error code that it stores on the way.
pub data Verdict : Type 0 where
  passed : Verdict
  failed skipped : ℕ → Verdict

abbrev pub outcome : Verdict → Outcome
outcome passed = pass
outcome (failed _) = fail
outcome (skipped _) = skip

-- BOOTDIAG_RESULT
pub record Result : Type 0 where
  pub check_id : ℕ
  pub result : Outcome
  pub error_code : ℕ

-- BOOTDIAG_CONTEXT
pub record Context : Type 0 where
  pub results : List Result
  pub total_pass : ℕ
  pub total_fail : ℕ
  pub total_skip : ℕ
  pub bootdiag_executed : Bool

-- an entry of the array after the memset
abbrev pub no_result : Result
no_result = record { check_id = 0; result = pass; error_code = 0 }

abbrev pub empty_context : Context
empty_context = record {
  results = replicate check_count no_result;
  total_pass = 0;
  total_fail = 0;
  total_skip = 0;
  bootdiag_executed = false;
}

-- `results[i].result = check_result`, after the check stored its error code; a check that passes leaves
-- the code of an earlier attempt.
abbrev pub store : Verdict → Result → Result
store passed r = record r { result = pass }
store (failed code) r = record r { result = fail; error_code = code }
store (skipped code) r = record r { result = skip; error_code = code }

-- The do-while of `main` from the attempt k, where `attempt` is `u32 k`; none when the fuel is used up.
pub attempts : ℕ → (ℕ → Verdict) → ℕ → ℕ → Result → Option (Outcome × Result)
attempts zero check retry_count k r = none
attempts (suc fuel) check retry_count k r =
    let o = outcome (check k) in
    let stored = store (check k) r in
    let rest = attempts fuel check retry_count (suc k) stored in
    if not (is_pass o) && leb (u32 (suc k)) retry_count then rest else some (o, stored)

-- The body of main's loop for a check that --skip names.
pub skip_check : ℕ → Context → Context
skip_check i c = record c {
  results =
      set c.results i (record (get_or c.results i no_result) { check_id = suc i; result = skip });
  total_skip = u32 (c.total_skip + 1);
}

-- The rest of that body: the result of the attempts, and its total.
pub count_check : ℕ → Outcome × Result → Context → Context
count_check i (pass, r) c = record c {
  results = set c.results i r;
  total_pass = u32 (c.total_pass + 1);
}
count_check i (_, r) c = record c {
  results = set c.results i r;
  total_fail = u32 (c.total_fail + 1);
}

-- main's loop from the check i, over what --skip says of each check and the check. Every do-while is
-- given `fuel`.
pub run_checks : ℕ → ℕ → List (Bool × (ℕ → Verdict)) → ℕ → Context → Option Context
run_checks fuel retry_count [] i c = some c
run_checks fuel retry_count ((true, check) ∷ cs) i c =
    run_checks fuel retry_count cs (suc i) (skip_check i c)
run_checks fuel retry_count ((false, check) ∷ cs) i c =
    elim (attempts fuel check retry_count 0
      (record (get_or c.results i no_result) { check_id = suc i })) [
        | none ↦ none
        | some done ↦ run_checks fuel retry_count cs (suc i) (count_check i done c)
      ]

-- the results that say FAIL
abbrev pub fails : List Result → ℕ
fails [] = 0
fails (r ∷ rs) = if is_fail r.result then suc (fails rs) else fails rs

-- bootdiag_critical_fail_count
pub critical_fail_count : Context → ℕ
critical_fail_count c = fails (take critical_count c.results)

-- bootdiag_gate_check, which is main's exit code
pub gate_check : Context → ℕ
gate_check c = if ltb 0 (critical_fail_count c) then 1 else 0

-- bootdiag_is_critical_check
pub is_critical_check : ℕ → Bool
is_critical_check check_id = leb 1 check_id && leb check_id critical_count

-- `flags |= 1 << k`
abbrev pub set_bit : ℕ → ℕ → ℕ
set_bit flags k = if ((flags / (2 ^ k)) % 2) == 1 then flags else flags + 2 ^ k

-- the loop of bootdiag_update_boot_meta_flags from the check i
pub fail_flags : ℕ → List Result → ℕ → ℕ
fail_flags i [] flags = flags
fail_flags i (r ∷ rs) flags =
    fail_flags (suc i) rs (if is_fail r.result then set_bit flags (3 + i) else flags)

-- bootdiag_update_boot_meta_flags: the flags that it prints
pub boot_meta_flags : Context → ℕ
boot_meta_flags c =
    let executed = if c.bootdiag_executed then set_bit 0 2 else 0 in
    let checked = fail_flags 0 (take check_count c.results) executed in
    if c.total_fail == 0 && c.total_pass == check_count then set_bit checked 10 else checked

-- main after it has read its arguments, as far as it keeps state: the context at the end, the flags and
-- the exit code.
pub main : ℕ → ℕ → List (Bool × (ℕ → Verdict)) → Option (Context × ℕ × ℕ)
main fuel retry_count checks = elim (run_checks fuel retry_count checks 0 empty_context) [
  | none ↦ none
  | some c ↦ some (
    record c { bootdiag_executed = true },
    boot_meta_flags (record c { bootdiag_executed = true }),
    gate_check (record c { bootdiag_executed = true }),
  )
]
