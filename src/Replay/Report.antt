-- ===== src/Replay/Report.antt =====
-- BootReplayAnalyzer::Parse, on the entries that ReadEntries gives.
pub mod Counts
use Prim.Native.Nat.{min, max}
use native.Mathlib.Decide.{dec_lt}
use native.Mathlib.Nat.{mod-eq_of_lt}
use htkis_hyper_disk.Base.{
  ℕ, suc, ◌+◌, ◌≤◌, ◌<◌, ◌≡◌, ◌⊎◌, inl, inr, refl, ◌∙◌, Bool, true, false, List, [], ◌∷◌, arith,
  ◌==◌, if◌then◌else◌, length, u32,
}
use htkis_hyper_disk.Replay.{ReplayEntry}

pub record ParseResult : Type 0 where
  pub entry_count : ℕ
  pub overwrite_count : ℕ
  pub time_range_ms : ℕ
  pub lba_min : ℕ
  pub lba_max : ℕ
  pub success_count : ℕ
  pub timeout_count : ℕ
  pub error_count : ℕ
  pub retry_count : ℕ

-- the result of an empty file, and the result before the loop
abbrev pub empty_result : ParseResult
empty_result = record {
  entry_count = 0;
  overwrite_count = 0;
  time_range_ms = 0;
  lba_min = 0;
  lba_max = 0;
  success_count = 0;
  timeout_count = 0;
  error_count = 0;
  retry_count = 0;
}

abbrev pub u64_max : ℕ
u64_max = 18446744073709551615

-- the switch on the status
pub count_status : ParseResult → ℕ → ParseResult
count_status r status =
    if status == 0
    then record r { success_count = u32 (r.success_count + 1) }
    else (if status == 1
        then record r { timeout_count = u32 (r.timeout_count + 1) }
        else (if status == 2
            then record r { error_count = u32 (r.error_count + 1) }
            else (if status == 3 then record r { retry_count = u32 (r.retry_count + 1) } else r)))

-- the loop of Parse, with its round; `time_range_ms` holds `max_ts`
pub parse_entry : ParseResult → ReplayEntry → ParseResult
parse_entry r e =
    let r' = record r {
      lba_min = min r.lba_min e.lba;
      lba_max = max r.lba_max e.lba;
      time_range_ms = max r.time_range_ms e.timestamp_ms;
    } in
    count_status r' e.status

pub parse_loop : ParseResult → List ReplayEntry → ParseResult
parse_loop r [] = r
parse_loop r (e ∷ es) = parse_loop (parse_entry r e) es

-- Parse
pub parse : List ReplayEntry → ParseResult
parse [] = empty_result
parse (e ∷ es) =
    parse_loop (record empty_result { entry_count = u32 (length (e ∷ es)); lba_min = u64_max })
      (e ∷ es)
