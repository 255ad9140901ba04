-- ===== src/Recovery.antt =====
-- driver/blk/blk_7b_recovery.c and blk_7b_recovery.h: what the boot disk driver does about bug check
-- 0x7B, INACCESSIBLE_BOOT_DEVICE. The debug messages are left out. The four flags are set by other
-- components while the driver sleeps: `World` gives what they and the system time are after n delays.
pub mod Retry
pub mod Fallback
mod Tests
use htkis_hyper_disk.Base.{
  ℕ, zero, suc, ◌+◌, ◌*◌, Bool, true, false, ◌&&◌, ltb, leb, ◌==◌, if◌then◌else◌, u32, List, [],
  ◌∷◌, get_elem?, Option, none, some,
}
use htkis_hyper_disk.Nt.{Status, success, device_not_ready}

abbrev pub max_retries : ℕ
max_retries = 3

-- The lengths of the two delays, in the units of 100 ns that KeDelayExecutionThread takes.
abbrev pub retry_interval : ℕ
retry_interval = 10 * 1000 * 1000

abbrev pub fallback_wait : ℕ
fallback_wait = 10 * 1000 * 1000 * 30

-- HD_7B_STATE
pub data State : Type 0 where
  normal retrying fallback recovery halted : State

pub record Flags : Type 0 where
  pub local_meta_available : Bool
  pub network_available : Bool
  pub meta_server_reachable : Bool
  pub block_device_ready : Bool

-- HD_7B_RECOVERY, with the number and the total length of the delays so far.
pub record Recovery : Type 0 where
  pub state : State
  pub retry_count : ℕ
  pub fallback_step : ℕ
  pub state_entry_time : ℕ
  pub flags : Flags
  pub delays : ℕ
  pub slept : ℕ

pub record World : Type 0 where
  pub flags_after : ℕ → Flags
  pub time_after : ℕ → ℕ

-- How a call ends: with a status, or never, in the endless wait of Hd7bProcessRecovery.
-- `out_of_fuel` belongs to the model.
pub data Outcome : Type 0 where
  returned : Status → Recovery → Outcome
  waits_forever : Recovery → Outcome
  out_of_fuel : Outcome

-- KeQuerySystemTime(&Recovery->StateEntryTime)
abbrev pub stamp : World → Recovery → Recovery
stamp w r = record r { state_entry_time = w.time_after r.delays }

-- KeDelayExecutionThread: the driver sees the flags as they are when it wakes.
abbrev pub delay : World → ℕ → Recovery → Recovery
delay w t r = record r {
  flags = w.flags_after (suc r.delays);
  delays = suc r.delays;
  slept = r.slept + t;
}

-- Hd7bInitialize
pub initialize : World → Recovery → Recovery
initialize w r = stamp w (record r {
  state = normal;
  retry_count = 0;
  fallback_step = 0;
  flags = record {
    local_meta_available = false;
    network_available = false;
    meta_server_reachable = false;
    block_device_ready = false;
  };
})

-- Hd7bProcessRecovery: `while (HD_7B_RECOVERY_HALT)` never ends, as the macro is TRUE.
pub process_recovery : Recovery → Outcome
process_recovery r = waits_forever (record r { state = halted })

-- the test of Hd7bProcessRetry after its delay
abbrev pub is_ready : Flags → Bool
is_ready f = f.block_device_ready && f.meta_server_reachable

-- the increment of `FallbackStep` that ends the steps 0 to 3, with their common return
abbrev pub next_step : Recovery → Outcome
next_step r = returned device_not_ready (record r { fallback_step = u32 (r.fallback_step + 1) })

-- Hd7bProcessRetry and Hd7bProcessFallback call one another; the fuel counts the nested calls.
unfoldable mutual
  pub process_retry : ℕ → World → Recovery → Outcome
  process_retry zero w r = out_of_fuel
  process_retry (suc f) w r =
      let to_fallback =
        process_fallback f w (stamp w (record r { state = fallback; fallback_step = 0 })) in
      let r' = delay w retry_interval (record r { retry_count = u32 (r.retry_count + 1) }) in
      let again = process_retry f w r' in
      if leb max_retries r.retry_count
      then to_fallback
      else (if is_ready r'.flags then returned success (record r' { state = normal }) else again)

  pub process_fallback : ℕ → World → Recovery → Outcome
  process_fallback zero w r = out_of_fuel
  process_fallback (suc f) w r =
      let r' = delay w fallback_wait r in
      let retry = process_retry f w (record r' { state = retrying; retry_count = 0 }) in
      if r.fallback_step == 0
      then next_step r
      else (if r.fallback_step == 1
          then (if r.flags.local_meta_available
              then returned success (record r { state = normal })
              else next_step r)
          else (if r.fallback_step == 2
              then (if r'.flags.network_available then retry else next_step r')
              else (if r.fallback_step == 3
                  then next_step r
                  else process_recovery (record r { state = recovery }))))

-- Hd7bEnterRecovery
pub enter_recovery : ℕ → World → Recovery → Outcome
enter_recovery f w r = process_retry f w (stamp w (record r { state = retrying; retry_count = 0 }))
