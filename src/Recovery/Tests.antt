-- ===== src/Recovery/Tests.antt =====
-- Concrete runs of the recovery machine, and instances of the theorems about it.
use htkis_hyper_disk.Base.{
  ℕ, zero, suc, ◌+◌, ◌<◌, ◌≡◌, refl, true, false, ltb, if◌then◌else◌, arith,
}
use htkis_hyper_disk.Nt.{success, device_not_ready}
use htkis_hyper_disk.Recovery.{
  normal, Flags, Recovery, World, returned, is_ready, process_fallback, enter_recovery,
}
use htkis_hyper_disk.Recovery.Retry.{enter_recovery-success, attempts, entered}
use htkis_hyper_disk.Recovery.Fallback.{FallbackEnds, process_fallback-FallbackEnds}

abbrev dark : Flags
dark = record {
  local_meta_available = false;
  network_available = false;
  meta_server_reachable = false;
  block_device_ready = false;
}

abbrev up : Flags
up = record dark {
  meta_server_reachable = true;
  block_device_ready = true;
  network_available = true;
}

abbrev start : Recovery
start = record {
  state = normal;
  retry_count = 0;
  fallback_step = 0;
  state_entry_time = 0;
  flags = dark;
  delays = 0;
  slept = 0;
}

-- everything comes up while the driver sleeps for the second time
abbrev second_wind : World
second_wind = record { flags_after = λ n. if ltb n 2 then dark else up; time_after = λ n. 100 + n }

abbrev blackout : World
blackout = record { flags_after = λ n. dark; time_after = λ n. 100 + n }

dark_before : (j : ℕ) → j < 1 → is_ready (second_wind.flags_after (0 + suc j)) ≡ false
dark_before zero h = refl
dark_before (suc j) h = absurd (omega arith)

enter_recovery-success_example :
    enter_recovery 5 second_wind start
    ≡ returned success
        (record (attempts 2 second_wind (entered second_wind start)) { state = normal })
enter_recovery-success_example =
    enter_recovery-success 5 1 second_wind start (omega arith) (omega arith) dark_before refl

process_fallback-FallbackEnds_example :
    FallbackEnds
      (record start { fallback_step = 2 })
      (process_fallback 6 second_wind (record start { fallback_step = 2 }))
process_fallback-FallbackEnds_example =
    process_fallback-FallbackEnds 6 second_wind (record start { fallback_step = 2 }) (omega arith)

-- With the network back but nothing else, step 2 retries in vain and starts the ladder again.
step_2_blackout :
    process_fallback 6 blackout (record start { fallback_step = 2 })
    ≡ returned device_not_ready (record start { fallback_step = 3; delays = 1; slept = 300000000 })
unfolding process_fallback
step_2_blackout = refl
