-- ===== src/Tracker/Tests.antt =====
-- Concrete runs of the tracker.
use htkis_hyper_disk.Base.{ℕ, ◌≢◌, refl, true, false, arith, List, [], ◌∷◌}
use htkis_hyper_disk.Tracker.{Tracker, initialize, watchdog}
use htkis_hyper_disk.Tracker.Balance.{Op, submitted, completed, scanned, run, run-balance}
use htkis_hyper_disk.Tracker.Ledger.{IsBalanced}
use htkis_hyper_disk.Tracker.Age.{IsSwept, watchdog_lem}
use htkis_hyper_disk.Tracker.Timer.{IsWatched, run-IsWatched}

-- Packet 7 is completed in time, packet 9 times out after 60001 ms.
abbrev ops : List Op
ops =
    submitted true 0 7 3 0
    ∷ submitted true 1 9 4 0
    ∷ submitted false 1 11 4 0
    ∷ completed 7
    ∷ scanned 60002
    ∷ []

abbrev packet : ℕ
packet = 9

nine : packet ≢ 0
nine e = omega (arith, e)

run-balance_example : IsBalanced packet (run (initialize []) ops)
run-balance_example = run-balance packet ops nine

run-IsWatched_example : IsWatched 5 (run (initialize []) ops)
run-IsWatched_example = run-IsWatched [] ops (omega arith)

-- Two packets, of which the first has expired.
abbrev two : Tracker
two = record {
  active_list =
      record { irp = 7; submit_timestamp = 0; major_function = 3; minor_function = 0; io_size = 0 }
      ∷ record {
        irp = 9;
        submit_timestamp = 50000;
        major_function = 4;
        minor_function = 0;
        io_size = 0;
      }
      ∷ [];
  active_count = 2;
  timer_running = true;
  trace = [];
}

watchdog_lem_example : IsSwept 70000 two (watchdog two 70000)
watchdog_lem_example =
    watchdog_lem two 70000 refl (omega arith) (omega arith) (omega arith, (omega arith, tt))
