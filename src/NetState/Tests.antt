-- ===== src/NetState/Tests.antt =====
-- Runs of the machine with two servers.
use htkis_hyper_disk.Base.{◌*◌, ◌≡◌, refl, Bool, true, false, List, [], ◌∷◌, some, arith, u32}
use htkis_hyper_disk.NetState.{
  connected, reconnecting, on_heartbeat_success, transition_to, ServerEndpoint, ReconnectConfig,
  Machine, new_machine, try_next_server,
}
use htkis_hyper_disk.NetState.Edges.{heartbeat_timeout, heartbeat_success, ticked, Event, step}
use htkis_hyper_disk.NetState.Delay.{Bounded}
use htkis_hyper_disk.NetState.Runs.{Op, servers_set, started, event, run, run-Bounded}

-- the defaults, with at most two attempts at a server
abbrev config : ReconnectConfig
config = record {
  detect_timeout_ms = 5000;
  min_backoff_ms = 1000;
  max_backoff_ms = 30000;
  scaled = λ n. u32 (n * 2);
  max_retry_count = 2;
  recovery_timeout_ms = 30000;
}

abbrev first : ServerEndpoint
first = record { host = 97 ∷ []; port = 9000; is_primary = true }

abbrev second : ServerEndpoint
second = record { host = 98 ∷ []; port = 9000; is_primary = false }

abbrev refuse : ServerEndpoint → Bool
refuse s = false

abbrev ops : List Op
ops =
    servers_set (first ∷ second ∷ [])
    ∷ started 0
    ∷ event (heartbeat_timeout 10)
    ∷ event (heartbeat_timeout 20)
    ∷ event (ticked 30 (some refuse))
    ∷ event (ticked 1030 (some refuse))
    ∷ []

run-Bounded_example : Bounded (run (new_machine config) ops)
run-Bounded_example = run-Bounded config ops (omega arith)

-- after one failed attempt at the first of two servers, with a delay of two seconds
abbrev tried : Machine
tried = record (new_machine config) {
  servers = first ∷ second ∷ [];
  state = reconnecting;
  retry_count = 1;
  current_backoff_ms = 2000;
  last_reconnect_attempt = 1030;
  running = true;
}

tried_next : try_next_server tried ≡ some 1
unfolding try_next_server
tried_next = refl

-- a heartbeat while it tries to reconnect
abbrev heard : Event
heard = heartbeat_success 2000

-- a heartbeat brings it back
heard_state : (step tried heard).state ≡ connected
unfolding step on_heartbeat_success transition_to
heard_state = refl
