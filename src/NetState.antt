-- ===== src/NetState.antt =====
-- client/disk_runtime/network_state_machine.cpp: the state of the connection to the servers, with the
-- retries and their growing delay. The times are milliseconds and arguments; the mutex makes each
-- operation one step. What multiplying the delay by the configured double gives, as a 32-bit word, is
-- the function `scaled` of the configuration.
pub mod Edges
pub mod Moves
pub mod Delay
pub mod Runs
mod Tests
use htkis_hyper_disk.Base.{
  ℕ, zero, suc, ◌+◌, ◌-◌, ◌%◌, Bool, true, false, not, List, [], ◌∷◌, ◌++◌, Option, none, some, ltb,
  leb, ◌==◌, if◌then◌else◌, length, get_elem?, u32,
}

pub data ConnectionState : Type 0 where
  connected : ConnectionState
  detecting : ConnectionState
  disconnected : ConnectionState
  reconnecting : ConnectionState
  recovering : ConnectionState
  offline : ConnectionState

pub record ReconnectConfig : Type 0 where
  pub detect_timeout_ms : ℕ
  pub min_backoff_ms : ℕ
  pub max_backoff_ms : ℕ
  pub scaled : ℕ → ℕ
  pub max_retry_count : ℕ
  pub recovery_timeout_ms : ℕ

pub record ServerEndpoint : Type 0 where
  pub host : List ℕ
  pub port : ℕ
  pub is_primary : Bool

-- The members; `changes` are the calls of on_state_change, the last one at the end, and
-- `recoveries` counts those of on_recovery_complete.
pub record Machine : Type 0 where
  pub config : ReconnectConfig
  pub servers : List ServerEndpoint
  pub current_server_idx : ℕ
  pub state : ConnectionState
  pub retry_count : ℕ
  pub current_backoff_ms : ℕ
  pub last_heartbeat : ℕ
  pub state_enter_time : ℕ
  pub last_reconnect_attempt : ℕ
  pub pending_io_count : ℕ
  pub running : Bool
  pub changes : List (ConnectionState × ConnectionState)
  pub recoveries : ℕ

-- the constructor; the time points start at 0
abbrev pub new_machine : ReconnectConfig → Machine
new_machine config = record {
  config = config;
  servers = [];
  current_server_idx = 0;
  state = offline;
  retry_count = 0;
  current_backoff_ms = config.min_backoff_ms;
  last_heartbeat = 0;
  state_enter_time = 0;
  last_reconnect_attempt = 0;
  pending_io_count = 0;
  running = false;
  changes = [];
  recoveries = 0;
}

-- the loop of SetServers, from the index i on: the first primary server's index, else 0
abbrev pub primary_from : ℕ → List ServerEndpoint → ℕ
primary_from i [] = 0
primary_from i (s ∷ ss) = if s.is_primary then i else primary_from (suc i) ss

-- SetServers
pub set_servers : Machine → List ServerEndpoint → Machine
set_servers m [] = record m { servers = [] }
set_servers m (s ∷ ss) = record m { servers = s ∷ ss; current_server_idx = primary_from 0 (s ∷ ss) }

abbrev pub same_state : ConnectionState → ConnectionState → Bool
same_state connected connected = true
same_state detecting detecting = true
same_state disconnected disconnected = true
same_state reconnecting reconnecting = true
same_state recovering recovering = true
same_state offline offline = true
same_state _ _ = false

-- the effect of a change of the state
abbrev pub entered : ℕ → Machine → ConnectionState → Machine
entered now m new_state = record m {
  state = new_state;
  state_enter_time = now;
  last_reconnect_attempt = elim new_state [ reconnecting ↦ now | _ ↦ m.last_reconnect_attempt ];
  changes = m.changes ++ ((m.state, new_state) ∷ []);
}

-- TransitionTo at the time `now`
pub transition_to : ℕ → Machine → ConnectionState → Machine
transition_to now m new_state = if same_state m.state new_state then m else entered now m new_state

-- the resets that Start, TryReconnect and the heartbeat share
abbrev pub restart_retries : Machine → Machine
restart_retries m = record m { retry_count = 0; current_backoff_ms = m.config.min_backoff_ms }

-- Start
pub start : ℕ → Machine → Machine
start now m =
    let begun = record (restart_retries m) {
      running = true;
      state_enter_time = now;
      last_heartbeat = now;
    } in
    transition_to now begun (if length m.servers == 0 then offline else connected)

-- Stop
pub stop : ℕ → Machine → Machine
stop now m = transition_to now (record m { running = false }) offline

-- the reset and the transition of OnHeartbeatSuccess
abbrev pub back_up : ℕ → Machine → Machine
back_up now m = transition_to now (restart_retries m) connected

-- OnHeartbeatSuccess, in the state that is given
abbrev pub heartbeat_in : ConnectionState → ℕ → Machine → Machine
heartbeat_in detecting now m = back_up now m
heartbeat_in reconnecting now m = back_up now m
heartbeat_in recovering now m = record (back_up now m) { recoveries = m.recoveries + 1 }
heartbeat_in connected now m = m
heartbeat_in disconnected now m = m
heartbeat_in offline now m = m

pub on_heartbeat_success : ℕ → Machine → Machine
on_heartbeat_success now m = heartbeat_in m.state now (record m { last_heartbeat = now })

-- OnHeartbeatTimeout, in the state that is given
abbrev pub timeout_in : ConnectionState → ℕ → Machine → Machine
timeout_in connected now m = transition_to now m detecting
timeout_in detecting now m = transition_to now m disconnected
timeout_in _ now m = m

pub on_heartbeat_timeout : ℕ → Machine → Machine
on_heartbeat_timeout now m = timeout_in m.state now m

-- OnIoSuccess
pub on_io_success : ℕ → Machine → Machine
on_io_success now m = record m { pending_io_count = m.pending_io_count - 1; last_heartbeat = now }

-- OnIoError, in the state that is given
abbrev pub io_error_in : ConnectionState → ℕ → Machine → Machine
io_error_in connected now m = transition_to now m detecting
io_error_in _ now m = m

pub on_io_error : ℕ → Machine → Machine
on_io_error now m =
    io_error_in m.state now (record m { pending_io_count = u32 (m.pending_io_count + 1) })

-- the loop of TryNextServer with n rounds left, from the round i on: the next index, if there is one
abbrev pub next_from : ℕ → ℕ → ℕ → ℕ → Option ℕ
next_from count current zero i = none
next_from count current (suc n) i =
    let next = (current + 1 + i) % count in
    let rest = next_from count current n (suc i) in if next == current then rest else some next

-- TryNextServer: the index to switch to
unfoldable pub try_next_server : Machine → Option ℕ
try_next_server m =
    let count = length m.servers in
    if leb count 1 then none else next_from count m.current_server_idx count 0

-- the loop of ComputeBackoff with n rounds left
abbrev pub backoff_from : ReconnectConfig → ℕ → ℕ → ℕ
backoff_from c zero backoff = backoff
backoff_from c (suc n) backoff =
    let rest = backoff_from c n (c.scaled backoff) in
    if leb c.max_backoff_ms (c.scaled backoff) then c.max_backoff_ms else rest

-- ComputeBackoff, for a number of retries
pub compute_backoff : ReconnectConfig → ℕ → ℕ
compute_backoff c retry_count = backoff_from c retry_count c.min_backoff_ms

-- what follows the last retry: another server, or none
abbrev pub retries_used_up : ℕ → Machine → Option ℕ → Machine
retries_used_up now m none = transition_to now m offline
retries_used_up now m (some i) =
    transition_to now (record m { current_server_idx = i; retry_count = 0 }) reconnecting

-- a failed attempt to reconnect, by what TryNextServer finds if the retries are used up
abbrev pub attempt_failed : ℕ → Machine → Option ℕ → Machine
attempt_failed now m next_server =
    let failed = record m { retry_count = u32 (m.retry_count + 1) } in
    let waiting = record failed {
      current_backoff_ms = compute_backoff m.config failed.retry_count;
      last_reconnect_attempt = now;
    } in
    if leb m.config.max_retry_count failed.retry_count
    then retries_used_up now failed next_server
    else waiting

-- an attempt to reconnect to a server that is there, by its outcome
abbrev pub attempted : ℕ → Machine → Bool → Machine
attempted now m ok =
    if ok
    then transition_to now (restart_retries m) recovering
    else attempt_failed now m (try_next_server m)

-- the attempt, if a callback and a server are there
abbrev pub attempt : ℕ → Option (ServerEndpoint → Bool) → Option ServerEndpoint → Machine → Machine
attempt now none server m = m
attempt now (some connect) none m = m
attempt now (some connect) (some s) m = attempted now m (connect s)

-- Tick in the state Reconnecting; `connects` is on_connect_attempt, if it is set
abbrev pub tick_reconnecting : ℕ → Option (ServerEndpoint → Bool) → Machine → Machine
tick_reconnecting now connects m =
    if leb m.current_backoff_ms (now - m.last_reconnect_attempt)
    then attempt now connects (get_elem? m.servers m.current_server_idx) m
    else m

-- a transition when more than a timeout has passed since
abbrev pub timed_out : ℕ → Machine → ℕ → ℕ → ConnectionState → Machine
timed_out now m since timeout new_state =
    if ltb timeout (now - since) then transition_to now m new_state else m

-- Tick of a machine that runs, in the state that is given
abbrev pub tick_in : ConnectionState → ℕ → Option (ServerEndpoint → Bool) → Machine → Machine
tick_in connected now connects m =
    timed_out now m m.last_heartbeat m.config.detect_timeout_ms detecting
tick_in detecting now connects m =
    timed_out now m m.state_enter_time m.config.detect_timeout_ms disconnected
tick_in disconnected now connects m = transition_to now (restart_retries m) reconnecting
tick_in reconnecting now connects m = tick_reconnecting now connects m
tick_in recovering now connects m =
    timed_out now m m.state_enter_time m.config.recovery_timeout_ms disconnected
tick_in offline now connects m = m

-- Tick
pub tick : ℕ → Option (ServerEndpoint → Bool) → Machine → Machine
tick now connects m = if m.running then tick_in m.state now connects m else m

-- GetState, IsConnected and CanPerformIo
abbrev pub is_connected : Machine → Bool
is_connected m = same_state m.state connected

abbrev pub can_perform_io : Machine → Bool
can_perform_io m = elim m.state [ connected ↦ true | detecting ↦ true | _ ↦ false ]
