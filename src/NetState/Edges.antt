-- ===== src/NetState/Edges.antt =====
-- Which changes of the state each event makes, and their reports.
use htkis_hyper_disk.Base.{
  ℕ, ◌+◌, ◌-◌, ◌≡◌, refl, Bool, true, false, [], ◌∷◌, ◌++◌, Option, none, some, ◌≤◌, ◌<◌, get_elem?,
  u32,
}
use htkis_hyper_disk.NetState.{
  ConnectionState, connected, detecting, disconnected, reconnecting, recovering, offline,
  ServerEndpoint, Machine, same_state, on_heartbeat_success, on_heartbeat_timeout, on_io_success,
  on_io_error, try_next_server, tick,
}

-- The events between Start and Stop, with their times.
pub data Event : Type 0 where
  heartbeat_success : ℕ → Event
  heartbeat_timeout : ℕ → Event
  io_success : ℕ → Event
  io_error : ℕ → Event
  ticked : ℕ → Option (ServerEndpoint → Bool) → Event

unfoldable pub step : Machine → Event → Machine
step m (heartbeat_success now) = on_heartbeat_success now m
step m (heartbeat_timeout now) = on_heartbeat_timeout now m
step m (io_success now) = on_io_success now m
step m (io_error now) = on_io_error now m
step m (ticked now connects) = tick now connects m

-- The changes that the events make of a machine, from its state and to another one. Those of a tick
-- need a machine that runs; `now` is the time of the event.
pub data Edge (m : Machine) : Event → ConnectionState → ConnectionState → Type 0 where
  alive : {now : ℕ} → Edge m (heartbeat_success now) detecting connected
  answered : {now : ℕ} → Edge m (heartbeat_success now) reconnecting connected
  recovered : {now : ℕ} → Edge m (heartbeat_success now) recovering connected
  late : {now : ℕ} → Edge m (heartbeat_timeout now) connected detecting
  lost : {now : ℕ} → Edge m (heartbeat_timeout now) detecting disconnected
  broken : {now : ℕ} → Edge m (io_error now) connected detecting
  suspect :
      {now : ℕ} {connects : Option (ServerEndpoint → Bool)}
      → m.running ≡ true
      → m.config.detect_timeout_ms < now - m.last_heartbeat
      → Edge m (ticked now connects) connected detecting
  give_up :
      {now : ℕ} {connects : Option (ServerEndpoint → Bool)}
      → m.running ≡ true
      → m.config.detect_timeout_ms < now - m.state_enter_time
      → Edge m (ticked now connects) detecting disconnected
  retry :
      {now : ℕ} {connects : Option (ServerEndpoint → Bool)}
      → m.running ≡ true
      → Edge m (ticked now connects) disconnected reconnecting
  reach :
      {now : ℕ} {connect : ServerEndpoint → Bool} {server : ServerEndpoint}
      → m.running ≡ true
      → m.current_backoff_ms ≤ now - m.last_reconnect_attempt
      → get_elem? m.servers m.current_server_idx ≡ some server
      → connect server ≡ true
      → Edge m (ticked now (some connect)) reconnecting recovering
  fail :
      {now : ℕ} {connect : ServerEndpoint → Bool} {server : ServerEndpoint}
      → m.running ≡ true
      → m.current_backoff_ms ≤ now - m.last_reconnect_attempt
      → get_elem? m.servers m.current_server_idx ≡ some server
      → connect server ≡ false
      → m.config.max_retry_count ≤ u32 (m.retry_count + 1)
      → try_next_server m ≡ none
      → Edge m (ticked now (some connect)) reconnecting offline
  expire :
      {now : ℕ} {connects : Option (ServerEndpoint → Bool)}
      → m.running ≡ true
      → m.config.recovery_timeout_ms < now - m.state_enter_time
      → Edge m (ticked now connects) recovering disconnected

pub Edge-leaves :
    {m : Machine} {e : Event} {a b : ConnectionState} → Edge m e a b → same_state a b ≡ false
Edge-leaves alive = refl
Edge-leaves answered = refl
Edge-leaves recovered = refl
Edge-leaves late = refl
Edge-leaves lost = refl
Edge-leaves broken = refl
Edge-leaves (suspect r h) = refl
Edge-leaves (give_up r h) = refl
Edge-leaves (retry r) = refl
Edge-leaves (reach r h g c) = refl
Edge-leaves (fail r h g c k t) = refl
Edge-leaves (expire r h) = refl

-- No edge of the event starts at the state, which stays, and nothing is reported; or the state takes
-- an edge of the event, which is reported.
pub data Moved (m : Machine) (e : Event) (n : Machine) : Type 0 where
  stayed :
      ((s : ConnectionState) → ¬ Edge m e m.state s)
      → n.state ≡ m.state
      → n.changes ≡ m.changes
      → Moved m e n
  moved :
      Edge m e m.state n.state → n.changes ≡ m.changes ++ ((m.state, n.state) ∷ []) → Moved m e n
