-- ===== src/NetState/Runs.antt =====
-- Any sequence of operations on the machine, and the attempt that ends the retries at one server.
use htkis_hyper_disk.Base.{
  ℕ, suc, ◌+◌, ◌-◌, ◌≡◌, ◌<◌, ◌≤◌, refl, ap, ◌∙◌, Bool, true, false, List, [], ◌∷◌, some, inl, inr,
  if◌then◌else◌, if-elim, leb, ◌==◌, length, get_elem?, u32, arith,
}
use htkis_hyper_disk.NetState.{
  ConnectionState, connected, detecting, disconnected, reconnecting, recovering, offline,
  ServerEndpoint, ReconnectConfig, Machine, new_machine, primary_from, set_servers, same_state,
  entered, transition_to, restart_retries, start, stop, heartbeat_in, on_heartbeat_success,
  timeout_in, on_heartbeat_timeout, on_io_success, io_error_in, on_io_error, try_next_server,
  compute_backoff, retries_used_up, attempt_failed, attempted, attempt, tick_in, tick,
}
use htkis_hyper_disk.NetState.Edges.{
  Event, heartbeat_success, heartbeat_timeout, io_success, io_error, ticked, step,
}
use htkis_hyper_disk.NetState.Delay.{
  Bounded, transition_to-Bounded, restart_retries-Bounded, tick_in-Bounded,
}

-- The operations that the client calls.
pub data Op : Type 0 where
  servers_set : List ServerEndpoint → Op
  started : ℕ → Op
  stopped : ℕ → Op
  event : Event → Op

pub perform : Machine → Op → Machine
perform m (servers_set servers) = set_servers m servers
perform m (started now) = start now m
perform m (stopped now) = stop now m
perform m (event e) = step m e

pub run : Machine → List Op → Machine
run m [] = m
run m (o ∷ os) = run (perform m o) os

heartbeat_in-Bounded :
    (s : ConnectionState) (now : ℕ) (m : Machine) → Bounded m → Bounded (heartbeat_in s now m)
heartbeat_in-Bounded connected now m h = h
heartbeat_in-Bounded detecting now m h =
    transition_to-Bounded now (restart_retries m) connected (restart_retries-Bounded m h)
heartbeat_in-Bounded disconnected now m h = h
heartbeat_in-Bounded reconnecting now m h =
    transition_to-Bounded now (restart_retries m) connected (restart_retries-Bounded m h)
heartbeat_in-Bounded recovering now m h =
    transition_to-Bounded now (restart_retries m) connected (restart_retries-Bounded m h)
heartbeat_in-Bounded offline now m h = h

timeout_in-Bounded :
    (s : ConnectionState) (now : ℕ) (m : Machine) → Bounded m → Bounded (timeout_in s now m)
timeout_in-Bounded connected now m h = transition_to-Bounded now m detecting h
timeout_in-Bounded detecting now m h = transition_to-Bounded now m disconnected h
timeout_in-Bounded disconnected now m h = h
timeout_in-Bounded reconnecting now m h = h
timeout_in-Bounded recovering now m h = h
timeout_in-Bounded offline now m h = h

io_error_in-Bounded :
    (s : ConnectionState) (now : ℕ) (m : Machine) → Bounded m → Bounded (io_error_in s now m)
io_error_in-Bounded connected now m h = transition_to-Bounded now m detecting h
io_error_in-Bounded detecting now m h = h
io_error_in-Bounded disconnected now m h = h
io_error_in-Bounded reconnecting now m h = h
io_error_in-Bounded recovering now m h = h
io_error_in-Bounded offline now m h = h

step-Bounded : (m : Machine) (e : Event) → Bounded m → Bounded (step m e)
unfolding step on_heartbeat_success on_heartbeat_timeout on_io_success on_io_error tick
step-Bounded m (heartbeat_success now) h =
    heartbeat_in-Bounded m.state now (record m { last_heartbeat = now }) h
step-Bounded m (heartbeat_timeout now) h = timeout_in-Bounded m.state now m h
step-Bounded m (io_success now) h = h
step-Bounded m (io_error now) h =
    io_error_in-Bounded m.state now (record m { pending_io_count = u32 (m.pending_io_count + 1) }) h
step-Bounded m (ticked now connects) h =
    if-elim (λ x. Bounded x) m.running (tick_in-Bounded m.state now connects m h) h

primary_from-bound :
    (i n : ℕ) (ss : List ServerEndpoint) → 0 < n → i + length ss ≤ n → primary_from i ss < n
primary_from-bound i n [] pos fits = pos
primary_from-bound i n (s ∷ ss) pos fits =
    if-elim (λ k. k < n) s.is_primary (omega (arith, fits))
      (primary_from-bound (suc i) n ss pos (omega (arith, fits)))

perform-Bounded : (m : Machine) (o : Op) → Bounded m → Bounded (perform m o)
unfolding perform set_servers start stop
perform-Bounded m (servers_set []) h = record {
  ordered = h.ordered;
  backoff_most = h.backoff_most;
  in_range = inl refl;
}
perform-Bounded m (servers_set (s ∷ ss)) h = record {
  ordered = h.ordered;
  backoff_most = h.backoff_most;
  in_range = inr (primary_from-bound 0 (length (s ∷ ss)) (s ∷ ss) (omega arith) (omega arith));
}
perform-Bounded m (started now) h =
    transition_to-Bounded now
      (record (restart_retries m) { running = true; state_enter_time = now; last_heartbeat = now })
      (if length m.servers == 0 then offline else connected) (restart_retries-Bounded m h)
perform-Bounded m (stopped now) h =
    transition_to-Bounded now (record m { running = false }) offline h
perform-Bounded m (event e) h = step-Bounded m e h

run_from-Bounded : (m : Machine) (os : List Op) → Bounded m → Bounded (run m os)
unfolding run
run_from-Bounded m [] h = h
run_from-Bounded m (o ∷ os) h = run_from-Bounded (perform m o) os (perform-Bounded m o h)

-- After any operations on a new machine whose least delay is not above its greatest, the delay is at
-- most the greatest one, whatever scaling by the multiplier gives, and the index of the current server
-- lies in the list of servers, or the list is empty.
pub run-Bounded :
    (c : ReconnectConfig) (os : List Op)
    → c.min_backoff_ms ≤ c.max_backoff_ms
    → Bounded (run (new_machine c) os)
run-Bounded c os ordered =
    run_from-Bounded (new_machine c) os
      (record { ordered = ordered; backoff_most = ordered; in_range = inl refl })

last_failure :
    (now i : ℕ) (m : Machine)
    → m.state ≡ reconnecting
    → leb m.config.max_retry_count (u32 (m.retry_count + 1)) ≡ true
    → attempt_failed now m (some i) ≡ record m { current_server_idx = i; retry_count = 0 }
unfolding transition_to
last_failure now i m at_r last =
    ap (λ b. if b then retries_used_up now failed (some i) else waiting) last
    ∙ ap (λ x. if same_state x reconnecting then other else entered now other reconnecting) at_r
  where
    failed : Machine
    failed = record m { retry_count = u32 (m.retry_count + 1) }

    waiting : Machine
    waiting = record failed {
      current_backoff_ms = compute_backoff m.config failed.retry_count;
      last_reconnect_attempt = now;
    }

    other : Machine
    other = record m { current_server_idx = i; retry_count = 0 }

-- A tick of a running machine in Reconnecting whose delay has passed, on which the attempt at the
-- current server fails for the last time, while there is another server: it changes the index and sets
-- the retry count to 0, and nothing else. The delay stays as long as it has grown, and the time of the
-- last attempt stays the old one, so the next tick tries the new server without a delay.
tick_switches :
    (now i : ℕ) (connect : ServerEndpoint → Bool) (s : ServerEndpoint) (m : Machine)
    → m.running ≡ true
    → m.state ≡ reconnecting
    → leb m.current_backoff_ms (now - m.last_reconnect_attempt) ≡ true
    → get_elem? m.servers m.current_server_idx ≡ some s
    → connect s ≡ false
    → leb m.config.max_retry_count (u32 (m.retry_count + 1)) ≡ true
    → try_next_server m ≡ some i
    → tick now (some connect) m ≡ record m { current_server_idx = i; retry_count = 0 }
unfolding tick
tick_switches now i connect s m on at_r due server refused last other =
    ap (λ b. if b then tick_in m.state now (some connect) m else m) on
    ∙ ap (λ x. tick_in x now (some connect) m) at_r
    ∙ ap
        (λ b.
          if b then attempt now (some connect) (get_elem? m.servers m.current_server_idx) m else m)
        due
    ∙ ap (λ x. attempt now (some connect) x m) server
    ∙ ap (attempted now m) refused
    ∙ ap (attempt_failed now m) other
    ∙ last_failure now i m at_r last
