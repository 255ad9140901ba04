-- ===== src/NetState/Delay.antt =====
-- The delay between attempts and the index of the server over any operations, and what a switch to
-- another server leaves as it was.
use native.Mathlib.Nat.{mod-lt}
use mathlib.Core.Option.{some-injective, none-ne-some}
use htkis_hyper_disk.Base.{
  Bool-cases, leb-false, ℕ, zero, suc, ◌+◌, ◌-◌, ◌%◌, ◌≡◌, ◌<◌, ◌≤◌, refl, sym, ap, ◌∙◌, Bool, true,
  false, List, Option, none, some, ◌⊎◌, inl, inr, if◌then◌else◌, if-elim, ltb, leb, ◌==◌, length,
  get_elem?, u32, arith,
}
use htkis_hyper_disk.NetState.{
  ConnectionState, connected, detecting, disconnected, reconnecting, recovering, offline,
  ServerEndpoint, ReconnectConfig, Machine, same_state, transition_to, restart_retries, next_from,
  try_next_server, backoff_from, compute_backoff, retries_used_up, attempted, attempt, timed_out,
  tick_in,
}

backoff_from-most :
    (c : ReconnectConfig) (n backoff : ℕ)
    → backoff ≤ c.max_backoff_ms
    → backoff_from c n backoff ≤ c.max_backoff_ms
backoff_from-most c zero backoff le = le
backoff_from-most c (suc n) backoff le =
    elim (Bool-cases (leb c.max_backoff_ms (c.scaled backoff))) [
      | inl e ↦ omega (arith, round n backoff e)
      | inr e ↦ omega (
        arith,
        round n backoff e,
        backoff_from-most c n (c.scaled backoff)
            (omega (arith, leb-false c.max_backoff_ms (c.scaled backoff) e)),
      )
    ]
  where
    round :
        (n backoff : ℕ) {b : Bool}
        → leb c.max_backoff_ms (c.scaled backoff) ≡ b
        → backoff_from c (suc n) backoff
          ≡ (if b then c.max_backoff_ms else backoff_from c n (c.scaled backoff))
    round n backoff e =
        ap (λ b. if b then c.max_backoff_ms else backoff_from c n (c.scaled backoff)) e

-- The configured bounds are in order, the delay is within the upper one, and the index of the server
-- lies in the list, if there are servers.
pub record Within (c : ReconnectConfig) (backoff : ℕ) (servers : List ServerEndpoint) (idx : ℕ)
    : Type 0 where
  pub ordered : c.min_backoff_ms ≤ c.max_backoff_ms
  pub backoff_most : backoff ≤ c.max_backoff_ms
  pub in_range : (length servers ≡ 0) ⊎ (idx < length servers)

abbrev pub Bounded : Machine → Type 0
Bounded m = Within m.config m.current_backoff_ms m.servers m.current_server_idx

pub transition_to-Bounded :
    (now : ℕ) (m : Machine) (s : ConnectionState) → Bounded m → Bounded (transition_to now m s)
unfolding transition_to
transition_to-Bounded now m s h = if-elim (λ x. Bounded x) (same_state m.state s) h h

pub restart_retries-Bounded : (m : Machine) → Bounded m → Bounded (restart_retries m)
restart_retries-Bounded m h = record {
  ordered = h.ordered;
  backoff_most = h.ordered;
  in_range = h.in_range;
}

next_from-bound :
    (count current n i j : ℕ) → 0 < count → next_from count current n i ≡ some j → j < count
next_from-bound count current zero i j pos h = absurd (none-ne-some j h)
next_from-bound count current (suc n) i j pos h =
    elim (Bool-cases (((current + 1 + i) % count) == current)) [
      | inl e ↦ next_from-bound count current n (suc i) j pos (sym (round e) ∙ h)
      | inr e ↦ omega (
        arith,
        some-injective ((current + 1 + i) % count) j (sym (round e) ∙ h),
        mod-lt (current + 1 + i) pos,
      )
    ]
  where
    round :
        {b : Bool}
        → (((current + 1 + i) % count) == current) ≡ b
        → next_from count current (suc n) i
          ≡ (if b then next_from count current n (suc i) else some ((current + 1 + i) % count))
    round e =
        ap (λ b. if b then next_from count current n (suc i) else some ((current + 1 + i) % count))
          e

try_next_server-bound : (m : Machine) (j : ℕ) → try_next_server m ≡ some j → j < length m.servers
unfolding try_next_server
try_next_server-bound m j h = elim (Bool-cases (leb (length m.servers) 1)) [
  | inl e ↦ absurd (none-ne-some j (sym (choice e) ∙ h))
  | inr e ↦
      next_from-bound (length m.servers) m.current_server_idx (length m.servers) 0 j
        (omega (arith, leb-false (length m.servers) 1 e)) (sym (choice e) ∙ h)
]
  where
    search : Option ℕ
    search = next_from (length m.servers) m.current_server_idx (length m.servers) 0

    choice :
        {b : Bool}
        → leb (length m.servers) 1 ≡ b
        → (if leb (length m.servers) 1 then none else search) ≡ (if b then none else search)
    choice e = ap (λ b. if b then none else search) e

retries_used_up-Bounded :
    (now : ℕ) (m : Machine) (next_server : Option ℕ)
    → ((j : ℕ) → next_server ≡ some j → j < length m.servers)
    → Bounded m
    → Bounded (retries_used_up now m next_server)
retries_used_up-Bounded now m none found h = transition_to-Bounded now m offline h
retries_used_up-Bounded now m (some i) found h =
    transition_to-Bounded now (record m { current_server_idx = i; retry_count = 0 }) reconnecting
      (record { ordered = h.ordered; backoff_most = h.backoff_most; in_range = inr (found i refl) })

attempted-Bounded : (now : ℕ) (m : Machine) (ok : Bool) → Bounded m → Bounded (attempted now m ok)
unfolding compute_backoff
attempted-Bounded now m true h =
    transition_to-Bounded now (restart_retries m) recovering (restart_retries-Bounded m h)
attempted-Bounded now m false h =
    let failed = record m { retry_count = u32 (m.retry_count + 1) } in
    if-elim (λ x. Bounded x) (leb m.config.max_retry_count failed.retry_count)
      (retries_used_up-Bounded now failed (try_next_server m) (try_next_server-bound m) h)
      (record {
        ordered = h.ordered;
        backoff_most =
            backoff_from-most m.config failed.retry_count m.config.min_backoff_ms h.ordered;
        in_range = h.in_range;
      })

attempt-Bounded :
    (now : ℕ) (connects : Option (ServerEndpoint → Bool)) (server : Option ServerEndpoint)
    (m : Machine)
    → Bounded m
    → Bounded (attempt now connects server m)
attempt-Bounded now none server m h = h
attempt-Bounded now (some connect) none m h = h
attempt-Bounded now (some connect) (some s) m h = attempted-Bounded now m (connect s) h

timed_out-Bounded :
    (now : ℕ) (m : Machine) (since timeout : ℕ) (s : ConnectionState)
    → Bounded m
    → Bounded (timed_out now m since timeout s)
timed_out-Bounded now m since timeout s h =
    if-elim (λ x. Bounded x) (ltb timeout (now - since)) (transition_to-Bounded now m s h) h

pub tick_in-Bounded :
    (s : ConnectionState) (now : ℕ) (connects : Option (ServerEndpoint → Bool)) (m : Machine)
    → Bounded m
    → Bounded (tick_in s now connects m)
tick_in-Bounded connected now connects m h =
    timed_out-Bounded now m m.last_heartbeat m.config.detect_timeout_ms detecting h
tick_in-Bounded detecting now connects m h =
    timed_out-Bounded now m m.state_enter_time m.config.detect_timeout_ms disconnected h
tick_in-Bounded disconnected now connects m h =
    transition_to-Bounded now (restart_retries m) reconnecting (restart_retries-Bounded m h)
tick_in-Bounded reconnecting now connects m h =
    if-elim (λ x. Bounded x) (leb m.current_backoff_ms (now - m.last_reconnect_attempt))
      (attempt-Bounded now connects (get_elem? m.servers m.current_server_idx) m h) h
tick_in-Bounded recovering now connects m h =
    timed_out-Bounded now m m.state_enter_time m.config.recovery_timeout_ms disconnected h
tick_in-Bounded offline now connects m h = h
