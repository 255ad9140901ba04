-- ===== src/Net/Disconnect.antt =====
-- net_connect.c: HdNetDisconnect on the connection table, with an active slot and with an idle one.
use htkis_hyper_disk.Base.{
  ℕ, zero, suc, ◌+◌, ◌<◌, ◌≡◌, refl, ap, true, false, arith, List, [], ◌∷◌, length, sub32,
}
use htkis_hyper_disk.Nt.{success}
use htkis_hyper_disk.Net.{Connection, Net, max_connections, deactivate, disconnect, is_active_at}
use htkis_hyper_disk.Net.Connections.{active, IsValid, active-le}

pub length-deactivate : (cs : List Connection) (i : ℕ) → length (deactivate cs i) ≡ length cs
length-deactivate [] i = refl
length-deactivate (c ∷ cs) zero = refl
length-deactivate (c ∷ cs) (suc i) = ap suc (length-deactivate cs i)

pub active-deactivate :
    (cs : List Connection) (i : ℕ)
    → is_active_at cs i ≡ true
    → active (deactivate cs i) + 1 ≡ active cs
active-deactivate [] i h = cc
active-deactivate (c ∷ cs) zero h = ground arith
active-deactivate (c ∷ cs) (suc i) h = omega (arith, active-deactivate cs i h)

pub is_active_at-lt : (cs : List Connection) (i : ℕ) → is_active_at cs i ≡ true → i < length cs
is_active_at-lt [] i h = cc
is_active_at-lt (c ∷ cs) zero h = omega arith
is_active_at-lt (c ∷ cs) (suc i) h = omega (arith, is_active_at-lt cs i h)

-- HdNetDisconnect on an active slot of a valid table succeeds and keeps the table valid, with one
-- active slot less.
pub disconnect-IsValid :
    (n : Net) (i : ℕ)
    → IsValid n
    → is_active_at n.connections i ≡ true
    → ((disconnect n i).0 ≡ success)
      × IsValid (disconnect n i).1
      × (active (disconnect n i).1.connections + 1 ≡ active n.connections)
unfolding disconnect
disconnect-IsValid n i v h = ground (
  arith,
  length-deactivate n.connections i,
  active-deactivate n.connections i h,
  is_active_at-lt n.connections i h,
  active-le n.connections,
)

active-deactivate_idle :
    (cs : List Connection) (i : ℕ)
    → is_active_at cs i ≡ false
    → active (deactivate cs i) ≡ active cs
active-deactivate_idle [] i h = refl
active-deactivate_idle (c ∷ cs) zero h = ground arith
active-deactivate_idle (c ∷ cs) (suc i) h = omega (arith, active-deactivate_idle cs i h)

-- HdNetDisconnect does not test that the slot is active: for an idle slot in range it reports success
-- and takes one from the count, so that a valid table is left invalid. With no active slot the count
-- wraps round to 2 ^ 32 - 1.
disconnect_idle :
    (n : Net) (i : ℕ)
    → IsValid n
    → i < max_connections
    → is_active_at n.connections i ≡ false
    → ((disconnect n i).0 ≡ success)
      × (¬ IsValid (disconnect n i).1)
      × ((disconnect n i).1.connection_count ≡ sub32 (active n.connections) 1)
unfolding disconnect
disconnect_idle n i v hi h = (
  ground arith,
  (λ w. omega (arith, w.counted, count_left, active_left, v.slots, active-le n.connections)),
  count_left,
)
  where
    count_left : (disconnect n i).1.connection_count ≡ sub32 (active n.connections) 1
    count_left = ground arith

    active_left : active (disconnect n i).1.connections ≡ active n.connections
    active_left = ground (arith, active-deactivate_idle n.connections i h)
