-- ===== src/Net/Cleanup.antt =====
-- HdNetCleanup: the loop over the 64 slots.
use htkis_hyper_disk.Base.{
  ℕ, zero, suc, ◌+◌, ◌<◌, ◌≡◌, refl, ◌∙◌, false, ◌==◌, if◌then◌else◌, arith, ◌⊎◌, inl, inr,
  Bool-cases, ==_iff, ==-false, List, [], ◌∷◌, length,
}
use htkis_hyper_disk.Net.{
  Connection, Net, max_connections, deactivate, disconnect, is_active_at, cleanup_from, cleanup,
}
use htkis_hyper_disk.Net.Disconnect.{disconnect-IsValid}
use htkis_hyper_disk.Net.Connections.{IsValid, active}

-- every slot below i is idle
abbrev IdleBelow : ℕ → List Connection → Type 0
IdleBelow i cs = (j : ℕ) → j < i → is_active_at cs j ≡ false

active_of_idle : (cs : List Connection) → IdleBelow (length cs) cs → active cs ≡ 0
active_of_idle [] h = refl
active_of_idle (c ∷ cs) h =
    ground (arith, h 0 (omega arith), active_of_idle cs (λ j hj. h (suc j) (omega arith)))

is_active_at-deactivate :
    (cs : List Connection) (i j : ℕ)
    → (is_active_at (deactivate cs i) j ≡ false)
      ⊎ (is_active_at (deactivate cs i) j ≡ is_active_at cs j)
is_active_at-deactivate [] i j = inr refl
is_active_at-deactivate (c ∷ cs) zero zero = inl refl
is_active_at-deactivate (c ∷ cs) zero (suc j) = inr refl
is_active_at-deactivate (c ∷ cs) (suc i) zero = inr refl
is_active_at-deactivate (c ∷ cs) (suc i) (suc j) = is_active_at-deactivate cs i j

is_active_at-deactivate_self :
    (cs : List Connection) (i : ℕ) → is_active_at (deactivate cs i) i ≡ false
is_active_at-deactivate_self [] i = refl
is_active_at-deactivate_self (c ∷ cs) zero = refl
is_active_at-deactivate_self (c ∷ cs) (suc i) = is_active_at-deactivate_self cs i

-- one round of the loop
abbrev round : ℕ → Net → Net
round i n = if is_active_at n.connections i then (disconnect n i).1 else n

round-IdleBelow :
    (n : Net) (i : ℕ)
    → IsValid n
    → i < max_connections
    → IdleBelow i n.connections
    → IdleBelow (i + 1) (round i n).connections
unfolding disconnect
round-IdleBelow n i v hi idle j hj = elim (Bool-cases (j == i)) [
  | inl e ↦ rw ((==_iff j i).0 e) (ground (arith, is_active_at-deactivate_self n.connections i))
  | inr ne ↦
      let below : j < i = omega (arith, ==-false j i ne) in
      ground (arith, is_active_at-deactivate n.connections i j, idle j below)
]

round-IsValid : (n : Net) (i : ℕ) → IsValid n → IsValid (round i n)
round-IsValid n i v = elim (Bool-cases (is_active_at n.connections i)) [
  | inl on ↦ ground (arith, disconnect-IsValid n i v on)
  | inr off ↦ rw off v
]

cleanup_from-idle :
    (left i : ℕ) (n : Net)
    → left + i ≡ max_connections
    → IsValid n
    → IdleBelow i n.connections
    → IsValid (cleanup_from left i n)
      × IdleBelow max_connections (cleanup_from left i n).connections
unfolding cleanup_from
cleanup_from-idle zero i n e v idle = (v, λ j hj. idle j (omega arith))
cleanup_from-idle (suc left) i n e v idle =
    cleanup_from-idle left (i + 1) (round i n) (omega arith) (round-IsValid n i v)
      (round-IdleBelow n i v (omega arith) idle)

-- HdNetCleanup on a valid table closes every connection: no slot is active, the count is 0, and the
-- table stays valid.
pub cleanup-idle :
    (n : Net)
    → IsValid n
    → IsValid (cleanup n)
      × (active (cleanup n).connections ≡ 0)
      × ((cleanup n).connection_count ≡ 0)
unfolding cleanup
cleanup-idle n v =
    let (valid, idle) =
      cleanup_from-idle max_connections 0 n refl v (λ j hj. absurd (omega arith)) in
    let all : IdleBelow (length (cleanup n).connections) (cleanup n).connections =
      λ j hj. idle j (omega (arith, valid.slots)) in
    let none_left = active_of_idle (cleanup n).connections all in
    (valid, none_left, valid.counted ∙ none_left)
