-- ===== src/NetState/Moves.antt =====
-- Each event takes an edge that starts at the state, if there is one, and reports it.
use htkis_hyper_disk.Base.{◌≡◌, Bool, [], ◌∷◌, ◌++◌}
use htkis_hyper_disk.NetState.{Machine}
use htkis_hyper_disk.NetState.Edges.{Event, Edge}

-- The state stays and nothing is reported, or it takes an edge that is reported.
data Follows (m : Machine) (e : Event) (n : Machine) : Type 0 where
  keeps : n.state ≡ m.state → n.changes ≡ m.changes → Follows m e n
  takes :
      Edge m e m.state n.state → n.changes ≡ m.changes ++ ((m.state, n.state) ∷ []) → Follows m e n
