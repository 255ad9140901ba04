-- ===== src/Lfu/Tests.antt =====
-- Runs of the sketch and of the cache on a few keys.
use htkis_hyper_disk.Base.{ℕ, ◌≤◌, refl, true, List, [], ◌∷◌, ◌++◌, none, some, length, arith}
use htkis_hyper_disk.Lfu.Sketch.{new_tinylfu, estimate}
use htkis_hyper_disk.Lfu.Sketch.Counts.{count}
use htkis_hyper_disk.Lfu.Sketch.Periods.{access_all, access_all-estimate}
use htkis_hyper_disk.Lfu.Queues.Shape.{Shape}
use htkis_hyper_disk.Lfu.Queues.Fifo.{Op, put_op, get_op}

-- a whole period of a cache of one place, and two accesses more
abbrev olds : List ℕ
olds = 1 ∷ 2 ∷ 3 ∷ 4 ∷ 5 ∷ 6 ∷ 7 ∷ 8 ∷ 9 ∷ 7 ∷ []

abbrev news : List ℕ
news = 7 ∷ 7 ∷ []

access_all-estimate_example :
    (count 7 news ≤ estimate (access_all (new_tinylfu 1 8 2) (olds ++ news)).cm 7)
    × (estimate (access_all (new_tinylfu 1 8 2) (olds ++ news)).cm 7 ≤ length news)
access_all-estimate_example =
    access_all-estimate 1 8 2 1 7 olds news (omega arith) (omega arith) (omega arith) (omega arith)
      refl (omega arith)

-- a cache of two places: the second put of key 1 and the read of it do not save it from eviction
abbrev ops : List Op
ops =
    put_op true 1 (some (10 ∷ 11 ∷ [])) 2
    ∷ put_op true 2 none 0
    ∷ put_op true 1 (some (12 ∷ [])) 1
    ∷ get_op 1 true 64
    ∷ put_op true 3 (some (30 ∷ [])) 1
    ∷ []
