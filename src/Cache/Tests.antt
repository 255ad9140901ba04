-- ===== src/Cache/Tests.antt =====
-- Concrete runs of the cache.
use htkis_hyper_disk.Base.{◌≡◌, true, List, [], ◌∷◌, none, ◌==◌, if◌then◌else◌}
use htkis_hyper_disk.Nt.{success}
use htkis_hyper_disk.Cache.{setup, l1_lookup}
use htkis_hyper_disk.Cache.Lookup.{Op, insert, read, run, kept, l1_lookup-run}

-- Block 5 is inserted first, so block 0 is answered with its data.
abbrev ops : List Op
ops = insert true 5 (1 ∷ 2 ∷ []) ∷ read ∷ insert true 0 (3 ∷ []) ∷ []

l1_lookup-run_example :
    l1_lookup (run (setup success success).0 ops) 0 ≡ (if 0 == 0 then kept none ops else none)
l1_lookup-run_example = l1_lookup-run success success ops 0
