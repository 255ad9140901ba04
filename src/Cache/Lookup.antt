-- ===== src/Cache/Lookup.antt =====
-- What the cache holds after a sequence of calls, and how it counts reads.
use htkis_hyper_disk.Base.{
  ℕ, ◌≡◌, refl, ap, ◌∙◌, Bool, ◌&&◌, List, [], ◌∷◌, Option, none, some, ltb, ◌==◌, if◌then◌else◌,
  length, Bool-cases, Option-cases, inl, inr,
}
use htkis_hyper_disk.Nt.{Status, nt_success}
use htkis_hyper_disk.Cache.{Cache, setup, l1_lookup, l1_insert, l1_invalidate, pre_read}

-- The calls of the cache; an insertion says whether the pool has room.
pub data Op : Type 0 where
  insert : Bool → ℕ → List ℕ → Op
  invalidate : ℕ → Op
  read : Op

abbrev pub step : Cache → Op → Cache
step c (insert allocated block_offset bytes) = (l1_insert c allocated block_offset bytes).0
step c (invalidate block_offset) = l1_invalidate c block_offset
step c read = (pre_read c).0

abbrev pub run : Cache → List Op → Cache
run c [] = c
run c (op ∷ ops) = run (step c op) ops

-- what an insertion leaves: data that is kept stays, whatever the block
abbrev pub kept_insert : Option (List ℕ) → Bool → List ℕ → Option (List ℕ)
kept_insert (some bytes) allocated new = some bytes
kept_insert none allocated new = if ltb 0 (length new) && allocated then some new else none

-- The data that is kept: that of the first insertion after the last invalidation that had data and
-- room, for whatever block it was.
abbrev pub kept : Option (List ℕ) → List Op → Option (List ℕ)
kept held [] = held
kept held (invalidate _ ∷ ops) = kept none ops
kept held (read ∷ ops) = kept held ops
kept held (insert allocated _ bytes ∷ ops) = kept (kept_insert held allocated bytes) ops

pre_read-l1 : (c : Cache) → (pre_read c).0.l1_ram_cache ≡ c.l1_ram_cache
unfolding pre_read
pre_read-l1 c = elim (Bool-cases c.is_started) [
  | inr stopped ↦ simp stopped refl
  | inl started ↦ elim (Option-cases (l1_lookup c 0)) [
    | inl miss ↦ simp (started, miss) refl
    | inr hit ↦ simp (started, hit.1) refl
  ]
]

l1_insert-l1 :
    (c : Cache) (allocated : Bool) (offset : ℕ) (bytes : List ℕ)
    → (l1_insert c allocated offset bytes).0.l1_ram_cache
      ≡ kept_insert c.l1_ram_cache allocated bytes
unfolding l1_insert
l1_insert-l1 c allocated offset bytes = elim (Option-cases c.l1_ram_cache) [
  | inr full ↦ rw (full.1, l1_insert) full.1
  | inl empty ↦ elim (Bool-cases (ltb 0 (length bytes) && allocated)) [
    | inl stored ↦ rw (empty, l1_insert) (rw stored refl)
    | inr refused ↦ rw (empty, l1_insert) (rw refused empty)
  ]
]

run-l1 : (c : Cache) (ops : List Op) → (run c ops).l1_ram_cache ≡ kept c.l1_ram_cache ops
unfolding l1_invalidate
run-l1 c [] = refl
run-l1 c (invalidate offset ∷ ops) = run-l1 (l1_invalidate c offset) ops
run-l1 c (read ∷ ops) = run-l1 (pre_read c).0 ops ∙ ap (λ h. kept h ops) (pre_read-l1 c)
run-l1 c (insert allocated offset bytes ∷ ops) =
    run-l1 (l1_insert c allocated offset bytes).0 ops
    ∙ ap (λ h. kept h ops) (l1_insert-l1 c allocated offset bytes)

setup-l1 : (registered started : Status) → (setup registered started).0.l1_ram_cache ≡ none
unfolding setup
setup-l1 registered started = elim (Bool-cases (nt_success registered)) [
  | inr failed ↦ simp failed refl
  | inl ok ↦ elim (Bool-cases (nt_success started)) [
    | inr failed ↦ simp (ok, failed) refl
    | inl running ↦ simp (ok, running) refl
  ]
]

-- After HdCacheFilterSetup and any sequence of HdCacheL1Insert, HdCacheL1Invalidate and HdCachePreRead,
-- HdCacheL1Lookup finds nothing for a block other than 0; for block 0 it finds the data of the first
-- insertion since the last invalidation that had data and room, whichever block that was inserted for.
pub l1_lookup-run :
    (registered started : Status) (ops : List Op) (block_offset : ℕ)
    → l1_lookup (run (setup registered started).0 ops) block_offset
      ≡ (if block_offset == 0 then kept none ops else none)
unfolding l1_lookup
l1_lookup-run registered started ops offset =
    ap (λ h. if offset == 0 then h else none)
      (run-l1 (setup registered started).0 ops ∙ ap (λ h. kept h ops) (setup-l1 registered started))
