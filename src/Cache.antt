-- ===== src/Cache.antt =====
-- driver/cache/cache_driver.c: the filter that keeps one block of read data. Data is a list of bytes.
pub mod Lookup
mod Tests
use htkis_hyper_disk.Base.{
  ℕ, zero, suc, ◌+◌, Bool, true, false, not, ◌&&◌, List, [], ◌∷◌, Option, none, some, ltb, ◌==◌,
  if◌then◌else◌, u32, length, take,
}
use htkis_hyper_disk.Nt.{Status, success, insufficient_resources, nt_success}

-- HD_CACHE_EXTENSION, as far as it is used, with the filter handle
pub record Cache : Type 0 where
  pub l1_ram_cache : Option (List ℕ)
  pub cache_hit_count : ℕ
  pub cache_miss_count : ℕ
  pub has_filter : Bool
  pub is_started : Bool

-- HdCacheFilterSetup, given the answers of FltRegisterFilter and FltStartFiltering
pub setup : Status → Status → Cache × Status
setup registered started =
    let fresh : Cache = record {
      l1_ram_cache = none;
      cache_hit_count = 0;
      cache_miss_count = 0;
      has_filter = false;
      is_started = false;
    } in
    if not (nt_success registered)
    then (fresh, registered)
    else (if not (nt_success started)
        then (fresh, started)
        else (record fresh { has_filter = true; is_started = true }, success))

-- HdCacheFilterUnload. The cached block stays allocated.
pub unload : Cache → Cache
unload c = record c { has_filter = false; is_started = false }

-- HdCacheL1Lookup
pub l1_lookup : Cache → ℕ → Option (List ℕ)
l1_lookup c block_offset = if block_offset == 0 then c.l1_ram_cache else none

-- HdCacheL1Insert of data that is not empty or empty, given whether the pool has room
pub l1_insert : Cache → Bool → ℕ → List ℕ → Cache × Status
l1_insert c allocated block_offset bytes = elim c.l1_ram_cache [
  | some kept ↦ (c, success)
  | none ↦
      if ltb 0 (length bytes) && allocated
      then (record c { l1_ram_cache = some bytes }, success)
      else (c, insufficient_resources)
]

-- HdCacheL1Invalidate
pub l1_invalidate : Cache → ℕ → Cache
l1_invalidate c block_offset = record c { l1_ram_cache = none }

-- HdCachePreRead: the state and whether the read is completed by the filter. Which block is read does
-- not matter: the lookup is for block 0.
pub pre_read : Cache → Cache × Bool
pre_read c = if not c.is_started then (c, false) else elim (l1_lookup c 0) [
  | some cached ↦ (record c { cache_hit_count = u32 (c.cache_hit_count + 1) }, true)
  | none ↦ (record c { cache_miss_count = u32 (c.cache_miss_count + 1) }, false)
]
