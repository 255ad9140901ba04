-- ===== src/Lfu/Queues.antt =====
-- w_tinylfu.cpp: WTinyLFUCache, with its three queues. The unordered map of entries is a list, in which
-- a new entry comes last. The lock makes each operation one step; the atomic counters are numbers.
pub mod Shape
pub mod Entries
pub mod Fifo
pub mod Count
use htkis_hyper_disk.Base.{
  ℕ, zero, suc, ◌+◌, ◌-◌, ◌*◌, ◌/◌, Bool, true, false, not, ◌&&◌, List, [], ◌∷◌, ◌++◌, Option, none,
  some, ltb, leb, ◌==◌, if◌then◌else◌, length, take, drop, u32, u64, sub32, sub64, get_or,
}
use htkis_hyper_disk.Lfu.Sketch.{TinyLfu, new_tinylfu, access, estimate}

pub data QueueType : Type 0 where
  window : QueueType
  probation : QueueType
  protected : QueueType

pub record Entry : Type 0 where
  pub key : ℕ
  pub bytes : Option (List ℕ)
  pub size : ℕ
  pub queue : QueueType

pub record LfuCache : Type 0 where
  pub window_capacity : ℕ
  pub protected_capacity : ℕ
  pub probation_capacity : ℕ
  pub total_capacity : ℕ
  pub entries : List Entry
  pub window_queue : List ℕ
  pub probation_queue : List ℕ
  pub protected_queue : List ℕ
  pub tinylfu : TinyLfu
  pub hit_count : ℕ
  pub miss_count : ℕ
  pub eviction_count : ℕ
  pub insert_count : ℕ
  pub total_size : ℕ

abbrev pub at_least_one : ℕ → ℕ
at_least_one zero = 1
at_least_one (suc n) = suc n

-- the constructor
pub new_cache : ℕ → ℕ → ℕ → LfuCache
new_cache capacity window_ratio protected_ratio =
    let window_part = u32 (capacity * window_ratio) / 100 in
    let protected_part = u32 (capacity * protected_ratio) / 100 in
    record {
      window_capacity = at_least_one window_part;
      protected_capacity = at_least_one protected_part;
      probation_capacity = at_least_one (sub32 (sub32 capacity window_part) protected_part);
      total_capacity = capacity;
      entries = [];
      window_queue = [];
      probation_queue = [];
      protected_queue = [];
      tinylfu = new_tinylfu capacity 256 4;
      hit_count = 0;
      miss_count = 0;
      eviction_count = 0;
      insert_count = 0;
      total_size = 0;
    }

-- the map: find, erase, and a change of the entry that is found
abbrev pub find : ℕ → List Entry → Option Entry
find key [] = none
find key (e ∷ es) = if e.key == key then some e else find key es

abbrev pub erase : ℕ → List Entry → List Entry
erase key [] = []
erase key (e ∷ es) = if e.key == key then es else e ∷ erase key es

abbrev pub update : ℕ → (Entry → Entry) → List Entry → List Entry
update key f [] = []
update key f (e ∷ es) = if e.key == key then f e ∷ es else e ∷ update key f es

-- std::find and erase on a queue: the first place of the key goes, if there is one
abbrev pub unlist : ℕ → List ℕ → List ℕ
unlist key [] = []
unlist key (k ∷ ks) = if k == key then ks else k ∷ unlist key ks

-- The choice among the first `n` keys of the probation queue, from the index i on: the least
-- frequency, the key and its index, none as long as no key is found.
abbrev pub least_frequent : TinyLfu → ℕ → ℕ → List ℕ → ℕ → Option (ℕ × ℕ) → Option (ℕ × ℕ)
least_frequent t zero i ks min_freq found = found
least_frequent t (suc n) i [] min_freq found = found
least_frequent t (suc n) i (k ∷ ks) min_freq found =
    let f = estimate t.cm k in
    let better = least_frequent t n (suc i) ks f (some (k, i)) in
    let same = least_frequent t n (suc i) ks min_freq found in
    if ltb f min_freq then (if f == 0 then some (k, i) else better) else same

-- erase at an index
abbrev pub erase_at : ℕ → List ℕ → List ℕ
erase_at i ks = take i ks ++ drop (suc i) ks

-- the end of EvictOne: the victim leaves the map, if it is there
pub drop_found : Option Entry → ℕ → LfuCache → LfuCache
drop_found none victim_key c = c
drop_found (some e) victim_key c = record c {
  entries = erase victim_key c.entries;
  total_size = sub64 c.total_size e.size;
  eviction_count = u64 (c.eviction_count + 1);
}

abbrev pub drop_entry : ℕ → LfuCache → LfuCache
drop_entry victim_key c = drop_found (find victim_key c.entries) victim_key c

-- EvictOne: the cache and whether there was a victim
pub evict_one : LfuCache → LfuCache × Bool
evict_one c = elim c.window_queue [
  | k ∷ ks ↦ (drop_entry k (record c { window_queue = ks }), true)
  | [] ↦ elim c.probation_queue [
    | p ∷ ps ↦ elim (least_frequent c.tinylfu 16 0 (p ∷ ps) 4294967295 none) [
      | none ↦ (c, false)
      | some v ↦ (drop_entry v.0 (record c { probation_queue = erase_at v.1 (p ∷ ps) }), true)
    ]
    | [] ↦ elim c.protected_queue [
      | [] ↦ (c, false)
      | q ∷ qs ↦ (drop_entry q (record c { protected_queue = qs }), true)
    ]
  ]
]

-- the loop of Put that makes room
pub make_room : ℕ → LfuCache → LfuCache
make_room zero c = c
make_room (suc fuel) c =
    let evicted = evict_one c in
    let rest = make_room fuel evicted.0 in
    if leb c.total_capacity (length c.entries) then (if evicted.1 then rest else evicted.0) else c

-- Each round that finds a victim takes it out of a queue.
abbrev pub room_fuel : LfuCache → ℕ
room_fuel c = suc (length c.window_queue + length c.probation_queue + length c.protected_queue)

-- the memcpy of Put on an entry that has data: min(size, entry.size) bytes
abbrev pub copy_over : List ℕ → ℕ → Entry → Entry
copy_over source size e =
    let n = if ltb size e.size then size else e.size in
    elim e.bytes [
      | none ↦ e
      | some old ↦ if ltb 0 size then record e { bytes = some (take n source ++ drop n old) } else e
    ]

-- Put on a key that is there
pub put_existing : LfuCache → ℕ → Option (List ℕ) → ℕ → LfuCache
put_existing c key source size = record c {
  tinylfu = access c.tinylfu key;
  entries = elim source [ none ↦ c.entries | some s ↦ update key (copy_over s size) c.entries ];
}

-- the entry that Put makes; `allocated` is whether malloc gives memory
abbrev pub new_entry : Bool → ℕ → Option (List ℕ) → ℕ → Entry
new_entry allocated key source size = record {
  key = key;
  bytes = elim source [
    | none ↦ none
    | some s ↦ if ltb 0 size && allocated then some (take size s) else none
  ];
  size = size;
  queue = window;
}

-- Put on a key that is not there, in a cache that has room
pub put_new : LfuCache → Entry → LfuCache
put_new r e = record r {
  entries = r.entries ++ (e ∷ []);
  window_queue = r.window_queue ++ (e.key ∷ []);
  insert_count = u64 (r.insert_count + 1);
  total_size = u64 (r.total_size + e.size);
  tinylfu = access r.tinylfu e.key;
}

-- Put, by what the map has under the key
abbrev pub put_by : Option Entry → Bool → LfuCache → ℕ → Option (List ℕ) → ℕ → LfuCache
put_by (some e) allocated c key source size = put_existing c key source size
put_by none allocated c key source size =
    put_new (make_room (room_fuel c) c) (new_entry allocated key source size)

-- Put of `size` bytes, `source` if data is given, without which nothing is copied
pub put : Bool → LfuCache → ℕ → Option (List ℕ) → ℕ → LfuCache
put allocated c key source size = put_by (find key c.entries) allocated c key source size

-- the loop of Get that demotes from a full protected queue, by the queue that is left
pub demote : ℕ → List ℕ → LfuCache → LfuCache
demote capacity [] c = record c { protected_queue = [] }
demote capacity (k ∷ ks) c =
    let moved : LfuCache = elim (find k c.entries) [
      | none ↦ c
      | some e ↦ record c {
        entries = update k (λ x. record x { queue = probation }) c.entries;
        probation_queue = c.probation_queue ++ (k ∷ []);
      }
    ] in
    let rest = demote capacity ks moved in
    if leb capacity (length (k ∷ ks)) then rest else record c { protected_queue = k ∷ ks }

-- the promotion of Get of a key in probation
pub promote : ℕ → LfuCache → LfuCache
promote key c =
    let out = record c {
      probation_queue = unlist key c.probation_queue;
      entries = update key (λ x. record x { queue = protected }) c.entries;
    } in
    let room = demote c.protected_capacity c.protected_queue out in
    record room { protected_queue = room.protected_queue ++ (key ∷ []) }

-- What Get gives: the cache, the result, out_size and the bytes that are copied, if any.
pub record Got : Type 0 where
  pub cache : LfuCache
  pub result : Bool
  pub out_size : ℕ
  pub copied : Option (List ℕ)

-- Get on an entry that is there, into a buffer of `buffer_size` bytes
pub get_found : LfuCache → Entry → ℕ → Bool → ℕ → Got
get_found c e key has_buffer buffer_size =
    let hit = record c { tinylfu = access c.tinylfu key; hit_count = u64 (c.hit_count + 1) } in
    record {
      cache = elim e.queue [ probation ↦ promote key hit | _ ↦ hit ];
      result = true;
      out_size = e.size;
      copied = if has_buffer && leb e.size buffer_size then e.bytes else none;
    }

-- Get, by what the map has under the key
abbrev pub get_by : Option Entry → LfuCache → ℕ → Bool → ℕ → Got
get_by none c key has_buffer buffer_size = record {
  cache = record c { miss_count = u64 (c.miss_count + 1) };
  result = false;
  out_size = 0;
  copied = none;
}
get_by (some e) c key has_buffer buffer_size = get_found c e key has_buffer buffer_size

-- Get
pub get : LfuCache → ℕ → Bool → ℕ → Got
get c key has_buffer buffer_size = get_by (find key c.entries) c key has_buffer buffer_size

-- Remove of an entry that is there
pub remove_found : LfuCache → Entry → ℕ → LfuCache
remove_found c e key =
    let less = record c { total_size = sub64 c.total_size e.size; entries = erase key c.entries } in
    elim e.queue [
      | window ↦ record less { window_queue = unlist key c.window_queue }
      | probation ↦ record less { probation_queue = unlist key c.probation_queue }
      | protected ↦ record less { protected_queue = unlist key c.protected_queue }
    ]

-- Remove, by what the map has under the key: the cache and whether the key was there
abbrev pub remove_by : Option Entry → LfuCache → ℕ → LfuCache × Bool
remove_by none c key = (c, false)
remove_by (some e) c key = (remove_found c e key, true)

-- Remove
pub remove : LfuCache → ℕ → LfuCache × Bool
remove c key = remove_by (find key c.entries) c key

-- Clear
pub clear : LfuCache → LfuCache
clear c = record c {
  entries = [];
  window_queue = [];
  probation_queue = [];
  protected_queue = [];
  total_size = 0;
}
