-- ===== src/Lfu/Queues/Fifo.antt =====
-- The W-TinyLFU cache is a FIFO cache: no operation takes a key out of the window queue but to drop it,
-- so frequencies and reads never have a say.
use mathlib.Core.Path.{subst⁻¹}
use htkis_hyper_disk.Base.{
  ℕ, suc, ◌+◌, ◌-◌, ◌≡◌, ◌<◌, refl, sym, ap, ◌∙◌, Bool, List, [], ◌∷◌, ◌++◌, Option, none, some,
  length, drop, u64, sub64, arith, inl, inr,
}
use htkis_hyper_disk.Lfu.Sketch.{access}
use htkis_hyper_disk.Lfu.Queues.{
  window, probation, Entry, LfuCache, find, erase, update, unlist, make_room, room_fuel, put_by,
  get_by, remove_by, protected, copy_over, new_entry, put, get_found, get, remove_found, remove,
  clear, new_cache, promote,
}
use htkis_hyper_disk.Lfu.Queues.Shape.{total, nil, Shape, make_room-Shape, sub64-total}
use htkis_hyper_disk.Lfu.Queues.Entries.{
  erase-AllWindow, keys-erase, length-keys, look_up, put_existing-Shape, put_new-Shape, Present,
}

-- The operations of the cache that change it, and a run of them.
pub data Op : Type 0 where
  put_op : Bool → ℕ → Option (List ℕ) → ℕ → Op
  get_op : ℕ → Bool → ℕ → Op
  remove_op : ℕ → Op
  clear_op : Op

pub step : LfuCache → Op → LfuCache
step c (put_op allocated key source size) = put allocated c key source size
step c (get_op key has_buffer buffer_size) = (get c key has_buffer buffer_size).cache
step c (remove_op key) = (remove c key).0
step c clear_op = clear c

pub run : LfuCache → List Op → LfuCache
run c [] = c
run c (o ∷ os) = run (step c o) os

-- The specification: a list of entries, the oldest first. A new entry comes last, and the oldest ones
-- go until there is a place for it; a key that is there gets its data copied over.
abbrev pub fifo_put : Option Entry → ℕ → List Entry → Bool → ℕ → Option (List ℕ) → ℕ → List Entry
fifo_put (some e) capacity es allocated key source size = elim source [
  | none ↦ es
  | some s ↦ update key (copy_over s size) es
]
fifo_put none capacity es allocated key source size =
    drop (suc (length es) - capacity) es ++ (new_entry allocated key source size ∷ [])

unfoldable pub fifo_step : ℕ → List Entry → Op → List Entry
fifo_step capacity es (put_op allocated key source size) =
    fifo_put (find key es) capacity es allocated key source size
fifo_step capacity es (get_op key has_buffer buffer_size) = es
fifo_step capacity es (remove_op key) = erase key es
fifo_step capacity es clear_op = []

unfoldable pub fifo_run : ℕ → List Entry → List Op → List Entry
fifo_run capacity es [] = es
fifo_run capacity es (o ∷ os) = fifo_run capacity (fifo_step capacity es o) os

-- sizes are 32-bit words
unfoldable pub SizeFits : Op → Type 0
SizeFits (put_op allocated key source size) = size < 4294967296
SizeFits (get_op key has_buffer buffer_size) = 0 < 1
SizeFits (remove_op key) = 0 < 1
SizeFits clear_op = 0 < 1

get_found-Shape :
    (capacity : ℕ) (c : LfuCache) (es : List Entry) (e : Entry) (key : ℕ) (has_buffer : Bool)
    (buffer_size : ℕ)
    → Shape capacity c es
    → e.queue ≡ window
    → Shape capacity (get_found c e key has_buffer buffer_size).cache es
unfolding get_found
get_found-Shape capacity c es e key has_buffer buffer_size h in_window =
    let hit = record c { tinylfu = access c.tinylfu key; hit_count = u64 (c.hit_count + 1) } in
    subst⁻¹
      (λ q. Shape capacity (elim q as (λ x. LfuCache) [ probation ↦ promote key hit | _ ↦ hit ]) es)
      in_window
      (record {
        same_entries = h.same_entries;
        same_window = h.same_window;
        no_probation = h.no_probation;
        no_protected = h.no_protected;
        same_capacity = h.same_capacity;
        same_size = h.same_size;
        all_window = h.all_window;
      })

remove_found-Shape :
    (capacity : ℕ) (c : LfuCache) (es : List Entry) (key : ℕ) (p : Present key es)
    → Shape capacity c es
    → Shape capacity (remove_found c p.entry key) (erase key es)
unfolding remove_found
remove_found-Shape capacity c es key p h =
    subst⁻¹
      (λ q.
        Shape capacity
          (elim q as (λ x. LfuCache) [
            | window ↦ record less { window_queue = unlist key c.window_queue }
            | probation ↦ record less { probation_queue = unlist key c.probation_queue }
            | protected ↦ record less { protected_queue = unlist key c.protected_queue }
          ])
          (erase key es))
      p.in_window.in_window
      (record {
        same_entries = ap (erase key) h.same_entries;
        same_window = ap (unlist key) h.same_window ∙ sym (keys-erase key es);
        no_probation = h.no_probation;
        no_protected = h.no_protected;
        same_capacity = h.same_capacity;
        same_size =
            ap (λ n. sub64 n p.entry.size) (h.same_size ∙ ap u64 p.less)
            ∙ sub64-total p.entry.size (total (erase key es)) p.in_window.size_fits;
        all_window = erase-AllWindow key es h.all_window;
      })
  where
    less : LfuCache
    less = record c { total_size = sub64 c.total_size p.entry.size; entries = erase key c.entries }

-- Each operation does what the specification does.
put-Shape :
    (capacity : ℕ) (c : LfuCache) (es : List Entry) (allocated : Bool) (key : ℕ)
    (source : Option (List ℕ)) (size : ℕ) (found : Option Entry)
    → Shape capacity c es
    → size < 4294967296
    → Shape capacity
        (put_by found allocated c key source size)
        (fifo_put found capacity es allocated key source size)
put-Shape capacity c es allocated key source size (some e) h fits =
    put_existing-Shape capacity c es key source size h
put-Shape capacity c es allocated key source size none h fits =
    put_new-Shape capacity (make_room (room_fuel c) c) (drop (suc (length es) - capacity) es)
      (new_entry allocated key source size)
      (make_room-Shape capacity (room_fuel c) c es h h.all_window
        (omega (arith, ap length h.same_window, length-keys es)))
      (record { in_window = refl; size_fits = fits })

step-Shape :
    (capacity : ℕ) (c : LfuCache) (es : List Entry) (o : Op)
    → Shape capacity c es
    → SizeFits o
    → Shape capacity (step c o) (fifo_step capacity es o)
unfolding step fifo_step put get remove clear SizeFits
step-Shape capacity c es (put_op allocated key source size) h fits =
    subst⁻¹
      (λ o.
        Shape capacity (put_by o allocated c key source size)
          (fifo_put (find key es) capacity es allocated key source size))
      (ap (find key) h.same_entries)
      (put-Shape capacity c es allocated key source size (find key es) h fits)
step-Shape capacity c es (get_op key has_buffer buffer_size) h fits =
    let there = ap (find key) h.same_entries in
    elim (look_up key es h.all_window) [
      | inl absent ↦
          subst⁻¹ (λ o. Shape capacity (get_by o c key has_buffer buffer_size).cache es)
            (there ∙ absent.0)
            (record {
              same_entries = h.same_entries;
              same_window = h.same_window;
              no_probation = h.no_probation;
              no_protected = h.no_protected;
              same_capacity = h.same_capacity;
              same_size = h.same_size;
              all_window = h.all_window;
            })
      | inr p ↦
          subst⁻¹ (λ o. Shape capacity (get_by o c key has_buffer buffer_size).cache es)
            (there ∙ p.found)
            (get_found-Shape capacity c es p.entry key has_buffer buffer_size h
              p.in_window.in_window)
    ]
step-Shape capacity c es (remove_op key) h fits =
    let there = ap (find key) h.same_entries in
    elim (look_up key es h.all_window) [
      | inl absent ↦
          subst⁻¹ (λ o. Shape capacity (remove_by o c key).0 (erase key es)) (there ∙ absent.0)
            (subst⁻¹ (λ l. Shape capacity c l) absent.1 h)
      | inr p ↦
          subst⁻¹ (λ o. Shape capacity (remove_by o c key).0 (erase key es)) (there ∙ p.found)
            (remove_found-Shape capacity c es key p h)
    ]
step-Shape capacity c es clear_op h fits = record {
  same_entries = refl;
  same_window = refl;
  no_probation = refl;
  no_protected = refl;
  same_capacity = h.same_capacity;
  same_size = refl;
  all_window = nil;
}

pub data AllFit : List Op → Type 0 where
  no_ops : AllFit []
  and_op : {o : Op} {os : List Op} → SizeFits o → AllFit os → AllFit (o ∷ os)

run-Shape :
    (capacity : ℕ) (c : LfuCache) (es : List Entry) (os : List Op)
    → Shape capacity c es
    → AllFit os
    → Shape capacity (run c os) (fifo_run capacity es os)
unfolding run fifo_run
run-Shape capacity c es [] h fits = h
run-Shape capacity c es (o ∷ os) h (and_op fit fits) =
    run-Shape capacity (step c o) (fifo_step capacity es o) os (step-Shape capacity c es o h fit)
      fits

pub run-fifo :
    (capacity window_ratio protected_ratio : ℕ) (os : List Op)
    → AllFit os
    → Shape capacity
        (run (new_cache capacity window_ratio protected_ratio) os)
        (fifo_run capacity [] os)
unfolding new_cache
run-fifo capacity window_ratio protected_ratio os fits =
    run-Shape capacity (new_cache capacity window_ratio protected_ratio) [] os
      (record {
        same_entries = refl;
        same_window = refl;
        no_probation = refl;
        no_protected = refl;
        same_capacity = refl;
        same_size = refl;
        all_window = nil;
      })
      fits
