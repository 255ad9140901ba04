-- ===== src/Lfu/Queues/Count.antt =====
-- How many entries the cache holds.
use htkis_hyper_disk.Base.{
  ℕ, zero, suc, ◌-◌, ◌≡◌, ◌≤◌, sym, ap, ◌∙◌, Bool, List, [], ◌∷◌, Option, none, some, ◌==◌, length,
  drop, arith, length-append, length-drop, if-elim,
}
use htkis_hyper_disk.Lfu.Queues.{
  Entry, find, erase, update, at_least_one, copy_over, new_entry, new_cache,
}
use htkis_hyper_disk.Lfu.Queues.Entries.{keys-update, length-keys}
use htkis_hyper_disk.Lfu.Queues.Fifo.{
  Op, put_op, get_op, remove_op, clear_op, run, fifo_put, fifo_step, fifo_run, AllFit, run-fifo,
}

length-update :
    (key : ℕ) (s : List ℕ) (size : ℕ) (es : List Entry)
    → length (update key (copy_over s size) es) ≡ length es
length-update key s size es =
    sym (length-keys (update key (copy_over s size) es))
    ∙ ap length (keys-update key s size es)
    ∙ length-keys es

length-erase : (key : ℕ) (es : List Entry) → length (erase key es) ≤ length es
length-erase key [] = omega arith
length-erase key (e ∷ es) =
    if-elim (λ l. length l ≤ suc (length es)) (e.key == key) (omega arith)
      (omega (arith, length-erase key es))

length-fifo_put :
    (found : Option Entry) (capacity : ℕ) (es : List Entry) (allocated : Bool) (key : ℕ)
    (source : Option (List ℕ)) (size : ℕ)
    → length es ≤ at_least_one capacity
    → length (fifo_put found capacity es allocated key source size) ≤ at_least_one capacity
length-fifo_put (some e) capacity es allocated key none size few = few
length-fifo_put (some e) capacity es allocated key (some s) size few =
    omega (arith, few, length-update key s size es)
length-fifo_put none zero es allocated key source size few =
    let e = new_entry allocated key source size in
    omega (
      arith,
      length-append (drop (suc (length es) - 0) es) (e ∷ []),
      length-drop (suc (length es) - 0) es,
    )
length-fifo_put none (suc n) es allocated key source size few =
    let e = new_entry allocated key source size in
    omega (
      arith,
      few,
      length-append (drop (suc (length es) - suc n) es) (e ∷ []),
      length-drop (suc (length es) - suc n) es,
    )

length-fifo_run :
    (capacity : ℕ) (es : List Entry) (os : List Op)
    → length es ≤ at_least_one capacity
    → length (fifo_run capacity es os) ≤ at_least_one capacity
unfolding fifo_run fifo_step
length-fifo_run capacity es [] few = few
length-fifo_run capacity es (put_op allocated key source size ∷ os) few =
    length-fifo_run capacity (fifo_step capacity es (put_op allocated key source size)) os
      (length-fifo_put (find key es) capacity es allocated key source size few)
length-fifo_run capacity es (get_op key has_buffer buffer_size ∷ os) few =
    length-fifo_run capacity es os few
length-fifo_run capacity es (remove_op key ∷ os) few =
    length-fifo_run capacity (erase key es) os (omega (arith, few, length-erase key es))
length-fifo_run capacity es (clear_op ∷ os) few = length-fifo_run capacity [] os (omega arith)

one_or_more : (n : ℕ) → 0 ≤ at_least_one n
one_or_more n = omega arith

-- After any operations on a new cache, with sizes below 2 ^ 32, the cache holds at most as many entries
-- as its capacity says, or one if that is 0.
run-count :
    (capacity window_ratio protected_ratio : ℕ) (os : List Op)
    → AllFit os
    → length (run (new_cache capacity window_ratio protected_ratio) os).entries
      ≤ at_least_one capacity
run-count capacity window_ratio protected_ratio os fits = omega (
  arith,
  ap length (run-fifo capacity window_ratio protected_ratio os fits).same_entries,
  length-fifo_run capacity [] os nothing_yet,
)
  where
    nothing_yet : length {A = Entry} [] ≤ at_least_one capacity
    nothing_yet = one_or_more capacity
