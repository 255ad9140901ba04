-- ===== src/Lfu/Queues/Entries.antt =====
-- The list of entries under the map's operations: its keys, its sizes, and what Put makes of it.
use mathlib.Core.List.{map-append}
use htkis_hyper_disk.Base.{
  ℕ, zero, suc, ◌+◌, ◌≡◌, refl, sym, ap, ◌∙◌, Bool, true, false, List, [], ◌∷◌, ◌++◌, Option, none,
  some, ◌==◌, if◌then◌else◌, length, drop, u64, arith, inl, inr, Bool-cases, if-elim, ◌⊎◌,
}
use htkis_hyper_disk.Lfu.Queues.{
  Entry, LfuCache, find, erase, update, unlist, copy_over, put_existing, put_new,
}
use htkis_hyper_disk.Lfu.Queues.Shape.{total, keys, InWindow, AllWindow, nil, cons, Shape}

pub copy_over-keeps :
    (s : List ℕ) (size : ℕ) (e : Entry)
    → ((copy_over s size e).key ≡ e.key)
      × ((copy_over s size e).size ≡ e.size)
      × ((copy_over s size e).queue ≡ e.queue)
copy_over-keeps s size e = ground arith

pub copy_over-InWindow :
    (s : List ℕ) (size : ℕ) (e : Entry) → InWindow e → InWindow (copy_over s size e)
copy_over-InWindow s size e v =
    let same = copy_over-keeps s size e in
    record { in_window = same.2 ∙ v.in_window; size_fits = omega (arith, same.1, v.size_fits) }

pub update-AllWindow :
    (key : ℕ) (s : List ℕ) (size : ℕ) (es : List Entry)
    → AllWindow es
    → AllWindow (update key (copy_over s size) es)
update-AllWindow key s size [] nil = nil
update-AllWindow key s size (e ∷ es) (cons first others) =
    if-elim AllWindow (e.key == key) (cons (copy_over-InWindow s size e first) others)
      (cons first (update-AllWindow key s size es others))

pub keys-update :
    (key : ℕ) (s : List ℕ) (size : ℕ) (es : List Entry)
    → keys (update key (copy_over s size) es) ≡ keys es
keys-update key s size [] = refl
keys-update key s size (e ∷ es) =
    if-elim (λ l. keys l ≡ e.key ∷ keys es) (e.key == key)
      (ap (λ k. k ∷ keys es) (copy_over-keeps s size e).0)
      (ap (λ l. e.key ∷ l) (keys-update key s size es))

pub total-update :
    (key : ℕ) (s : List ℕ) (size : ℕ) (es : List Entry)
    → total (update key (copy_over s size) es) ≡ total es
total-update key s size [] = refl
total-update key s size (e ∷ es) =
    if-elim (λ l. total l ≡ e.size + total es) (e.key == key)
      (ap (λ n. n + total es) (copy_over-keeps s size e).1)
      (ap (λ n. e.size + n) (total-update key s size es))

pub erase-AllWindow : (key : ℕ) (es : List Entry) → AllWindow es → AllWindow (erase key es)
erase-AllWindow key [] nil = nil
erase-AllWindow key (e ∷ es) (cons first others) =
    if-elim AllWindow (e.key == key) others (cons first (erase-AllWindow key es others))

pub keys-pick :
    (b : Bool) (e : Entry) (es fs : List Entry) (ks : List ℕ)
    → keys fs ≡ ks
    → keys (if b then es else e ∷ fs) ≡ (if b then keys es else e.key ∷ ks)
keys-pick true e es fs ks h = refl
keys-pick false e es fs ks h = ap (λ l. e.key ∷ l) h

pub keys-erase : (key : ℕ) (es : List Entry) → keys (erase key es) ≡ unlist key (keys es)
keys-erase key [] = refl
keys-erase key (e ∷ es) =
    keys-pick (e.key == key) e es (erase key es) (unlist key (keys es)) (keys-erase key es)

-- A key is not there, and erasing it changes nothing, or its entry is in the window queue and its size
-- is what erasing takes off.
pub record Present (key : ℕ) (es : List Entry) : Type 0 where
  pub entry : Entry
  pub found : find key es ≡ some entry
  pub in_window : InWindow entry
  pub less : total es ≡ entry.size + total (erase key es)

pub look_up :
    (key : ℕ) (es : List Entry)
    → AllWindow es
    → ((find key es ≡ none) × (erase key es ≡ es)) ⊎ Present key es
look_up key [] nil = inl (refl, refl)
look_up key (e ∷ es) (cons first others) = elim (Bool-cases (e.key == key)) [
  | inl b ↦ inr (record {
    entry = e;
    found = ap (λ x. if x then some e else find key es) b;
    in_window = first;
    less = ap (λ x. e.size + total (if x then es else e ∷ erase key es)) (sym b);
  })
  | inr b ↦ elim (look_up key es others) [
    | inl none_there ↦ inl (
      ap (λ x. if x then some e else find key es) b ∙ none_there.0,
      ap (λ x. if x then es else e ∷ erase key es) b ∙ ap (λ l. e ∷ l) none_there.1,
    )
    | inr p ↦ inr (record {
      entry = p.entry;
      found = ap (λ x. if x then some e else find key es) b ∙ p.found;
      in_window = p.in_window;
      less = omega (arith, p.less, ap (λ x. total (if x then es else e ∷ erase key es)) b);
    })
  ]
]

pub drop-AllWindow : (n : ℕ) (es : List Entry) → AllWindow es → AllWindow (drop n es)
drop-AllWindow zero es v = v
drop-AllWindow (suc n) [] nil = nil
drop-AllWindow (suc n) (e ∷ es) (cons first others) = drop-AllWindow n es others

pub snoc-AllWindow :
    (es : List Entry) (e : Entry) → AllWindow es → InWindow e → AllWindow (es ++ (e ∷ []))
snoc-AllWindow [] e nil v = cons v nil
snoc-AllWindow (x ∷ es) e (cons first others) v = cons first (snoc-AllWindow es e others v)

pub total-snoc : (es : List Entry) (e : Entry) → total (es ++ (e ∷ [])) ≡ total es + e.size
total-snoc [] e = omega arith
total-snoc (x ∷ es) e = omega (arith, total-snoc es e)

pub length-keys : (es : List Entry) → length (keys es) ≡ length es
length-keys [] = refl
length-keys (e ∷ es) = ap suc (length-keys es)

-- Put of a new key, in a cache that has room.
pub put_new-Shape :
    (capacity : ℕ) (r : LfuCache) (es : List Entry) (e : Entry)
    → Shape capacity r es
    → InWindow e
    → Shape capacity (put_new r e) (es ++ (e ∷ []))
unfolding put_new
put_new-Shape capacity r es e h v = record {
  same_entries = ap (λ l. l ++ (e ∷ [])) h.same_entries;
  same_window =
      ap (λ l. l ++ (e.key ∷ [])) h.same_window
      ∙ sym (map-append (λ (x : Entry). x.key) es (e ∷ []));
  no_probation = h.no_probation;
  no_protected = h.no_protected;
  same_capacity = h.same_capacity;
  same_size = omega (arith, h.same_size, total-snoc es e);
  all_window = snoc-AllWindow es e h.all_window v;
}

pub put_existing-Shape :
    (capacity : ℕ) (c : LfuCache) (es : List Entry) (key : ℕ) (source : Option (List ℕ)) (size : ℕ)
    → Shape capacity c es
    → Shape capacity
        (put_existing c key source size)
        (elim source [ none ↦ es | some s ↦ update key (copy_over s size) es ])
unfolding put_existing
put_existing-Shape capacity c es key none size h = record {
  same_entries = h.same_entries;
  same_window = h.same_window;
  no_probation = h.no_probation;
  no_protected = h.no_protected;
  same_capacity = h.same_capacity;
  same_size = h.same_size;
  all_window = h.all_window;
}
put_existing-Shape capacity c es key (some s) size h = record {
  same_entries = ap (update key (copy_over s size)) h.same_entries;
  same_window = h.same_window ∙ sym (keys-update key s size es);
  no_probation = h.no_probation;
  no_protected = h.no_protected;
  same_capacity = h.same_capacity;
  same_size = h.same_size ∙ ap u64 (sym (total-update key s size es));
  all_window = update-AllWindow key s size es h.all_window;
}
