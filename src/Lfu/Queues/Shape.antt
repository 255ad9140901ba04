-- ===== src/Lfu/Queues/Shape.antt =====
-- What every operation keeps: all entries are in the window queue, in the order of their arrival.
use mathlib.Core.Path.{subst⁻¹}
use htkis_hyper_disk.Base.{
  ℕ, zero, suc, ◌+◌, ◌-◌, ◌≡◌, ◌<◌, ◌≤◌, refl, sym, ap, ◌∙◌, true, false, List, [], ◌∷◌, some, leb,
  leb-false, leb→le, drop-nil, ==_iff, if◌then◌else◌, length, map, drop, u64, sub64, arith, inl,
  inr, Bool-cases,
}
use htkis_hyper_disk.Lfu.Queues.{
  window, Entry, LfuCache, find, erase, drop_found, drop_entry, evict_one, make_room,
}

-- the sum of the sizes
abbrev pub total : List Entry → ℕ
total [] = 0
total (e ∷ es) = e.size + total es

abbrev pub keys : List Entry → List ℕ
keys es = map (λ (e : Entry). e.key) es

pub record InWindow (e : Entry) : Type 0 where
  pub in_window : e.queue ≡ window
  pub size_fits : e.size < 4294967296

pub data AllWindow : List Entry → Type 0 where
  nil : AllWindow []
  cons : {e : Entry} {es : List Entry} → InWindow e → AllWindow es → AllWindow (e ∷ es)

-- The cache holds the entries `es`, all in the window queue, and its total size is theirs, as a 64-bit
-- number.
pub record Shape (capacity : ℕ) (c : LfuCache) (es : List Entry) : Type 0 where
  pub same_entries : c.entries ≡ es
  pub same_window : c.window_queue ≡ keys es
  pub no_probation : c.probation_queue ≡ []
  pub no_protected : c.protected_queue ≡ []
  pub same_capacity : c.total_capacity ≡ capacity
  pub same_size : c.total_size ≡ u64 (total es)
  pub all_window : AllWindow es

-- c with these entries
abbrev pub shaped : LfuCache → List Entry → LfuCache
shaped c es = record c {
  entries = es;
  window_queue = keys es;
  probation_queue = [];
  protected_queue = [];
  total_size = u64 (total es);
}

pub Shape-shaped :
    {capacity : ℕ} {c : LfuCache} {es : List Entry} → Shape capacity c es → c ≡ shaped c es
Shape-shaped {c = c} h = λ i. record c {
  entries = h.same_entries i;
  window_queue = h.same_window i;
  probation_queue = h.no_probation i;
  protected_queue = h.no_protected i;
  total_size = h.same_size i;
}

pub sub64-total : (a t : ℕ) → a < 4294967296 → sub64 (u64 (a + t)) a ≡ u64 t
sub64-total a t h = omega (arith, h)

-- The first entry of the map is the one that goes.
drop_entry-first :
    (c : LfuCache) (e : Entry) (es : List Entry)
    → drop_entry e.key (record c { entries = e ∷ es }) ≡ record c {
      entries = es;
      total_size = sub64 c.total_size e.size;
      eviction_count = u64 (c.eviction_count + 1);
    }
unfolding drop_found
drop_entry-first c e es =
    let self = (==_iff e.key e.key).1 refl in
    ap (λ b. drop_found (if b then some e else find e.key es) e.key (record c { entries = e ∷ es }))
      self
    ∙ ap (λ b. dropped (if b then es else e ∷ erase e.key es)) self
  where
    dropped : List Entry → LfuCache
    dropped l = record c {
      entries = l;
      total_size = sub64 c.total_size e.size;
      eviction_count = u64 (c.eviction_count + 1);
    }

evict_one-shaped :
    (capacity : ℕ) (c : LfuCache) (e : Entry) (es : List Entry)
    → c.total_capacity ≡ capacity
    → InWindow e
    → AllWindow es
    → Shape capacity (evict_one (shaped c (e ∷ es))).0 es
unfolding evict_one
evict_one-shaped capacity c e es cap first others =
    subst⁻¹ (λ x. Shape capacity x es)
      (drop_entry-first (record (shaped c (e ∷ es)) { window_queue = keys es }) e es)
      (record {
        same_entries = refl;
        same_window = refl;
        no_probation = refl;
        no_protected = refl;
        same_capacity = cap;
        same_size = sub64-total e.size (total es) first.size_fits;
        all_window = others;
      })

evict_one-finds :
    (c : LfuCache) (e : Entry) (es : List Entry) → (evict_one (shaped c (e ∷ es))).1 ≡ true
unfolding evict_one
evict_one-finds c e es = refl

evict_one-nothing : (c : LfuCache) → evict_one (shaped c []) ≡ (shaped c [], false)
unfolding evict_one
evict_one-nothing c = refl

evict_one-Shape :
    (capacity : ℕ) (c : LfuCache) (e : Entry) (es : List Entry)
    → Shape capacity c (e ∷ es)
    → InWindow e
    → AllWindow es
    → Shape capacity (evict_one c).0 es × ((evict_one c).1 ≡ true)
evict_one-Shape capacity c e es h first others = (
  subst⁻¹ (λ x. Shape capacity (evict_one x).0 es) (Shape-shaped h)
      (evict_one-shaped capacity c e es h.same_capacity first others),
  ap (λ x. (evict_one x).1) (Shape-shaped h) ∙ victim,
)
  where
    victim : (evict_one (shaped c (e ∷ es))).1 ≡ true
    victim = evict_one-finds c e es

evict_one-Shape_nil :
    (capacity : ℕ) (c : LfuCache) → Shape capacity c [] → (evict_one c) ≡ (shaped c [], false)
evict_one-Shape_nil capacity c h = ap evict_one (Shape-shaped h) ∙ evict_one-nothing c

make_room-free :
    (fuel : ℕ) (c : LfuCache)
    → leb c.total_capacity (length c.entries) ≡ false
    → make_room (suc fuel) c ≡ c
unfolding make_room
make_room-free fuel c free =
    ap
      (λ b.
        if b
        then (if (evict_one c).1 then make_room fuel (evict_one c).0 else (evict_one c).0)
        else c)
      free

make_room-round :
    (fuel : ℕ) (c : LfuCache)
    → leb c.total_capacity (length c.entries) ≡ true
    → make_room (suc fuel) c
      ≡ (if (evict_one c).1 then make_room fuel (evict_one c).0 else (evict_one c).0)
unfolding make_room
make_room-round fuel c full =
    ap
      (λ b.
        if b
        then (if (evict_one c).1 then make_room fuel (evict_one c).0 else (evict_one c).0)
        else c)
      full

length-Shape :
    {capacity : ℕ} {c : LfuCache} {es : List Entry}
    → Shape capacity c es
    → leb c.total_capacity (length c.entries) ≡ leb capacity (length es)
length-Shape h = λ i. leb (h.same_capacity i) (length (h.same_entries i))

-- The loop of Put leaves one place free, and evicts the oldest entries for that.
pub make_room-Shape :
    (capacity fuel : ℕ) (c : LfuCache) (es : List Entry)
    → Shape capacity c es
    → AllWindow es
    → length es < fuel
    → Shape capacity (make_room fuel c) (drop (suc (length es) - capacity) es)
make_room-Shape capacity zero c es h all enough = absurd (omega (arith, enough))
make_room-Shape capacity (suc fuel) c [] h all enough =
    elim (Bool-cases (leb capacity (length {A = Entry} []))) [
      | inr e ↦
          subst⁻¹ (λ x. Shape capacity x (drop (1 - capacity) []))
            (make_room-free fuel c (length-Shape h ∙ e))
            (subst⁻¹ (λ l. Shape capacity c l) (drop-nil Entry (1 - capacity)) h)
      | inl e ↦
          subst⁻¹ (λ x. Shape capacity x (drop (1 - capacity) []))
            (make_room-round fuel c (length-Shape h ∙ e)
              ∙ ap (λ v. if v.1 then make_room fuel v.0 else v.0) (evict_one-Shape_nil capacity c h)
              ∙ sym (Shape-shaped h))
            (subst⁻¹ (λ l. Shape capacity c l) (drop-nil Entry (1 - capacity)) h)
    ]
make_room-Shape capacity (suc fuel) c (e ∷ es) h (cons first others) enough =
    elim (Bool-cases (leb capacity (length (e ∷ es)))) [
      | inr free ↦
          subst⁻¹ (λ x. Shape capacity x (drop (suc (length (e ∷ es)) - capacity) (e ∷ es)))
            (make_room-free fuel c (length-Shape h ∙ free))
            (subst⁻¹ (λ n. Shape capacity c (drop n (e ∷ es)))
              (room_left capacity (length (e ∷ es)) (leb-false capacity (length (e ∷ es)) free)) h)
      | inl full ↦
          let one = evict_one-Shape capacity c e es h first others in
          subst⁻¹ (λ x. Shape capacity x (drop (suc (length (e ∷ es)) - capacity) (e ∷ es)))
            (make_room-round fuel c (length-Shape h ∙ full)
              ∙ ap (λ v. if v then make_room fuel (evict_one c).0 else (evict_one c).0) one.1)
            (subst⁻¹ (λ n. Shape capacity (make_room fuel (evict_one c).0) (drop n (e ∷ es)))
              (one_more capacity (length es) (leb→le capacity (length (e ∷ es)) full))
              (make_room-Shape capacity fuel (evict_one c).0 es one.0 others
                (omega (arith, enough))))
    ]
  where
    room_left : (a n : ℕ) → n < a → suc n - a ≡ 0
    room_left a n lt = omega (arith, lt)

    one_more : (a n : ℕ) → a ≤ suc n → suc (suc n) - a ≡ suc (suc n - a)
    one_more a n le = omega (arith, le)
