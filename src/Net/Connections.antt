-- ===== src/Net/Connections.antt =====
-- The connection table: HdNetConnect takes the first free slot, and the count stays the number of
-- active slots.
use htkis_hyper_disk.Base.{
  ℕ, ◌+◌, ◌≤◌, ◌<◌, ◌≡◌, refl, ap, ◌∙◌, Bool, true, false, if◌then◌else◌, arith, inl, inr, Option,
  none, some, List, [], ◌∷◌, ◌++◌, length, length-append, u32, Option-cases,
}
use htkis_hyper_disk.Nt.{success, insufficient_resources}
use htkis_hyper_disk.Net.{Connection, Net, max_connections, opened, connect_from, connect}

-- how many slots are active
abbrev pub active : List Connection → ℕ
active [] = 0
active (c ∷ cs) = (if c.is_active then 1 else 0) + active cs

pub record IsValid (n : Net) : Type 0 where
  pub slots : length n.connections ≡ max_connections
  pub counted : n.connection_count ≡ active n.connections

pub active-le : (cs : List Connection) → active cs ≤ length cs
active-le [] = omega arith
active-le (c ∷ cs) = ground (arith, active-le cs)

-- The slot that a search from index `start` on takes in `cs`: the first free one. All slots before
-- it are active, `cs'` has it opened for `port`, and every other slot as it was.
pub record FirstFit (port : ℕ) (cs : List Connection) (start i : ℕ) (cs' : List Connection)
    : Type 0 where
  pub before : List Connection
  pub slot : Connection
  pub after : List Connection
  pub split : cs ≡ before ++ (slot ∷ after)
  pub busy : active before ≡ length before
  pub free : slot.is_active ≡ false
  pub index : i ≡ start + length before
  pub result : cs' ≡ before ++ (opened port ∷ after)

FirstFit-cons :
    (port : ℕ) (c : Connection) (cs : List Connection) (start i : ℕ) (cs' : List Connection)
    → c.is_active ≡ true
    → FirstFit port cs (start + 1) i cs'
    → FirstFit port (c ∷ cs) start i (c ∷ cs')
FirstFit-cons port c cs start i cs' on fit = record {
  before = c ∷ fit.before;
  slot = fit.slot;
  after = fit.after;
  split = ap (λ l. c ∷ l) fit.split;
  busy = ground (arith, fit.busy);
  free = fit.free;
  index = omega (arith, fit.index);
  result = ap (λ l. c ∷ l) fit.result;
}

-- one round of the loop, with the rest of it given
abbrev round :
    ℕ
    → Connection
    → List Connection
    → ℕ
    → List Connection × Option ℕ
    → Bool
    → List Connection × Option ℕ
round port c cs start rest b = if b then (c ∷ rest.0, rest.1) else (opened port ∷ cs, some start)

round-FirstFit :
    (port : ℕ) (c : Connection) (cs : List Connection) (start i : ℕ)
    (rest : List Connection × Option ℕ) (b : Bool)
    → c.is_active ≡ b
    → (rest.1 ≡ some i → FirstFit port cs (start + 1) i rest.0)
    → (round port c cs start rest b).1 ≡ some i
    → FirstFit port (c ∷ cs) start i (round port c cs start rest b).0
round-FirstFit port c cs start i rest true on ih h =
    FirstFit-cons port c cs start i rest.0 on (ih h)
round-FirstFit port c cs start i rest false off ih h = record {
  before = [];
  slot = c;
  after = cs;
  split = refl;
  busy = refl;
  free = off;
  index = ground arith;
  result = refl;
}

connect_from-FirstFit :
    (port : ℕ) (cs : List Connection) (start i : ℕ)
    → (connect_from port cs start).1 ≡ some i
    → FirstFit port cs start i (connect_from port cs start).0
unfolding connect_from
connect_from-FirstFit port [] start i h = cc
connect_from-FirstFit port (c ∷ cs) start i h =
    round-FirstFit port c cs start i (connect_from port cs (start + 1)) c.is_active refl
      (connect_from-FirstFit port cs (start + 1) i) h

connect_from-none :
    (port : ℕ) (cs : List Connection) (start : ℕ)
    → (connect_from port cs start).1 ≡ none
    → (active cs ≡ length cs)
unfolding connect_from
connect_from-none port [] start h = refl
connect_from-none port (c ∷ cs) start h = ground (arith, connect_from-none port cs (start + 1))

active-append : (xs ys : List Connection) → active (xs ++ ys) ≡ active xs + active ys
active-append [] ys = omega arith
active-append (x ∷ xs) ys = omega (arith, active-append xs ys)

length-FirstFit :
    (port : ℕ) (cs : List Connection) (start i : ℕ) (cs' : List Connection)
    → FirstFit port cs start i cs'
    → (length cs' ≡ length cs) × (active cs' ≡ active cs + 1)
unfolding opened
length-FirstFit port cs start i cs' fit =
    rw (fit.split, fit.result)
      (
        omega (
          arith,
          length-append fit.before (opened port ∷ fit.after),
          length-append fit.before (fit.slot ∷ fit.after),
        ),
        ground (
          arith,
          active-append fit.before (opened port ∷ fit.after),
          active-append fit.before (fit.slot ∷ fit.after),
        ),
      )

FirstFit-room :
    (port : ℕ) (cs : List Connection) (start i : ℕ) (cs' : List Connection)
    → FirstFit port cs start i cs'
    → (active cs < length cs) × (i < start + length cs)
FirstFit-room port cs start i cs' fit = rw fit.split (
  ground (
    arith,
    active-append fit.before (fit.slot ∷ fit.after),
    length-append fit.before (fit.slot ∷ fit.after),
    active-le fit.after,
    fit.busy,
    fit.free,
  ),
  omega (arith, length-append fit.before (fit.slot ∷ fit.after), fit.index),
)

connect-some :
    (n : Net) (port i : ℕ)
    → (connect_from port n.connections 0).1 ≡ some i
    → connect n port ≡ (
      success,
      some i,
      record n {
        connections = (connect_from port n.connections 0).0;
        connection_count = u32 (n.connection_count + 1);
      },
    )
unfolding connect
connect-some n port i e = rw (e, connect)

connect-none :
    (n : Net) (port : ℕ)
    → (connect_from port n.connections 0).1 ≡ none
    → connect n port ≡ (insufficient_resources, none, n)
unfolding connect
connect-none n port e = rw (e, connect)

-- HdNetConnect on a valid table with a free slot succeeds: it opens the first free slot for the port
-- given, leaves every other slot as it was, returns its index, which is in range, and keeps the table
-- valid.
pub connect-FirstFit :
    (n : Net) (port : ℕ)
    → IsValid n
    → active n.connections < max_connections
    → (i : ℕ) × ((connect n port).0 ≡ success)
      × ((connect n port).1 ≡ some i)
      × FirstFit port n.connections 0 i (connect n port).2.connections
      × (i < max_connections)
      × IsValid (connect n port).2
connect-FirstFit n port v h = elim (Option-cases (connect_from port n.connections 0).1) [
  | inl no_slot ↦ absurd (omega (arith, v.slots, connect_from-none port n.connections 0 no_slot))
  | inr (i, e) ↦
      let fit = connect_from-FirstFit port n.connections 0 i e in
      let room = FirstFit-room port n.connections 0 i (connect_from port n.connections 0).0 fit in
      let sizes =
        length-FirstFit port n.connections 0 i (connect_from port n.connections 0).0 fit in
      rw (connect-some n port i e) (
        i,
        refl,
        refl,
        fit,
        omega (arith, room.1, v.slots),
        record {
          slots = sizes.0 ∙ v.slots;
          counted = omega (arith, sizes.1, v.counted, room.0, v.slots);
        },
      )
]

-- HdNetConnect on a valid table whose 64 slots are all active fails with
-- STATUS_INSUFFICIENT_RESOURCES, writes no index, and changes nothing.
pub connect_full :
    (n : Net) (port : ℕ)
    → IsValid n
    → active n.connections ≡ max_connections
    → connect n port ≡ (insufficient_resources, none, n)
connect_full n port v h = elim (Option-cases (connect_from port n.connections 0).1) [
  | inl no_slot ↦ connect-none n port no_slot
  | inr (i, e) ↦ absurd (
      omega (
        arith,
        v.slots,
        (FirstFit-room port n.connections 0 i (connect_from port n.connections 0).0
            (connect_from-FirstFit port n.connections 0 i e)).0,
      ))
]
