-- ===== src/Tracker/Ledger.antt =====
-- Counting the calls of a trace of driver/blk/blk_irp_tracker.c, and the books that they keep.
use htkis_hyper_disk.Base.{
  ℕ, suc, ◌+◌, ◌≡◌, refl, ◌==◌, if◌then◌else◌, arith, ◌⊎◌, inl, inr, List, [], ◌∷◌, ◌++◌, length,
}
use htkis_hyper_disk.Tracker.{
  Entry, Call, reference, dereference, complete_not_ready, allocate, free, set_timer, cancel_timer,
  remove_dpc, Tracker,
}

-- how often a packet is referenced, dereferenced or completed by a list of calls, and how many entries
-- are allocated and freed
abbrev pub references : ℕ → List Call → ℕ
references x [] = 0
references x (reference y ∷ cs) = (if y == x then 1 else 0) + references x cs
references x (_ ∷ cs) = references x cs

abbrev pub dereferences : ℕ → List Call → ℕ
dereferences x [] = 0
dereferences x (dereference y ∷ cs) = (if y == x then 1 else 0) + dereferences x cs
dereferences x (_ ∷ cs) = dereferences x cs

abbrev pub timeouts : ℕ → List Call → ℕ
timeouts x [] = 0
timeouts x (complete_not_ready y ∷ cs) = (if y == x then 1 else 0) + timeouts x cs
timeouts x (_ ∷ cs) = timeouts x cs

abbrev pub allocations : List Call → ℕ
allocations [] = 0
allocations (allocate ∷ cs) = suc (allocations cs)
allocations (_ ∷ cs) = allocations cs

abbrev pub frees : List Call → ℕ
frees [] = 0
frees (free ∷ cs) = suc (frees cs)
frees (_ ∷ cs) = frees cs

-- how many entries of a packet a list holds
abbrev pub entries_of : ℕ → List Entry → ℕ
entries_of x [] = 0
entries_of x (e ∷ es) = (if e.irp == x then 1 else 0) + entries_of x es

references-append :
    (x : ℕ) (cs ds : List Call) → references x (cs ++ ds) ≡ references x cs + references x ds
references-append x [] ds = omega arith
references-append x (reference y ∷ cs) ds = ground (arith, references-append x cs ds)
references-append x (_ ∷ cs) ds = references-append x cs ds

dereferences-append :
    (x : ℕ) (cs ds : List Call) → dereferences x (cs ++ ds) ≡ dereferences x cs + dereferences x ds
dereferences-append x [] ds = omega arith
dereferences-append x (dereference y ∷ cs) ds = ground (arith, dereferences-append x cs ds)
dereferences-append x (_ ∷ cs) ds = dereferences-append x cs ds

timeouts-append :
    (x : ℕ) (cs ds : List Call) → timeouts x (cs ++ ds) ≡ timeouts x cs + timeouts x ds
timeouts-append x [] ds = omega arith
timeouts-append x (complete_not_ready y ∷ cs) ds = ground (arith, timeouts-append x cs ds)
timeouts-append x (_ ∷ cs) ds = timeouts-append x cs ds

allocations-append : (cs ds : List Call) → allocations (cs ++ ds) ≡ allocations cs + allocations ds
allocations-append [] ds = omega arith
allocations-append (allocate ∷ cs) ds = omega (arith, allocations-append cs ds)
allocations-append (_ ∷ cs) ds = allocations-append cs ds

frees-append : (cs ds : List Call) → frees (cs ++ ds) ≡ frees cs + frees ds
frees-append [] ds = omega arith
frees-append (free ∷ cs) ds = omega (arith, frees-append cs ds)
frees-append (_ ∷ cs) ds = frees-append cs ds

pub entries_of-append :
    (x : ℕ) (es fs : List Entry) → entries_of x (es ++ fs) ≡ entries_of x es + entries_of x fs
entries_of-append x [] fs = omega arith
entries_of-append x (e ∷ es) fs = ground (arith, entries_of-append x es fs)

-- The books for a packet x: every entry that was allocated is freed or listed, and every reference to
-- x was given back, or belongs to a listed entry, or to one that the watchdog expired.
pub record Books (x : ℕ) (trace : List Call) (es : List Entry) : Type 0 where
  pub memory : allocations trace ≡ frees trace + length es
  pub packets : references x trace ≡ dereferences x trace + timeouts x trace + entries_of x es

abbrev pub IsBalanced : ℕ → Tracker → Type 0
IsBalanced x t = Books x t.trace t.active_list

-- Adding calls and changing the entries in step keeps the books.
pub Books-grow :
    (x : ℕ) (trace cs : List Call) (es fs : List Entry)
    → Books x trace es
    → allocations cs + length es ≡ frees cs + length fs
    → references x cs + entries_of x es ≡ dereferences x cs + timeouts x cs + entries_of x fs
    → Books x (trace ++ cs) fs
Books-grow x trace cs es fs b mem pk = record {
  memory = omega (arith, b.memory, mem, allocations-append trace cs, frees-append trace cs);
  packets = omega (
    arith,
    b.packets,
    pk,
    references-append x trace cs,
    dereferences-append x trace cs,
    timeouts-append x trace cs,
  );
}

-- Calls that neither move memory nor references.
pub Books-timer :
    (x : ℕ) (trace cs : List Call) (es : List Entry)
    → Books x trace es
    → (cs ≡ set_timer ∷ []) ⊎ (cs ≡ remove_dpc ∷ []) ⊎ (cs ≡ cancel_timer ∷ remove_dpc ∷ [])
    → Books x (trace ++ cs) es
Books-timer x trace cs es b (inl e) = rw e (Books-grow x trace (set_timer ∷ []) es es b refl refl)
Books-timer x trace cs es b (inr (inl e)) =
    rw e (Books-grow x trace (remove_dpc ∷ []) es es b refl refl)
Books-timer x trace cs es b (inr (inr e)) =
    rw e (Books-grow x trace (cancel_timer ∷ remove_dpc ∷ []) es es b refl refl)
