-- ===== src/Bus/Pdo/Calls.antt =====
-- What the calls of a child's PnP requests come to: the names of its interface and its state.
use htkis_hyper_disk.Base.{ℕ, suc, ◌+◌, ◌≡◌, refl, Bool, true, false, List, [], ◌∷◌, ◌++◌, arith}
use htkis_hyper_disk.Bus.{
  Call, reference_object, dereference_object, free_relations, register_interface,
  set_interface_state, set_capabilities, free_interface_name,
}

-- how many names of interfaces were made, how many were freed, and whether the interface is on
unfoldable pub names_made : List Call → ℕ
names_made [] = 0
names_made (register_interface true ∷ cs) = suc (names_made cs)
names_made (c ∷ cs) = names_made cs

unfoldable pub names_freed : List Call → ℕ
names_freed [] = 0
names_freed (free_interface_name ∷ cs) = suc (names_freed cs)
names_freed (c ∷ cs) = names_freed cs

unfoldable pub interface_on : Bool → List Call → Bool
interface_on on [] = on
interface_on on (set_interface_state s ∷ cs) = interface_on s cs
interface_on on (c ∷ cs) = interface_on on cs

abbrev pub bit : Bool → ℕ
bit true = 1
bit false = 0

pub names_made-append : (a b : List Call) → names_made (a ++ b) ≡ names_made a + names_made b
unfolding names_made
names_made-append [] b = omega arith
names_made-append (register_interface true ∷ a) b = omega (arith, names_made-append a b)
names_made-append (register_interface false ∷ a) b = names_made-append a b
names_made-append (reference_object d ∷ a) b = names_made-append a b
names_made-append (dereference_object d ∷ a) b = names_made-append a b
names_made-append (free_relations ∷ a) b = names_made-append a b
names_made-append (set_interface_state s ∷ a) b = names_made-append a b
names_made-append (set_capabilities ∷ a) b = names_made-append a b
names_made-append (free_interface_name ∷ a) b = names_made-append a b

pub names_freed-append : (a b : List Call) → names_freed (a ++ b) ≡ names_freed a + names_freed b
unfolding names_freed
names_freed-append [] b = omega arith
names_freed-append (free_interface_name ∷ a) b = omega (arith, names_freed-append a b)
names_freed-append (register_interface s ∷ a) b = names_freed-append a b
names_freed-append (reference_object d ∷ a) b = names_freed-append a b
names_freed-append (dereference_object d ∷ a) b = names_freed-append a b
names_freed-append (free_relations ∷ a) b = names_freed-append a b
names_freed-append (set_interface_state s ∷ a) b = names_freed-append a b
names_freed-append (set_capabilities ∷ a) b = names_freed-append a b

pub interface_on-append :
    (on : Bool) (a b : List Call) → interface_on on (a ++ b) ≡ interface_on (interface_on on a) b
unfolding interface_on
interface_on-append on [] b = refl
interface_on-append on (set_interface_state s ∷ a) b = interface_on-append s a b
interface_on-append on (register_interface s ∷ a) b = interface_on-append on a b
interface_on-append on (reference_object d ∷ a) b = interface_on-append on a b
interface_on-append on (dereference_object d ∷ a) b = interface_on-append on a b
interface_on-append on (free_relations ∷ a) b = interface_on-append on a b
interface_on-append on (set_capabilities ∷ a) b = interface_on-append on a b
interface_on-append on (free_interface_name ∷ a) b = interface_on-append on a b
