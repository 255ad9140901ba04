-- ===== src/Bus/Dispatch.antt =====
-- HdBusDispatchPnp for any device: the bus device, a child or neither.
use htkis_hyper_disk.Base.{
  ℕ, zero, suc, ◌≡◌, refl, sym, ap, ◌∙◌, true, false, List, [], ◌∷◌, Option, none, some, ◌==◌, ◌+◌,
  inl, inr, Bool-cases, ==_iff, length, length-append, if◌then◌else◌, arith,
}
use htkis_hyper_disk.Nt.{no_such_device, nt_success}
use htkis_hyper_disk.Bus.{
  ChildDevice, BusExtension, Creation, auto_enumerate_child, find_child_by_pdo, Answer, Minor,
  start_device, query_stop_device, query_remove_device, cancel_stop_device, cancel_remove_device,
  remove_device, surprise_removal, other_minor, query_device_relations, query_capabilities,
  query_device_text, query_id, World, fdo_switch,
}
use htkis_hyper_disk.Bus.Pdo.{pdo_pnp}

-- a child in the list, found by its device, after a request
pub put_child : ChildDevice → List ChildDevice → List ChildDevice
put_child c [] = []
put_child c (d ∷ ds) =
    if d.child_device_object == c.child_device_object then c ∷ ds else d ∷ put_child c ds

-- the else branch of HdBusDispatchPnp, given the child that is found
pub child_pnp : Option ChildDevice → Minor → Answer → World → World
child_pnp none m a w = record w {
  packet = record w.packet { status = no_such_device; completions = suc w.packet.completions };
}
child_pnp (some c) m a w =
    let p = pdo_pnp m a (record { child = c; packet = w.packet; calls = w.calls }) in
    record {
      bus = record w.bus { children = put_child p.child w.bus.children };
      packet = p.packet;
      calls = p.calls;
    }

-- HdBusDispatchPnp of a device. HdBusFdoPnp ends with IoCallDriver of the bus device itself, whose
-- dispatch routine for PnP packets is HdBusDispatchPnp again, with the same stack location. `answers`
-- are what the kernel answers in the nested calls. Fuel for these calls; none when it is used up.
pub dispatch_pnp : ℕ → ℕ → Minor → (ℕ → Answer) → World → Option World
dispatch_pnp zero device m answers w = none
dispatch_pnp (suc fuel) device m answers w =
    let nested =
      dispatch_pnp fuel w.bus.bus_device_object m (λ i. answers (suc i))
        (fdo_switch m (answers 0) w) in
    if device == w.bus.bus_device_object
    then nested
    else some (child_pnp (find_child_by_pdo device w.bus.children) m (answers 0) w)

dispatch_pnp-step :
    (fuel device : ℕ) (m : Minor) (answers : ℕ → Answer) (w : World)
    → dispatch_pnp (suc fuel) device m answers w ≡ (
        if device == w.bus.bus_device_object
        then dispatch_pnp fuel w.bus.bus_device_object m
            (λ i. answers (suc i))
            (fdo_switch m (answers 0) w)
        else some (child_pnp (find_child_by_pdo device w.bus.children) m (answers 0) w))
unfolding dispatch_pnp
dispatch_pnp-step fuel device m answers w = refl

enumerate-bus_device :
    (b : BusExtension) (c : Creation)
    → (auto_enumerate_child b c).0.bus_device_object ≡ b.bus_device_object
unfolding auto_enumerate_child
enumerate-bus_device b c = ground arith

fdo_switch-bus_device :
    (m : Minor) (a : Answer) (w : World)
    → (fdo_switch m a w).bus.bus_device_object ≡ w.bus.bus_device_object
unfolding fdo_switch
fdo_switch-bus_device start_device a w = enumerate-bus_device w.bus a.creation
fdo_switch-bus_device (query_device_relations true) a w = ground arith
fdo_switch-bus_device (query_device_relations false) a w = refl
fdo_switch-bus_device query_stop_device a w = refl
fdo_switch-bus_device query_remove_device a w = refl
fdo_switch-bus_device cancel_stop_device a w = refl
fdo_switch-bus_device cancel_remove_device a w = refl
fdo_switch-bus_device remove_device a w = refl
fdo_switch-bus_device surprise_removal a w = refl
fdo_switch-bus_device other_minor a w = refl
fdo_switch-bus_device (query_capabilities place) a w = refl
fdo_switch-bus_device (query_device_text description) a w = refl
fdo_switch-bus_device (query_id id) a w = refl

dispatch_pnp-loops :
    (fuel device : ℕ) (m : Minor) (answers : ℕ → Answer) (w : World)
    → device ≡ w.bus.bus_device_object
    → dispatch_pnp fuel device m answers w ≡ none
unfolding dispatch_pnp
dispatch_pnp-loops zero device m answers w e = refl
dispatch_pnp-loops (suc fuel) device m answers w e =
    ap
      (λ c.
        if c
        then dispatch_pnp fuel w.bus.bus_device_object m (λ i. answers (suc i)) next
        else some (child_pnp (find_child_by_pdo device w.bus.children) m (answers 0) w))
      ((==_iff device w.bus.bus_device_object).1 e)
    ∙ dispatch_pnp-loops fuel w.bus.bus_device_object m (λ i. answers (suc i)) next
        (sym (fdo_switch-bus_device m (answers 0) w))
  where
    next : World
    next = fdo_switch m (answers 0) w

-- Whatever fuel is given for nested calls, a PnP request to the bus device does not return; one to any
-- other device returns at once, with the answer of the child that has it, or of none.
pub dispatch_pnp-returns :
    (fuel device : ℕ) (m : Minor) (answers : ℕ → Answer) (w : World)
    → dispatch_pnp (suc fuel) device m answers w ≡ (
        if device == w.bus.bus_device_object
        then none
        else some (child_pnp (find_child_by_pdo device w.bus.children) m (answers 0) w))
dispatch_pnp-returns fuel device m answers w =
    elim (Bool-cases (device == w.bus.bus_device_object)) [
      | inl e ↦
          dispatch_pnp-loops (suc fuel) device m answers w ((==_iff _ _).0 e)
          ∙ ap (λ c. if c then none else answer) (sym e)
      | inr ne ↦
          step
          ∙ ap (λ c. if c then nested else answer) ne
          ∙ ap (λ c. if c then none else answer) (sym ne)
    ]
  where
    answer : Option World
    answer = some (child_pnp (find_child_by_pdo device w.bus.children) m (answers 0) w)

    nested : Option World
    nested =
        dispatch_pnp fuel w.bus.bus_device_object m (λ i. answers (suc i))
          (fdo_switch m (answers 0) w)

    step :
        dispatch_pnp (suc fuel) device m answers w
        ≡ (if device == w.bus.bus_device_object then nested else answer)
    step = dispatch_pnp-step fuel device m answers w

-- A pass of a start request, whose child can be made, makes one child more; so the nested calls go on
-- to make children.
pub fdo_switch-grows :
    (a : Answer) (w : World)
    → a.creation.memory ≡ true
    → nt_success a.creation.status ≡ true
    → length (fdo_switch start_device a w).bus.children ≡ length w.bus.children + 1
unfolding fdo_switch auto_enumerate_child
fdo_switch-grows a w room made = rw (room, made) (length-append w.bus.children _)
