-- ===== src/Bus/Pdo/Runs.antt =====
-- The interface of a child device over a PnP request.
use htkis_hyper_disk.Bus.Pdo.Calls.{
  names_made, names_freed, interface_on, bit, names_made-append, names_freed-append,
  interface_on-append,
}
use mathlib.Core.Path.{subst⁻¹}
use mathlib.Core.List.{append-nil}
use htkis_hyper_disk.Base.{
  ℕ, ◌+◌, ◌≡◌, refl, ap, ◌∙◌, Bool, true, false, ◌&&◌, List, [], ◌∷◌, ◌++◌, Option, none, some,
  arith, if◌then◌else◌, if-elim,
}
use htkis_hyper_disk.Nt.{Status, success, insufficient_resources, nt_success}
use htkis_hyper_disk.Bus.{
  Call, register_interface, set_interface_state, set_capabilities, free_interface_name, ChildDevice,
  Answer, Minor, start_device, query_stop_device, query_remove_device, cancel_stop_device,
  cancel_remove_device, remove_device, surprise_removal, other_minor, query_device_relations,
  query_capabilities, query_device_text, query_id,
}
use htkis_hyper_disk.Bus.Ids.{pdo_query_id}
use htkis_hyper_disk.Bus.Pdo.{PdoWorld, description, started_with, store_text, pdo_pnp}

-- One name is held while the interface is registered and none otherwise, and the interface is on
-- exactly while the device is started and it is registered.
pub record IsKept (child : ChildDevice) (calls : List Call) : Type 0 where
  pub names : names_made calls ≡ names_freed calls + bit child.interface_registered
  pub state : interface_on false calls ≡ (child.started && child.interface_registered)

-- calls behind those of a kept child
kept-after :
    (c d : ChildDevice) (calls more : List Call) (r s : Bool)
    → c.interface_registered ≡ r
    → c.started ≡ s
    → IsKept c calls
    → names_made more + bit r ≡ names_freed more + bit d.interface_registered
    → interface_on (s && r) more ≡ (d.started && d.interface_registered)
    → IsKept d (calls ++ more)
kept-after c d calls more r s hr hs v names state =
    let held : bit c.interface_registered ≡ bit r = ap bit hr in
    record {
      names = omega (
        arith,
        names_made-append calls more,
        names_freed-append calls more,
        v.names,
        held,
        names,
      );
      state =
          interface_on-append false calls more
          ∙ ap (λ b. interface_on b more) v.state
          ∙ ap (λ b. interface_on (c.started && b) more) hr
          ∙ ap (λ b. interface_on (b && r) more) hs
          ∙ state;
    }

kept-nothing : (c : ChildDevice) (calls : List Call) → IsKept c calls → IsKept c (calls ++ [])
kept-nothing c calls v = subst⁻¹ (IsKept c) (append-nil calls) v

and-false : (s : Bool) → (s && false) ≡ false
and-false true = refl
and-false false = refl

-- IRP_MN_START_DEVICE, with the test on the registration made
choose : Bool → Answer → PdoWorld → PdoWorld
choose b a w =
    if b
    then started_with true success [] w
    else started_with (nt_success a.registration) a.registration
        (register_interface (nt_success a.registration) ∷ []) w

choose-IsKept :
    (b ok s : Bool) (a : Answer) (w : PdoWorld)
    → w.child.interface_registered ≡ b
    → nt_success a.registration ≡ ok
    → w.child.started ≡ s
    → IsKept w.child w.calls
    → IsKept (choose b a w).child (choose b a w).calls
unfolding choose started_with names_made names_freed interface_on
choose-IsKept true ok s a w hb ho hs v =
    kept-after w.child _ w.calls (set_interface_state true ∷ []) true s hb hs v refl refl
choose-IsKept false true s a w hb ho hs v =
    subst⁻¹
      (λ o.
        IsKept (record w.child { started = true; interface_registered = o })
          (w.calls ++ (register_interface o ∷ (if o then set_interface_state true ∷ [] else []))))
      ho
      (kept-after w.child (record w.child { started = true; interface_registered = true }) w.calls
        (register_interface true ∷ set_interface_state true ∷ []) false s hb hs v refl refl)
choose-IsKept false false s a w hb ho hs v =
    subst⁻¹
      (λ o.
        IsKept (record w.child { started = true; interface_registered = o })
          (w.calls ++ (register_interface o ∷ (if o then set_interface_state true ∷ [] else []))))
      ho
      (kept-after w.child (record w.child { started = true; interface_registered = false }) w.calls
        (register_interface false ∷ []) false s hb hs v refl (and-false s))

-- what a removal and a surprise removal call
removal : Bool → List Call
removal b = if b then set_interface_state false ∷ free_interface_name ∷ [] else []

removal-IsKept :
    (b s : Bool) (c : ChildDevice) (calls : List Call)
    → c.interface_registered ≡ b
    → c.started ≡ s
    → IsKept c calls
    → IsKept (record c { started = false; interface_registered = false }) (calls ++ removal b)
unfolding removal names_made names_freed interface_on
removal-IsKept true s c calls hb hs v = kept-after c _ calls _ true s hb hs v refl refl
removal-IsKept false s c calls hb hs v = kept-after c _ calls _ false s hb hs v refl (and-false s)

surprise : Bool → List Call
surprise b = if b then set_interface_state false ∷ [] else []

surprise-IsKept :
    (b s : Bool) (c : ChildDevice) (calls : List Call)
    → c.interface_registered ≡ b
    → c.started ≡ s
    → IsKept c calls
    → IsKept (record c { started = false }) (calls ++ surprise b)
unfolding surprise names_made names_freed interface_on
surprise-IsKept true s c calls hb hs v =
    kept-after c (record c { started = false }) calls (set_interface_state false ∷ []) true s hb hs
      v (omega (arith, ap bit hb)) refl
surprise-IsKept false s c calls hb hs v =
    kept-after c (record c { started = false }) calls [] false s hb hs v (omega (arith, ap bit hb))
      (and-false s)

capabilities-IsKept :
    (place : Bool) (c : ChildDevice) (calls : List Call)
    → IsKept c calls
    → IsKept c (calls ++ (if place then set_capabilities ∷ [] else []))
unfolding names_made names_freed interface_on
capabilities-IsKept true c calls v =
    kept-after c c calls _ c.interface_registered c.started refl refl v refl refl
capabilities-IsKept false c calls v = kept-nothing c calls v

store_text-IsKept :
    (r : Status × Option (List ℕ)) (w : PdoWorld)
    → IsKept w.child w.calls
    → IsKept (store_text r w).child (store_text r w).calls
store_text-IsKept (s, none) w v = v
store_text-IsKept (s, some t) w v = v

pub pdo_pnp-IsKept :
    (m : Minor) (a : Answer) (w : PdoWorld)
    → IsKept w.child w.calls
    → IsKept (pdo_pnp m a w).child (pdo_pnp m a w).calls
unfolding pdo_pnp choose removal surprise
pdo_pnp-IsKept start_device a w v =
    choose-IsKept w.child.interface_registered (nt_success a.registration) w.child.started a w refl
      refl refl v
pdo_pnp-IsKept remove_device a w v =
    removal-IsKept w.child.interface_registered w.child.started w.child w.calls refl refl v
pdo_pnp-IsKept surprise_removal a w v =
    surprise-IsKept w.child.interface_registered w.child.started w.child w.calls refl refl v
pdo_pnp-IsKept (query_capabilities place) a w v = capabilities-IsKept place w.child w.calls v
pdo_pnp-IsKept (query_id id) a w v = store_text-IsKept (pdo_query_id id a.memory) w v
pdo_pnp-IsKept (query_device_text true) a w v =
    store_text-IsKept
      (if a.memory then (success, some description) else (insufficient_resources, none)) w v
pdo_pnp-IsKept (query_device_text false) a w v = v
pdo_pnp-IsKept (query_device_relations bus) a w v = v
pdo_pnp-IsKept query_stop_device a w v = v
pdo_pnp-IsKept query_remove_device a w v = v
pdo_pnp-IsKept cancel_stop_device a w v = v
pdo_pnp-IsKept cancel_remove_device a w v = v
pdo_pnp-IsKept other_minor a w v = v

pub started-start_device :
    (a : Answer) (w : PdoWorld) → (pdo_pnp start_device a w).child.started ≡ true
unfolding pdo_pnp started_with
started-start_device a w =
    if-elim (λ (x : PdoWorld). x.child.started ≡ true) w.child.interface_registered refl refl

-- the requests that neither start nor remove a device
unfoldable pub passes : Minor → Bool
passes start_device = false
passes remove_device = false
passes surprise_removal = false
passes _ = true

store_text-started :
    (r : Status × Option (List ℕ)) (w : PdoWorld) → (store_text r w).child.started ≡ w.child.started
store_text-started (s, none) w = refl
store_text-started (s, some t) w = refl

pub started-passes :
    (m : Minor) (a : Answer) (w : PdoWorld)
    → passes m ≡ true
    → (pdo_pnp m a w).child.started ≡ w.child.started
unfolding pdo_pnp passes
started-passes start_device a w h = cc
started-passes remove_device a w h = cc
started-passes surprise_removal a w h = cc
started-passes (query_id id) a w h = store_text-started (pdo_query_id id a.memory) w
started-passes (query_device_text true) a w h =
    store_text-started
      (if a.memory then (success, some description) else (insufficient_resources, none)) w
started-passes (query_device_text false) a w h = refl
started-passes (query_capabilities place) a w h = refl
started-passes (query_device_relations bus) a w h = refl
started-passes query_stop_device a w h = refl
started-passes query_remove_device a w h = refl
started-passes cancel_stop_device a w h = refl
started-passes cancel_remove_device a w h = refl
started-passes other_minor a w h = refl
