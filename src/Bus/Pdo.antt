-- ===== src/Bus/Pdo.antt =====
-- HdBusPdoPnp: the PnP requests to a child device.
pub mod Calls
pub mod Runs
use Prim.Native.String.{String}
use htkis_hyper_disk.Base.{
  ℕ, suc, Bool, true, false, not, ◌&&◌, List, [], ◌∷◌, ◌++◌, Option, none, some, if◌then◌else◌,
}
use htkis_hyper_disk.Serial.{codes}
use htkis_hyper_disk.Nt.{
  Status, success, pending, insufficient_resources, not_supported, nt_success,
}
use htkis_hyper_disk.Bus.{
  Call, register_interface, set_interface_state, set_capabilities, free_interface_name, ChildDevice,
  Information, text, PnpIrp, Answer, Minor, start_device, query_stop_device, query_remove_device,
  cancel_stop_device, cancel_remove_device, remove_device, surprise_removal, other_minor,
  query_device_relations, query_capabilities, query_device_text, query_id,
}
use htkis_hyper_disk.Bus.Ids.{pdo_query_id}

pub record PdoWorld : Type 0 where
  pub child : ChildDevice
  pub packet : PnpIrp
  pub calls : List Call

abbrev is_success : Status → Bool
is_success success = true
is_success _ = false

abbrev is_pending_status : Status → Bool
is_pending_status pending = true
is_pending_status _ = false

-- the end of HdBusPdoPnp, with its local status
pub settle : Status → PnpIrp → PnpIrp
settle status i = if is_pending_status status then i else record i {
  status = if is_success i.status then status else i.status;
  completions = suc i.completions;
}

-- a case that only stores a status
abbrev pub store : Status → PdoWorld → PdoWorld
store s w = record w { packet = settle success (record w.packet { status = s }) }

-- IRP_MN_START_DEVICE, given the interface state after the registration, its status and its call
pub started_with : Bool → Status → List Call → PdoWorld → PdoWorld
started_with registered status made w = record {
  child = record w.child { started = true; interface_registered = registered };
  packet = settle status (record w.packet { status = success });
  calls = w.calls ++ (made ++ (if registered then set_interface_state true ∷ [] else []));
}

-- the description as 16-bit characters with the null character at its end
abbrev pub description : List ℕ
description = codes "HTKIS HyperDisk Virtual Disk" ++ (0 ∷ [])

-- a case that returns a text, if there is one
abbrev pub store_text : Status × Option (List ℕ) → PdoWorld → PdoWorld
store_text (s, none) w = record w { packet = settle s (record w.packet { status = s }) }
store_text (s, some t) w = record w {
  packet = settle s (record w.packet { status = s; information = text t });
}

-- HdBusPdoPnp; its result is the status of the packet
pub pdo_pnp : Minor → Answer → PdoWorld → PdoWorld
pdo_pnp start_device a w =
    if w.child.interface_registered
    then started_with true success [] w
    else started_with (nt_success a.registration) a.registration
        (register_interface (nt_success a.registration) ∷ []) w
pdo_pnp remove_device a w = store success (record w {
  child = record w.child { started = false; interface_registered = false };
  calls =
      w.calls
      ++ (if w.child.interface_registered
          then set_interface_state false ∷ free_interface_name ∷ []
          else []);
})
pdo_pnp surprise_removal a w = store success (record w {
  child = record w.child { started = false };
  calls = w.calls ++ (if w.child.interface_registered then set_interface_state false ∷ [] else []);
})
pdo_pnp (query_device_relations bus) a w = store success w
pdo_pnp (query_id id) a w = store_text (pdo_query_id id a.memory) w
pdo_pnp (query_capabilities place) a w =
    store success (record w { calls = w.calls ++ (if place then set_capabilities ∷ [] else []) })
pdo_pnp (query_device_text false) a w = store success w
pdo_pnp (query_device_text true) a w =
    store_text (if a.memory then (success, some description) else (insufficient_resources, none)) w
pdo_pnp other_minor a w = store not_supported w
pdo_pnp _ a w = store success w
