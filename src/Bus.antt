-- ===== src/Bus.antt =====
-- driver/bus/bus_pnp.c: the bus driver's child devices and its plug and play (PnP) requests. `calls` are
-- the calls of the kernel that matter later. The copy of a child that HdBusCreatePdo puts into the device extension of its
-- device is left out, since nothing reads it.
pub mod Ids
pub mod Pdo
pub mod Dispatch
pub mod Control
mod Tests
use htkis_hyper_disk.Base.{
  ℕ, zero, suc, ◌+◌, ◌/◌, ◌*◌, Bool, true, false, List, [], ◌∷◌, ◌++◌, Option, none, some, ◌==◌,
  if◌then◌else◌, u32, length,
}
use htkis_hyper_disk.Nt.{Status, success, insufficient_resources, nt_success}
use htkis_hyper_disk.WdmDisk.{hd_disk_size, hd_sector_size, hd_cylinders}

-- the calls of the kernel that the PnP code makes; a registration says whether it succeeded
pub data Call : Type 0 where
  reference_object dereference_object : ℕ → Call
  free_relations : Call
  register_interface set_interface_state : Bool → Call
  set_capabilities : Call
  free_interface_name : Call

pub record ChildDevice : Type 0 where
  pub child_id : ℕ
  pub child_device_object : ℕ
  pub disk_size : ℕ
  pub sector_size : ℕ
  pub total_sectors : ℕ
  pub cylinders : ℕ
  pub tracks_per_cylinder : ℕ
  pub sectors_per_track : ℕ
  pub interface_registered : Bool
  pub started : Bool

-- the head of the child list is `children`, the tail its end
pub record BusExtension : Type 0 where
  pub bus_device_object : ℕ
  pub child_count : ℕ
  pub children : List ChildDevice

-- what the kernel answers when a child is made: whether there is memory for it, the status of
-- IoCreateDevice and the device that it makes
pub record Creation : Type 0 where
  pub memory : Bool
  pub status : Status
  pub device : ℕ

-- the child that HdBusAutoEnumerateChild fills in
abbrev pub new_child : ℕ → ℕ → ChildDevice
new_child child_id device = record {
  child_id = child_id;
  child_device_object = device;
  disk_size = hd_disk_size;
  sector_size = hd_sector_size;
  total_sectors = u32 (hd_disk_size / hd_sector_size);
  cylinders = if hd_cylinders == 0 then 1 else hd_cylinders;
  tracks_per_cylinder = 255;
  sectors_per_track = 63;
  interface_registered = false;
  started = false;
}

-- HdBusAutoEnumerateChild with HdBusCreatePdo
pub auto_enumerate_child : BusExtension → Creation → BusExtension × Status
auto_enumerate_child b c =
    let child_id = u32 (b.child_count + 1) in
    if c.memory
    then (if nt_success c.status
        then (
          record b {
            child_count = child_id;
            children = b.children ++ (new_child child_id c.device ∷ []);
          },
          success,
        )
        else (record b { child_count = child_id }, c.status))
    else (b, insufficient_resources)

-- HdBusFindChildByPdo
pub find_child_by_pdo : ℕ → List ChildDevice → Option ChildDevice
find_child_by_pdo pdo [] = none
find_child_by_pdo pdo (c ∷ cs) =
    if c.child_device_object == pdo then some c else find_child_by_pdo pdo cs

-- What `Information` of a packet points to: nothing, relations or a text.
pub data Information : Type 0 where
  nothing : Information
  relations text : List ℕ → Information

-- A PnP packet.
pub record PnpIrp : Type 0 where
  pub status : Status
  pub information : Information
  pub completions : ℕ

pub data IdType : Type 0 where
  device_id hardware_ids instance_id compatible_ids other_id : IdType

-- The minor functions that the drivers look at; a query for relations says whether it asks for bus
-- relations, one for capabilities whether it has a place for them, one for a text whether it asks for
-- the description.
pub data Minor : Type 0 where
  start_device query_stop_device query_remove_device cancel_stop_device : Minor
  cancel_remove_device remove_device surprise_removal other_minor : Minor
  query_device_relations query_capabilities query_device_text : Bool → Minor
  query_id : IdType → Minor

-- the second loop over the children: the devices that are put into the relations
pub relation_objects : List ChildDevice → List ℕ
relation_objects [] = []
relation_objects (c ∷ cs) =
    if c.child_device_object == 0
    then relation_objects cs
    else c.child_device_object ∷ relation_objects cs

abbrev pub referenced : List ℕ → List Call
referenced [] = []
referenced (d ∷ ds) = reference_object d ∷ referenced ds

abbrev pub dereferenced : List ℕ → List Call
dereferenced [] = []
dereferenced (d ∷ ds) = dereference_object d ∷ dereferenced ds

-- the release of the relations that the packet carried before
abbrev pub release : Information → List Call
release (relations old) = dereferenced old ++ (free_relations ∷ [])
release _ = []

-- What the kernel answers to one dispatch: the creation of a child, the status of
-- IoRegisterDeviceInterface, and whether there is memory for a result.
pub record Answer : Type 0 where
  pub creation : Creation
  pub registration : Status
  pub memory : Bool

-- the bus driver's state, the packet and the calls
pub record World : Type 0 where
  pub bus : BusExtension
  pub packet : PnpIrp
  pub calls : List Call

-- the switch of HdBusFdoPnp
pub fdo_switch : Minor → Answer → World → World
fdo_switch start_device a w = record w {
  bus = (auto_enumerate_child w.bus a.creation).0;
  packet = record w.packet { status = success };
}
fdo_switch (query_device_relations true) a w =
    let objects = relation_objects w.bus.children in
    if a.memory
    then record w {
      packet = record w.packet { status = success; information = relations objects };
      calls = w.calls ++ (referenced objects ++ release w.packet.information);
    }
    else record w { packet = record w.packet { status = insufficient_resources } }
fdo_switch _ a w = w
