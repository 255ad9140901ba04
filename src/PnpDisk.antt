-- ===== src/PnpDisk.antt =====
-- driver/blk/pnp_disk_driver.c: the disk driver that PnP attaches on top of a child of the bus driver.
-- The driver below is a parameter: what it makes of a packet.
pub mod Stack
pub mod Control
mod Tests
use htkis_hyper_disk.Base.{
  ℕ, suc, ◌+◌, ◌*◌, ◌/◌, Bool, true, false, List, [], ◌∷◌, ◌++◌, Option, none, some, ltb, ◌==◌,
  if◌then◌else◌, u32, u64,
}
use htkis_hyper_disk.Nt.{Status, success, invalid_parameter, nt_success, Irp, complete_with}
use htkis_hyper_disk.WdmDisk.{hd_disk_size, hd_sector_size, hd_cylinders}
use htkis_hyper_disk.Bus.{
  Call, register_interface, set_interface_state, free_interface_name, PnpIrp, Minor, start_device,
  query_stop_device, query_remove_device, cancel_stop_device, cancel_remove_device, remove_device,
  surprise_removal, other_minor, query_device_relations, query_capabilities, query_device_text,
  query_id,
}

-- HD_BLK_DEVICE; `attached` and `deleted` say what became of the device object
pub record BlkDevice : Type 0 where
  pub disk_size : ℕ
  pub sector_size : ℕ
  pub total_sectors : ℕ
  pub cylinders : ℕ
  pub tracks_per_cylinder : ℕ
  pub sectors_per_track : ℕ
  pub started : Bool
  pub interface_registered : Bool
  pub attached : Bool
  pub deleted : Bool

-- the fields that HdBlkAddDevice sets before it attaches the device
abbrev pub new_blk_device : BlkDevice
new_blk_device = record {
  disk_size = hd_disk_size;
  sector_size = hd_sector_size;
  total_sectors = u32 (hd_disk_size / hd_sector_size);
  cylinders = if hd_cylinders == 0 then 1 else hd_cylinders;
  tracks_per_cylinder = 255;
  sectors_per_track = 63;
  started = false;
  interface_registered = false;
  attached = false;
  deleted = false;
}

-- HdBlkAddDevice, given the status of IoCreateDevice, of the attachment and of the registration: the
-- device, if one was created, the calls, and the status that is returned
pub add_device : Status → Status → Status → Option BlkDevice × List Call × Status
add_device created attachment registration =
    if nt_success created
    then (if nt_success attachment
        then (
          some (record new_blk_device {
            attached = true;
            interface_registered = nt_success registration;
          }),
          register_interface (nt_success registration) ∷ [],
          success,
        )
        else (some (record new_blk_device { deleted = true }), [], attachment))
    else (none, [], created)

-- the device, the state of the driver below, the packet, the calls, and the status that is returned
pub record DiskWorld (L : Type 0) : Type 0 where
  pub disk : BlkDevice
  pub lower : L
  pub packet : PnpIrp
  pub calls : List Call
  pub returned : Status

-- The driver below takes a packet, and leaves its state, the packet and the status that it returns.
abbrev pub Lower : Type 0 → Type 0
Lower L = Minor → L → PnpIrp → L × PnpIrp × Status

module _ {L : Type 0} (call_driver : Lower L) where
  -- HdBlkForwardIrp
  pub forward_irp : Minor → DiskWorld L → DiskWorld L
  forward_irp m w =
      let (l, p, s) = call_driver m w.lower w.packet in
      record w { lower = l; packet = p; returned = s }

  -- the start of the device, when the driver below has served the packet
  pub start_disk : DiskWorld L → DiskWorld L
  start_disk w =
      if nt_success w.returned
      then record w {
        disk = record w.disk { started = true };
        calls =
            w.calls ++ (if w.disk.interface_registered then set_interface_state true ∷ [] else []);
      }
      else w

  -- a packet that is answered with success and handed on
  abbrev pub succeed : Minor → DiskWorld L → DiskWorld L
  succeed m w = forward_irp m (record w { packet = record w.packet { status = success } })

  -- IRP_MN_REMOVE_DEVICE before the packet is handed on, and IRP_MN_SURPRISE_REMOVAL
  abbrev pub withdraw : Bool → DiskWorld L → DiskWorld L
  withdraw b w = record w {
    disk = record w.disk { started = false; interface_registered = false };
    calls = w.calls ++ (if b then set_interface_state false ∷ free_interface_name ∷ [] else []);
  }

  abbrev pub switch_off : Bool → DiskWorld L → DiskWorld L
  switch_off b w = record w {
    disk = record w.disk { started = false };
    calls = w.calls ++ (if b then set_interface_state false ∷ [] else []);
  }

  -- IoDetachDevice and IoDeleteDevice
  abbrev pub delete : DiskWorld L → DiskWorld L
  delete w = record w { disk = record w.disk { attached = false; deleted = true } }

  -- HdBlkDispatchPnp
  pub disk_pnp : Minor → DiskWorld L → DiskWorld L
  disk_pnp start_device w = start_disk (forward_irp start_device w)
  disk_pnp query_stop_device w = succeed query_stop_device w
  disk_pnp query_remove_device w = succeed query_remove_device w
  disk_pnp cancel_stop_device w = succeed cancel_stop_device w
  disk_pnp cancel_remove_device w = succeed cancel_remove_device w
  disk_pnp remove_device w = delete (succeed remove_device (withdraw w.disk.interface_registered w))
  disk_pnp surprise_removal w = succeed surprise_removal (switch_off w.disk.interface_registered w)
  disk_pnp m w = forward_irp m w

-- HdBlkDispatchRead and HdBlkDispatchWrite: no data is moved
pub disk_transfer : BlkDevice → ℕ → ℕ → Irp → Irp × Status
disk_transfer d byte_offset length i =
    if ltb d.disk_size (u64 (byte_offset + length))
    then (complete_with i invalid_parameter 0, invalid_parameter)
    else (complete_with i success length, success)
