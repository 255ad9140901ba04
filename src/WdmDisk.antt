-- ===== src/WdmDisk.antt =====
-- driver/blk/wdm_disk_driver.c: the disk driver whose disk has a fixed size and no content. The sizes
-- of Windows' structures are a parameter, since their headers are not part of the repository.
pub mod Control
pub mod MountManager
mod Tests
use htkis_hyper_disk.Base.{
  ℕ, zero, suc, ◌+◌, ◌*◌, ◌/◌, ◌%◌, Bool, true, false, not, ◌&&◌, List, [], ◌∷◌, Option, none, some,
  ltb, leb, ◌==◌, if◌then◌else◌, u32, u64,
}
use htkis_hyper_disk.Nt.{
  Status, success, invalid_parameter, buffer_too_small, buffer_overflow, not_supported,
  invalid_device_request, Irp, complete_with,
}

-- HD_BLK_DEVICE, as far as requests read it
pub record Device : Type 0 where
  pub disk_size : ℕ
  pub sector_size : ℕ
  pub total_sectors : ℕ
  pub cylinders : ℕ
  pub tracks_per_cylinder : ℕ
  pub sectors_per_track : ℕ

-- HD_DISK_SIZE: 64 GB; HD_SECTOR_SIZE; HD_CYLINDERS
abbrev pub hd_disk_size : ℕ
hd_disk_size = 64 * 1024 * 1024 * 1024

abbrev pub hd_sector_size : ℕ
hd_sector_size = 512

abbrev pub hd_cylinders : ℕ
hd_cylinders = hd_disk_size / hd_sector_size / (63 * 255)

-- the device that DriverEntry fills in
unfoldable pub new_device : Device
new_device = record {
  disk_size = hd_disk_size;
  sector_size = hd_sector_size;
  total_sectors = u32 (hd_disk_size / hd_sector_size);
  cylinders = if hd_cylinders == 0 then 1 else hd_cylinders;
  tracks_per_cylinder = 255;
  sectors_per_track = 63;
}

-- HdBlkDispatchRead and HdBlkDispatchWrite: the packet afterwards and the status that is returned. A
-- byte offset is a word of 64 bits, a length one of 32.
pub transfer_packet : Device → ℕ → ℕ → Irp → Irp × Status
transfer_packet d byte_offset length i =
    if ltb d.disk_size (u64 (byte_offset + length))
    then (complete_with i invalid_parameter 0, invalid_parameter)
    else (complete_with i success length, success)

-- the minor functions that HdBlkDispatchPnp serves, and any other
pub data Minor : Type 0 where
  start_device remove_device query_stop_device query_remove_device : Minor
  cancel_stop_device cancel_remove_device surprise_removal other_minor : Minor

-- HdBlkDispatchPnp
pub dispatch_pnp : Minor → Irp → Irp × Status
dispatch_pnp other_minor i = (complete_with i not_supported 0, not_supported)
dispatch_pnp _ i = (complete_with i success 0, success)

-- the sizes in bytes that the device control code uses; `symbolic_link` is the length of the name of
-- HD_BLK_SYM_LINK and `unique_text` that of the identifier
pub record Sizes : Type 0 where
  pub geometry_size : ℕ
  pub geometry_ex_size : ℕ
  pub length_information_size : ℕ
  pub media_types_size : ℕ
  pub device_number_size : ℕ
  pub property_query_size : ℕ
  pub device_descriptor_size : ℕ
  pub adapter_descriptor_size : ℕ
  pub partition_information_size : ℕ
  pub mount_name_size : ℕ
  pub mount_unique_id_size : ℕ

abbrev pub symbolic_link : ℕ
symbolic_link = 52

abbrev pub unique_text : ℕ
unique_text = 16

-- the control codes; a property query carries the property that it asks for
pub data Property : Type 0 where
  device_property adapter_property unknown_property : Property

pub data Code : Type 0 where
  get_drive_geometry get_drive_geometry_ex get_length_info is_writable media_removal : Code
  get_media_types_ex get_device_number get_partition_info_ex query_device_name query_unique_id :
      Code
  query_property : Property → Code
  other_code : Code

-- what is written into the output buffer: cylinders, tracks per cylinder, sectors per track and bytes
-- per sector, then the sizes
pub data Reply : Type 0 where
  nothing : Reply
  geometry : ℕ → ℕ → ℕ → ℕ → Reply
  geometry_and_size : ℕ → ℕ → ℕ → ℕ → ℕ → Reply
  disk_length : ℕ → Reply
  media : ℕ → ℕ → ℕ → ℕ → Reply
  number_and_partition : ℕ → ℕ → Reply
  device_descriptor : ℕ → Reply
  adapter_descriptor : ℕ → ℕ → ℕ → Reply
  partition : ℕ → ℕ → Reply
  device_name unique_id : ℕ → Reply

-- a case of the switch: its status, `bytesReturned` and what it writes
abbrev pub Answer : Type 0
Answer = Status × ℕ × Reply

-- `if (OutputBufferLength < n) status = s; else` write the reply of n bytes
abbrev pub fill : ℕ → ℕ → Status → Reply → Answer
fill output_length n s reply = if ltb output_length n then (s, 0, nothing) else (success, n, reply)

-- the switch of HdBlkDispatchDeviceControl. The number of needed bytes that two cases store in
-- `Information` on an overflow is overwritten at the end.
unfoldable pub answer : Sizes → Device → Code → ℕ → ℕ → Answer
answer z d get_drive_geometry input output =
    fill output z.geometry_size buffer_too_small
      (geometry d.cylinders d.tracks_per_cylinder d.sectors_per_track d.sector_size)
answer z d get_drive_geometry_ex input output = fill output z.geometry_ex_size buffer_too_small (
    geometry_and_size d.cylinders d.tracks_per_cylinder d.sectors_per_track d.sector_size
      d.disk_size)
answer z d get_length_info input output =
    fill output z.length_information_size buffer_too_small (disk_length d.disk_size)
answer z d is_writable input output = (success, 0, nothing)
answer z d media_removal input output = (success, 0, nothing)
answer z d get_media_types_ex input output =
    fill output z.media_types_size buffer_too_small
      (media d.cylinders d.tracks_per_cylinder d.sectors_per_track d.sector_size)
answer z d get_device_number input output =
    fill output z.device_number_size buffer_too_small (number_and_partition 1 4294967295)
answer z d (query_property p) input output =
    if ltb input z.property_query_size then (invalid_parameter, 0, nothing) else elim p [
      | device_property ↦
          fill output z.device_descriptor_size buffer_too_small
            (device_descriptor z.device_descriptor_size)
      | adapter_property ↦
          fill output z.adapter_descriptor_size buffer_too_small
            (adapter_descriptor z.adapter_descriptor_size (128 * 1024) 32)
      | unknown_property ↦ (invalid_parameter, 0, nothing)
    ]
answer z d get_partition_info_ex input output =
    fill output z.partition_information_size buffer_too_small (partition 0 d.disk_size)
answer z d query_device_name input output =
    fill output (z.mount_name_size + symbolic_link) buffer_overflow (device_name symbolic_link)
answer z d query_unique_id input output =
    fill output (z.mount_unique_id_size + unique_text) buffer_overflow (unique_id unique_text)
answer z d other_code input output = (invalid_device_request, 0, nothing)

-- HdBlkDispatchDeviceControl: the packet afterwards, the status that is returned and what is written
pub device_control : Sizes → Device → Code → ℕ → ℕ → Irp → Irp × Status × Reply
device_control z d code input_length output_length i =
    let (status, bytes, reply) = answer z d code input_length output_length in
    (complete_with i status bytes, status, reply)
