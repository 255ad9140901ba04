-- ===== src/PnpDisk/Control.antt =====
-- HdBlkDispatchDeviceControl of the PnP disk driver, and the three disk drivers against each other.
use htkis_hyper_disk.Base.{ℕ, ◌*◌, ◌≡◌, refl, Bool, true, false, ltb, if◌then◌else◌}
use htkis_hyper_disk.Nt.{
  Status, success, invalid_parameter, buffer_too_small, invalid_device_request, Irp, complete_with,
}
use htkis_hyper_disk.WdmDisk.{
  Sizes, Property, device_property, adapter_property, unknown_property, Code, get_drive_geometry,
  get_drive_geometry_ex, get_length_info, is_writable, media_removal, get_media_types_ex,
  get_device_number, get_partition_info_ex, query_device_name, query_unique_id, query_property,
  other_code, Reply, nothing, geometry, geometry_and_size, disk_length, media, number_and_partition,
  device_descriptor, adapter_descriptor, partition,
}
use htkis_hyper_disk.WdmDisk
use htkis_hyper_disk.Bus.{ChildDevice}
use htkis_hyper_disk.Bus.Control.{child_answer}
use htkis_hyper_disk.PnpDisk.{BlkDevice}

-- the cases that test the output buffer
abbrev fill_buffer : ℕ → ℕ → Reply → Status × ℕ × Reply
fill_buffer output n reply =
    if ltb output n then (buffer_too_small, 0, nothing) else (success, n, reply)

-- the switch of HdBlkDispatchDeviceControl: the status, `bytesReturned` and what is written
pub disk_answer : Sizes → BlkDevice → Code → ℕ → ℕ → Status × ℕ × Reply
disk_answer z d get_drive_geometry input output =
    fill_buffer output z.geometry_size
      (geometry d.cylinders d.tracks_per_cylinder d.sectors_per_track d.sector_size)
disk_answer z d get_drive_geometry_ex input output = fill_buffer output z.geometry_ex_size (
    geometry_and_size d.cylinders d.tracks_per_cylinder d.sectors_per_track d.sector_size
      d.disk_size)
disk_answer z d get_length_info input output =
    fill_buffer output z.length_information_size (disk_length d.disk_size)
disk_answer z d is_writable input output = (success, 0, nothing)
disk_answer z d media_removal input output = (success, 0, nothing)
disk_answer z d get_media_types_ex input output =
    fill_buffer output z.media_types_size
      (media d.cylinders d.tracks_per_cylinder d.sectors_per_track d.sector_size)
disk_answer z d get_device_number input output =
    fill_buffer output z.device_number_size (number_and_partition 0 4294967295)
disk_answer z d (query_property p) input output =
    if ltb input z.property_query_size then (invalid_parameter, 0, nothing) else elim p [
      | device_property ↦
          fill_buffer output z.device_descriptor_size (device_descriptor z.device_descriptor_size)
      | adapter_property ↦
          fill_buffer output z.adapter_descriptor_size
            (adapter_descriptor z.adapter_descriptor_size (128 * 1024) 32)
      | unknown_property ↦ (invalid_parameter, 0, nothing)
    ]
disk_answer z d get_partition_info_ex input output =
    fill_buffer output z.partition_information_size (partition 0 d.disk_size)
disk_answer z d _ input output = (invalid_device_request, 0, nothing)

-- HdBlkDispatchDeviceControl
pub disk_control : Sizes → BlkDevice → Code → ℕ → ℕ → Irp → Irp × Status × Reply
disk_control z d code input output i =
    let (status, bytes, reply) = disk_answer z d code input output in
    (complete_with i status bytes, status, reply)

-- the codes that the three drivers do not treat alike
unfoldable pub special : Code → Bool
special get_device_number = true
special query_device_name = true
special query_unique_id = true
special _ = false

-- The three drivers see disks of the same size and geometry.
pub record SameDisk (d : BlkDevice) (c : ChildDevice) (w : WdmDisk.Device) : Type 0 where
  pub same_size : (d.disk_size ≡ w.disk_size) × (c.disk_size ≡ w.disk_size)
  pub same_sectors : (d.sector_size ≡ w.sector_size) × (c.sector_size ≡ w.sector_size)
  pub same_cylinders : (d.cylinders ≡ w.cylinders) × (c.cylinders ≡ w.cylinders)
  pub same_tracks :
      (d.tracks_per_cylinder ≡ w.tracks_per_cylinder)
      × (c.tracks_per_cylinder ≡ w.tracks_per_cylinder)
  pub same_track_sectors :
      (d.sectors_per_track ≡ w.sectors_per_track) × (c.sectors_per_track ≡ w.sectors_per_track)

disk_answer-answer :
    (z : Sizes) (d : BlkDevice) (c : ChildDevice) (w : WdmDisk.Device) (code : Code)
    (input output : ℕ)
    → SameDisk d c w
    → special code ≡ false
    → disk_answer z d code input output ≡ WdmDisk.answer z w code input output
unfolding special disk_answer WdmDisk.answer
disk_answer-answer z d c w get_drive_geometry input output same h = λ i.
    fill_buffer output z.geometry_size (
      geometry (same.same_cylinders.0 i) (same.same_tracks.0 i) (same.same_track_sectors.0 i)
        (same.same_sectors.0 i))
disk_answer-answer z d c w get_drive_geometry_ex input output same h = λ i.
    fill_buffer output z.geometry_ex_size (
      geometry_and_size (same.same_cylinders.0 i) (same.same_tracks.0 i)
        (same.same_track_sectors.0 i) (same.same_sectors.0 i) (same.same_size.0 i))
disk_answer-answer z d c w get_length_info input output same h =
    λ i. fill_buffer output z.length_information_size (disk_length (same.same_size.0 i))
disk_answer-answer z d c w is_writable input output same h = refl
disk_answer-answer z d c w media_removal input output same h = refl
disk_answer-answer z d c w get_media_types_ex input output same h = λ i.
    fill_buffer output z.media_types_size (
      media (same.same_cylinders.0 i) (same.same_tracks.0 i) (same.same_track_sectors.0 i)
        (same.same_sectors.0 i))
disk_answer-answer z d c w get_device_number input output same h = cc
disk_answer-answer z d c w (query_property p) input output same h = refl
disk_answer-answer z d c w get_partition_info_ex input output same h =
    λ i. fill_buffer output z.partition_information_size (partition 0 (same.same_size.0 i))
disk_answer-answer z d c w query_device_name input output same h = cc
disk_answer-answer z d c w query_unique_id input output same h = cc
disk_answer-answer z d c w other_code input output same h = refl

child_answer-answer :
    (z : Sizes) (d : BlkDevice) (c : ChildDevice) (w : WdmDisk.Device) (code : Code)
    (input output : ℕ)
    → SameDisk d c w
    → special code ≡ false
    → child_answer z c code input output ≡ WdmDisk.answer z w code input output
unfolding special child_answer WdmDisk.answer
child_answer-answer z d c w get_drive_geometry input output same h = λ i.
    fill_buffer output z.geometry_size (
      geometry (same.same_cylinders.1 i) (same.same_tracks.1 i) (same.same_track_sectors.1 i)
        (same.same_sectors.1 i))
child_answer-answer z d c w get_drive_geometry_ex input output same h = λ i.
    fill_buffer output z.geometry_ex_size (
      geometry_and_size (same.same_cylinders.1 i) (same.same_tracks.1 i)
        (same.same_track_sectors.1 i) (same.same_sectors.1 i) (same.same_size.1 i))
child_answer-answer z d c w get_length_info input output same h =
    λ i. fill_buffer output z.length_information_size (disk_length (same.same_size.1 i))
child_answer-answer z d c w is_writable input output same h = refl
child_answer-answer z d c w media_removal input output same h = refl
child_answer-answer z d c w get_media_types_ex input output same h = λ i.
    fill_buffer output z.media_types_size (
      media (same.same_cylinders.1 i) (same.same_tracks.1 i) (same.same_track_sectors.1 i)
        (same.same_sectors.1 i))
child_answer-answer z d c w get_device_number input output same h = cc
child_answer-answer z d c w (query_property p) input output same h = refl
child_answer-answer z d c w get_partition_info_ex input output same h =
    λ i. fill_buffer output z.partition_information_size (partition 0 (same.same_size.1 i))
child_answer-answer z d c w query_device_name input output same h = cc
child_answer-answer z d c w query_unique_id input output same h = cc
child_answer-answer z d c w other_code input output same h = refl

-- On disks of the same size and geometry, for every control code but the number of the device and the
-- two names of the mount manager, and for all lengths: the PnP disk driver and the bus driver give the
-- answer that the disk driver for the mount manager gives, the same status, bytes and reply.
pub answers_agree :
    (z : Sizes) (d : BlkDevice) (c : ChildDevice) (w : WdmDisk.Device) (code : Code)
    (input output : ℕ)
    → SameDisk d c w
    → special code ≡ false
    → (disk_answer z d code input output ≡ WdmDisk.answer z w code input output)
      × (child_answer z c code input output ≡ WdmDisk.answer z w code input output)
answers_agree z d c w code input output same h = (
  disk_answer-answer z d c w code input output same h,
  child_answer-answer z d c w code input output same h,
)
