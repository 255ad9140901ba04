-- ===== src/Bus/Control.antt =====
-- HdBusDispatchDeviceControl: the control codes of a child's disk.
use htkis_hyper_disk.Base.{ℕ, ◌*◌, Option, none, some, ltb, ◌==◌, if◌then◌else◌}
use htkis_hyper_disk.Nt.{
  Status, success, invalid_parameter, buffer_too_small, invalid_device_request, no_such_device, Irp,
  complete_with,
}
use htkis_hyper_disk.WdmDisk.{
  Sizes, device_property, adapter_property, unknown_property, Code, get_drive_geometry,
  get_drive_geometry_ex, get_length_info, is_writable, media_removal, get_media_types_ex,
  get_device_number, get_partition_info_ex, query_property, Reply, nothing, geometry,
  geometry_and_size, disk_length, media, number_and_partition, device_descriptor,
  adapter_descriptor, partition,
}
use htkis_hyper_disk.Bus.{ChildDevice, BusExtension, find_child_by_pdo}

-- the cases that test the output buffer
abbrev pub fill_output : ℕ → ℕ → Reply → Status × ℕ × Reply
fill_output output n reply =
    if ltb output n then (buffer_too_small, 0, nothing) else (success, n, reply)

-- the switch of HdBusDispatchDeviceControl: the status, `bytesReturned` and what is written
unfoldable pub child_answer : Sizes → ChildDevice → Code → ℕ → ℕ → Status × ℕ × Reply
child_answer z c get_drive_geometry input output =
    fill_output output z.geometry_size
      (geometry c.cylinders c.tracks_per_cylinder c.sectors_per_track c.sector_size)
child_answer z c get_drive_geometry_ex input output = fill_output output z.geometry_ex_size (
    geometry_and_size c.cylinders c.tracks_per_cylinder c.sectors_per_track c.sector_size
      c.disk_size)
child_answer z c get_length_info input output =
    fill_output output z.length_information_size (disk_length c.disk_size)
child_answer z c is_writable input output = (success, 0, nothing)
child_answer z c media_removal input output = (success, 0, nothing)
child_answer z c get_media_types_ex input output =
    fill_output output z.media_types_size
      (media c.cylinders c.tracks_per_cylinder c.sectors_per_track c.sector_size)
child_answer z c get_device_number input output =
    fill_output output z.device_number_size (number_and_partition 0 4294967295)
child_answer z c (query_property p) input output =
    if ltb input z.property_query_size then (invalid_parameter, 0, nothing) else elim p [
      | device_property ↦
          fill_output output z.device_descriptor_size (device_descriptor z.device_descriptor_size)
      | adapter_property ↦
          fill_output output z.adapter_descriptor_size
            (adapter_descriptor z.adapter_descriptor_size (128 * 1024) 32)
      | unknown_property ↦ (invalid_parameter, 0, nothing)
    ]
child_answer z c get_partition_info_ex input output =
    fill_output output z.partition_information_size (partition 0 c.disk_size)
child_answer z c _ input output = (invalid_device_request, 0, nothing)

-- the rest of HdBusDispatchDeviceControl for a device other than the bus device
pub child_control : Sizes → Option ChildDevice → Code → ℕ → ℕ → Irp → Irp × Status × Reply
child_control z none code input output i = (
  record (complete_with i no_such_device 0) { information = i.information },
  no_such_device,
  nothing,
)
child_control z (some c) code input output i =
    let (status, bytes, reply) = child_answer z c code input output in
    (complete_with i status bytes, status, reply)

-- HdBusDispatchDeviceControl
pub bus_device_control : Sizes → BusExtension → ℕ → Code → ℕ → ℕ → Irp → Irp × Status × Reply
bus_device_control z b device code input output i =
    if device == b.bus_device_object
    then (
      record (complete_with i invalid_device_request 0) { information = i.information },
      invalid_device_request,
      nothing,
    )
    else child_control z (find_child_by_pdo device b.children) code input output i
