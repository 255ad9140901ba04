-- ===== src/WdmDisk/Tests.antt =====
-- The device that the disk driver makes.
use htkis_hyper_disk.Base.{◌≡◌, refl}
use htkis_hyper_disk.WdmDisk.{Device, new_device}

-- the device of DriverEntry, and the sizes on a 64-bit Windows
abbrev device : Device
device = record {
  disk_size = 68719476736;
  sector_size = 512;
  total_sectors = 134217728;
  cylinders = 8354;
  tracks_per_cylinder = 255;
  sectors_per_track = 63;
}

device-new_device : new_device ≡ device
unfolding new_device
device-new_device = refl
