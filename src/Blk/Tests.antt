-- ===== src/Blk/Tests.antt =====
-- Concrete runs of the block device driver.
use htkis_hyper_disk.Base.{ℕ, ◌≤◌, ◌≡◌, ◌≢◌, true, false, List, [], ◌∷◌, arith}
use htkis_hyper_disk.Nt.{Irp, pending, success, insufficient_resources}
use htkis_hyper_disk.Blk.{Extension, DeviceConfig, set_config}
use htkis_hyper_disk.Blk.Packets.{controlling, dispatch, IsCompleted, dispatch-IsCompleted}
use htkis_hyper_disk.Blk.Pool.{charge, granted, charge-granted}

abbrev disk : Extension
disk = record {
  image_id = 7;
  disk_size = 1048576;
  block_size = 4096;
  block_count = 256;
  layer_id = 1;
  is_started = true;
  open_handle_count = 0;
  io_event = false;
  shutdown_event = false;
  pool_quota = 1000;
  pool_usage = 0;
}

abbrev packet : Irp
packet = record { status = pending; information = 0; completions = 0 }

abbrev config : DeviceConfig
config = record { image_id = 8; disk_size = 4096; block_size = 512; block_count = 8; layer_id = 2 }

disk-blocks : disk.block_size ≢ 0
disk-blocks e = omega (arith, e)

dispatch-IsCompleted_example :
    IsCompleted packet (dispatch (controlling (set_config 96 config)) disk packet)
dispatch-IsCompleted_example =
    dispatch-IsCompleted (controlling (set_config 96 config)) disk packet disk-blocks

-- The second size does not fit, the third one does again.
abbrev sizes : List ℕ
sizes = 600 ∷ 500 ∷ 400 ∷ []

charge-granted_example :
    (charge disk sizes
      ≡ (record disk { pool_usage = 1000 }, success ∷ insufficient_resources ∷ success ∷ []))
    × (granted 1000 0 sizes ≤ 1000)
charge-granted_example =
    charge-granted disk sizes (omega arith) (omega arith)
      (omega arith, (omega arith, (omega arith, omega arith)))
