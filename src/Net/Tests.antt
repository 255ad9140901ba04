-- ===== src/Net/Tests.antt =====
-- Concrete runs of the network driver's functions, and instances of the theorems about them.
use htkis_hyper_disk.Base.{ℕ, ◌<◌, ◌≡◌, refl, true, arith, some, [], ◌∷◌, replicate}
use htkis_hyper_disk.Nt.{success}
use htkis_hyper_disk.Net.{
  Connection, Net, max_connections, Header, hd_magic, hd_version, zeroed, connect, cleanup,
  initialize, connect_from,
}
use htkis_hyper_disk.Net.Connections.{IsValid, active, FirstFit, connect-FirstFit}
use htkis_hyper_disk.Net.Cleanup.{cleanup-idle}
use htkis_hyper_disk.Net.Frame.{serialize, deserialize}
use htkis_hyper_disk.Net.Frame.Laws.{deserialize-serialize, Fits}

abbrev fresh : Net
fresh = record { connection_count = 0; connections = replicate 64 zeroed; next_frame_id = 1 }

abbrev open_slot : Connection
open_slot = record zeroed { is_active = true; sin_family = 2 }

-- slots 0 and 1 in use
abbrev two : Net
two = record {
  connection_count = 2;
  connections = open_slot ∷ open_slot ∷ replicate 62 zeroed;
  next_frame_id = 1;
}

two-IsValid : IsValid two
two-IsValid = record { slots = refl; counted = refl }

connect-FirstFit_example :
    (i : ℕ) × ((connect two 9527).0 ≡ success)
    × ((connect two 9527).1 ≡ some i)
    × FirstFit 9527 two.connections 0 i (connect two 9527).2.connections
    × (i < max_connections)
    × IsValid (connect two 9527).2
connect-FirstFit_example = connect-FirstFit two 9527 two-IsValid (omega arith)

connect-two : (connect two 9527).1 ≡ some 2
unfolding connect connect_from
connect-two = refl

fresh-IsValid : IsValid fresh
fresh-IsValid = record { slots = refl; counted = refl }

initialize-fresh : initialize ≡ fresh
unfolding initialize
initialize-fresh = refl

cleanup-idle_example :
    IsValid (cleanup two)
    × (active (cleanup two).connections ≡ 0)
    × ((cleanup two).connection_count ≡ 0)
cleanup-idle_example = cleanup-idle two two-IsValid

abbrev header : Header
header = record {
  magic = hd_magic;
  version = hd_version;
  frame_type = 3;
  flags = 0;
  frame_id = 0x01020304;
  payload_len = 2;
  image_id = 77;
  block_offset = 0x1122334455667788;
  block_count = 9;
  layer_id = 4;
}

abbrev blank : Header
blank = record {
  magic = 0;
  version = 0;
  frame_type = 0;
  flags = 0;
  frame_id = 0;
  payload_len = 0;
  image_id = 0;
  block_offset = 0;
  block_count = 0;
  layer_id = 0;
}

header-Fits : Fits header
header-Fits = omega arith

deserialize-serialize_example :
    deserialize (some (serialize (some header) (some (5 ∷ 6 ∷ [])) true true).1) (some blank) true
    ≡ record {
      status = success;
      header = some (record header { block_count = 0; layer_id = 0 });
      payload = some (5 ∷ 6 ∷ []);
    }
deserialize-serialize_example =
    deserialize-serialize header blank (5 ∷ 6 ∷ []) header-Fits refl refl refl (omega arith)
