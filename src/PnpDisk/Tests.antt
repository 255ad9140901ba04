-- ===== src/PnpDisk/Tests.antt =====
-- A disk on a new child: it is started, then removed by surprise, then removed.
use htkis_hyper_disk.Base.{◌≡◌, refl, true, false, List, [], ◌∷◌, arith}
use htkis_hyper_disk.Nt.{success}
use htkis_hyper_disk.WdmDisk
use htkis_hyper_disk.WdmDisk.{Sizes, get_length_info, new_device}
use htkis_hyper_disk.Bus.{
  new_child, nothing, PnpIrp, Answer, Minor, start_device, surprise_removal, remove_device,
}
use htkis_hyper_disk.Bus.Control.{child_answer}
use htkis_hyper_disk.Bus.Pdo.Calls.{names_made, names_freed, interface_on}
use htkis_hyper_disk.Bus.Pdo.Runs.{IsKept}
use htkis_hyper_disk.PnpDisk.{new_blk_device, DiskWorld}
use htkis_hyper_disk.PnpDisk.Stack.{Below, run, IsStacked, run-IsStacked}
use htkis_hyper_disk.PnpDisk.Control.{disk_answer, SameDisk, special, answers_agree}

abbrev packet : PnpIrp
packet = record { status = success; information = nothing; completions = 0 }

abbrev granted : Answer
granted = record {
  creation = record { memory = true; status = success; device = 300 };
  registration = success;
  memory = true;
}

abbrev world : DiskWorld Below
world = record {
  disk = record new_blk_device { attached = true; interface_registered = true };
  lower = record { child = new_child 1 200; calls = [] };
  packet = packet;
  calls = [];
  returned = success;
}

abbrev requests : List (Minor × Answer × PnpIrp)
requests =
    (start_device, granted, packet)
    ∷ (surprise_removal, granted, packet)
    ∷ (remove_device, granted, packet)
    ∷ []

new-IsKept : IsKept (new_child 1 200) []
unfolding names_made names_freed interface_on
new-IsKept = record { names = omega arith; state = refl }

run-IsStacked_example : IsStacked (run requests world)
run-IsStacked_example = run-IsStacked requests world (record { below = refl; kept = new-IsKept })

abbrev sizes : Sizes
sizes = record {
  geometry_size = 24;
  geometry_ex_size = 40;
  length_information_size = 8;
  media_types_size = 40;
  device_number_size = 12;
  property_query_size = 12;
  device_descriptor_size = 40;
  adapter_descriptor_size = 32;
  partition_information_size = 144;
  mount_name_size = 4;
  mount_unique_id_size = 4;
}

same : SameDisk new_blk_device (new_child 1 200) new_device
unfolding new_device
same = record {
  same_size = (refl, refl);
  same_sectors = (refl, refl);
  same_cylinders = (refl, refl);
  same_tracks = (refl, refl);
  same_track_sectors = (refl, refl);
}

length-special : special get_length_info ≡ false
unfolding special
length-special = refl

answers_agree_example :
    (disk_answer sizes new_blk_device get_length_info 0 4
      ≡ WdmDisk.answer sizes new_device get_length_info 0 4)
    × (child_answer sizes (new_child 1 200) get_length_info 0 4
        ≡ WdmDisk.answer sizes new_device get_length_info 0 4)
answers_agree_example =
    answers_agree sizes new_blk_device (new_child 1 200) new_device get_length_info 0 4 same
      length-special
