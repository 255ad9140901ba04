-- ===== src/Bus/Tests.antt =====
-- A bus with one child.
use htkis_hyper_disk.Base.{ℕ, ◌≡◌, true, [], ◌∷◌, some}
use htkis_hyper_disk.Nt.{success}
use htkis_hyper_disk.Bus.{new_child, nothing, Answer, start_device, World, find_child_by_pdo}
use htkis_hyper_disk.Bus.Dispatch.{child_pnp, dispatch_pnp, dispatch_pnp-returns}

abbrev world : World
world = record {
  bus = record { bus_device_object = 100; child_count = 1; children = new_child 1 200 ∷ [] };
  packet = record { status = success; information = nothing; completions = 0 };
  calls = [];
}

abbrev granted : ℕ → Answer
granted i = record {
  creation = record { memory = true; status = success; device = 300 };
  registration = success;
  memory = true;
}

dispatch_pnp-returns_example :
    dispatch_pnp 3 200 start_device granted world
    ≡ some (child_pnp (find_child_by_pdo 200 world.bus.children) start_device (granted 0) world)
dispatch_pnp-returns_example = dispatch_pnp-returns 2 200 start_device granted world
