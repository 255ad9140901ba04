-- ===== src/PnpDisk/Stack.antt =====
-- The PnP disk driver on top of a child of the bus driver, over any PnP requests.
use htkis_hyper_disk.Base.{◌≡◌, refl, ap, ◌∙◌, Bool, true, false, ◌&&◌, List, [], ◌∷◌, if-elim}
use htkis_hyper_disk.Nt.{nt_success}
use htkis_hyper_disk.Bus.{
  Call, ChildDevice, PnpIrp, Answer, Minor, start_device, query_stop_device, query_remove_device,
  cancel_stop_device, cancel_remove_device, remove_device, surprise_removal, other_minor,
  query_device_relations, query_capabilities, query_device_text, query_id,
}
use htkis_hyper_disk.Bus.Pdo.{PdoWorld, pdo_pnp}
use htkis_hyper_disk.Bus.Pdo.Runs.{
  IsKept, pdo_pnp-IsKept, started-start_device, passes, started-passes,
}
use htkis_hyper_disk.PnpDisk.{DiskWorld, Lower, forward_irp, start_disk, disk_pnp}

-- A child as the driver below: its device and its calls.
pub record Below : Type 0 where
  pub child : ChildDevice
  pub calls : List Call

-- IoCallDriver of the child's device, with what the kernel answers there
abbrev pub call_child : Answer → Lower Below
call_child a m l p =
    let w = pdo_pnp m a (record { child = l.child; packet = p; calls = l.calls }) in
    (record { child = w.child; calls = w.calls }, w.packet, w.packet.status)

-- requests one after another, each with the kernel's answers and a packet of its own
pub run : List (Minor × Answer × PnpIrp) → DiskWorld Below → DiskWorld Below
run [] w = w
run ((m, a, p) ∷ rs) w = run rs (disk_pnp (call_child a) m (record w { packet = p }))

-- The disk is started only on a child that is started, and the child's interface is kept.
pub record IsStacked (w : DiskWorld Below) : Type 0 where
  pub below : (w.disk.started && w.lower.child.started) ≡ w.disk.started
  pub kept : IsKept w.lower.child w.lower.calls

and-true : (s : Bool) → (s && true) ≡ s
and-true true = refl
and-true false = refl

module _ (a : Answer) (p : PnpIrp) (w : DiskWorld Below) (v : IsStacked w) where
  -- the world after a request was handed to the child, and what the child made of a packet
  child_after : Minor → PnpIrp → PdoWorld
  child_after m q =
      pdo_pnp m a (record { child = w.lower.child; packet = q; calls = w.lower.calls })

  kept-after : (m : Minor) (q : PnpIrp) → IsKept (child_after m q).child (child_after m q).calls
  unfolding child_after
  kept-after m q =
      pdo_pnp-IsKept m a (record { child = w.lower.child; packet = q; calls = w.lower.calls })
        v.kept

  -- the disk stays as it was, and the child is started as before
  passes-IsStacked :
      (m : Minor) (q : PnpIrp)
      → passes m ≡ true
      → IsStacked (forward_irp (call_child a) m (record w { packet = q }))
  unfolding forward_irp child_after
  passes-IsStacked m q h = record {
    below =
        ap (λ b. w.disk.started && b)
          (started-passes m a (record { child = w.lower.child; packet = q; calls = w.lower.calls })
            h)
        ∙ v.below;
    kept = kept-after m q;
  }

  start-IsStacked : IsStacked (
      start_disk (call_child a) (forward_irp (call_child a) start_device (record w { packet = p })))
  unfolding forward_irp child_after start_disk
  start-IsStacked =
      if-elim IsStacked (nt_success (child_after start_device p).packet.status)
        (record { below = up; kept = kept-after start_device p })
        (record {
          below = ap (λ b. w.disk.started && b) up ∙ and-true w.disk.started;
          kept = kept-after start_device p;
        })
    where
      up : (child_after start_device p).child.started ≡ true
      up =
          started-start_device a
            (record { child = w.lower.child; packet = p; calls = w.lower.calls })

  disk_pnp-IsStacked : (m : Minor) → IsStacked (disk_pnp (call_child a) m (record w { packet = p }))
  unfolding disk_pnp forward_irp child_after passes
  disk_pnp-IsStacked start_device = start-IsStacked
  disk_pnp-IsStacked remove_device = record { below = refl; kept = kept-after remove_device _ }
  disk_pnp-IsStacked surprise_removal = record {
    below = refl;
    kept = kept-after surprise_removal _;
  }
  disk_pnp-IsStacked query_stop_device = passes-IsStacked query_stop_device _ refl
  disk_pnp-IsStacked query_remove_device = passes-IsStacked query_remove_device _ refl
  disk_pnp-IsStacked cancel_stop_device = passes-IsStacked cancel_stop_device _ refl
  disk_pnp-IsStacked cancel_remove_device = passes-IsStacked cancel_remove_device _ refl
  disk_pnp-IsStacked other_minor = passes-IsStacked other_minor p refl
  disk_pnp-IsStacked (query_device_relations bus) =
      passes-IsStacked (query_device_relations bus) p refl
  disk_pnp-IsStacked (query_capabilities place) = passes-IsStacked (query_capabilities place) p refl
  disk_pnp-IsStacked (query_device_text text) = passes-IsStacked (query_device_text text) p refl
  disk_pnp-IsStacked (query_id id) = passes-IsStacked (query_id id) p refl

-- Over any PnP requests to the PnP disk driver on top of a child of the bus driver, whatever the kernel
-- answers: the disk is started only while the child below is started, and of the child's interface one
-- name is held while it is registered and none otherwise, and it is on exactly while the child is
-- started and it is registered.
pub run-IsStacked :
    (rs : List (Minor × Answer × PnpIrp)) (w : DiskWorld Below) → IsStacked w → IsStacked (run rs w)
unfolding run
run-IsStacked [] w v = v
run-IsStacked ((m, a, p) ∷ rs) w v = run-IsStacked rs _ (disk_pnp-IsStacked a p w v m)
