-- ===== src/Blk/Packets.antt =====
-- What becomes of the packets that the dispatch routines are given.
use htkis_hyper_disk.Base.{
  ℕ, zero, suc, ◌+◌, ◌≡◌, ◌≢◌, ◌<◌, ◌≤◌, ◌/◌, u32, ap, ◌∙◌, refl, Bool, true, false, Option, some,
  ltb, ◌==◌, Bool-cases, inl, inr, arith,
}
use htkis_hyper_disk.Nt.{success, pending, Irp}
use htkis_hyper_disk.Blk.{
  Extension, Done, finish, create, close, flush_buffers, drain, shutdown, QueryClass,
  standard_information, basic_information, other_information, query_information, SetClass,
  allocation_information, end_of_file_information, unknown_information, resize, set_information,
  PnpMinor, start_device, remove_device, query_device_relations, other_minor, pnp, Control,
  set_config, get_status, other_control, ioctl, size_of_config, submit_block_request, transfer,
}

-- The requests that are answered at once.
pub data Packet : Type 0 where
  opening closing : Packet
  flushing : Bool → Packet
  querying : QueryClass → Packet
  setting : SetClass → Packet
  plugging : PnpMinor → Packet
  controlling : Control → Packet

abbrev pub dispatch : Packet → Extension → Irp → Option Done
dispatch opening e i = some (create e i)
dispatch closing e i = some (close e i)
dispatch (flushing synchronization) e i = some (flush_buffers synchronization e i)
dispatch (querying class) e i = some (query_information class e i).0
dispatch (setting class) e i = set_information class e i
dispatch (plugging minor) e i = some (pnp minor e i)
dispatch (controlling code) e i = some (ioctl code e i).0

-- The packet was completed once, with the status that is returned.
pub record IsCompleted (i : Irp) (answer : Option Done) : Type 0 where
  pub done : Done
  pub value : answer ≡ some done
  pub once : done.packet.completions ≡ suc i.completions
  pub returned : done.packet.status ≡ done.returned

resize-some :
    (size : ℕ) (e : Extension)
    → e.block_size ≢ 0
    → resize size e ≡ some (record e { disk_size = size; block_count = u32 (size / e.block_size) })
unfolding resize
resize-some size e nz =
    let whole : (e.block_size == 0) ≡ false = ground (arith, nz) in simp whole refl

-- When the block size is not 0, every packet but those of IRP_MJ_READ, IRP_MJ_WRITE and IRP_MJ_SHUTDOWN
-- is completed exactly once before its dispatch routine returns, with the status that is returned.
pub dispatch-IsCompleted :
    (r : Packet) (e : Extension) (i : Irp) → e.block_size ≢ 0 → IsCompleted i (dispatch r e i)
unfolding create close flush_buffers query_information pnp ioctl set_information
dispatch-IsCompleted opening e i nz = record {
  done = create e i;
  value = refl;
  once = refl;
  returned = refl;
}
dispatch-IsCompleted closing e i nz = record {
  done = close e i;
  value = refl;
  once = refl;
  returned = refl;
}
dispatch-IsCompleted (flushing b) e i nz = record {
  done = flush_buffers b e i;
  value = refl;
  once = refl;
  returned = refl;
}
dispatch-IsCompleted (querying standard_information) e i nz = record {
  done = _;
  value = refl;
  once = refl;
  returned = refl;
}
dispatch-IsCompleted (querying basic_information) e i nz = record {
  done = _;
  value = refl;
  once = refl;
  returned = refl;
}
dispatch-IsCompleted (querying other_information) e i nz = record {
  done = _;
  value = refl;
  once = refl;
  returned = refl;
}
dispatch-IsCompleted (setting (allocation_information size)) e i nz =
    rw (resize-some size e nz, set_information)
      (record { done = _; value = refl; once = refl; returned = refl })
dispatch-IsCompleted (setting (end_of_file_information size)) e i nz =
    rw (resize-some size e nz, set_information)
      (record { done = _; value = refl; once = refl; returned = refl })
dispatch-IsCompleted (setting unknown_information) e i nz = record {
  done = _;
  value = refl;
  once = refl;
  returned = refl;
}
dispatch-IsCompleted (plugging start_device) e i nz = record {
  done = _;
  value = refl;
  once = refl;
  returned = refl;
}
dispatch-IsCompleted (plugging remove_device) e i nz = record {
  done = _;
  value = refl;
  once = refl;
  returned = refl;
}
dispatch-IsCompleted (plugging query_device_relations) e i nz = record {
  done = _;
  value = refl;
  once = refl;
  returned = refl;
}
dispatch-IsCompleted (plugging other_minor) e i nz = record {
  done = _;
  value = refl;
  once = refl;
  returned = refl;
}
dispatch-IsCompleted (controlling (set_config input_length config)) e i nz =
    elim (Bool-cases (ltb input_length size_of_config)) [
      | inl short ↦ simp short (record { done = _; value = refl; once = refl; returned = refl })
      | inr long ↦ simp long (record { done = _; value = refl; once = refl; returned = refl })
    ]
dispatch-IsCompleted (controlling get_status) e i nz = record {
  done = _;
  value = refl;
  once = refl;
  returned = refl;
}
dispatch-IsCompleted (controlling other_control) e i nz = record {
  done = _;
  value = refl;
  once = refl;
  returned = refl;
}

drain_ends :
    (fuel k n : ℕ) (busy : ℕ → Bool)
    → n ≤ k
    → k < n + fuel
    → busy k ≡ false
    → drain fuel busy n ≡ true
unfolding drain
drain_ends zero k n busy le lt idle = absurd (omega arith)
drain_ends (suc fuel) k n busy le lt idle = elim (Bool-cases (busy n)) [
  | inl again ↦ elim (Bool-cases (n == k)) [
    | inl same ↦ let e : n ≡ k = ground arith in let clash : busy n ≡ false = ap busy e ∙ idle in cc
    | inr other ↦ simp again (drain_ends fuel k (suc n) busy (ground arith) (omega arith) idle)
  ]
  | inr done ↦ simp done refl
]

-- When one of its first looks at PendingIoCount, as many as the fuel, finds no request pending,
-- HdBlkDispatchShutdown returns STATUS_SUCCESS with the packet completed once, the device stopped and
-- the shutdown event set, and nothing else changed.
shutdown_lem :
    (fuel k : ℕ) (busy : ℕ → Bool) (e : Extension) (i : Irp)
    → k < fuel
    → busy k ≡ false
    → shutdown fuel busy e i
      ≡ some (finish (record e { shutdown_event = true; is_started = false }) i success 0)
unfolding shutdown
shutdown_lem fuel k busy e i lt idle =
    rw (drain_ends fuel k 0 busy (omega arith) (omega arith) idle) refl

-- HdBlkDispatchRead and HdBlkDispatchWrite return STATUS_PENDING for every device whose block size is not
-- 0, and leave the packet as it was, not completed.
transfer-pending :
    (is_write : ℕ) (e : Extension) (i : Irp) (byte_offset length : ℕ)
    → e.block_size ≢ 0
    → transfer is_write e i byte_offset length
      ≡ some (record { extension = e; packet = i; returned = pending })
unfolding transfer submit_block_request
transfer-pending is_write e i byte_offset length nz =
    let whole : (e.block_size == 0) ≡ false = ground (arith, nz) in simp whole refl
