-- ===== src/Overlay/Pages.antt =====
-- The dirty pages: their number, their memory and their fate.
use htkis_hyper_disk.Base.{
  ℕ, suc, ◌+◌, ◌*◌, ◌≡◌, ◌<◌, ◌≤◌, refl, ap, Bool, true, false, List, [], ◌∷◌, ◌++◌, leb,
  if◌then◌else◌, sub32, length, length-append, Bool-cases, inl, inr, arith,
}
use htkis_hyper_disk.Nt.{Status, nt_success}
use htkis_hyper_disk.Overlay.{
  max_dirty_pages, Page, Overlay, setup, sync_from, sync_dirty_pages, invalidate_all, make_room,
  add_page, write_redirect,
}

-- The count is the length of the list and at most the maximum, and what is allocated and not freed is
-- the RAM overlay and two blocks for each page.
pub record IsValid (o : Overlay) : Type 0 where
  pub count : o.dirty_page_count ≡ length o.dirty_list
  pub most : o.dirty_page_count ≤ max_dirty_pages
  pub memory : o.allocated ≡ o.freed + (if o.has_ram then 1 else 0) + 2 * length o.dirty_list

-- what a sync of `ps` leaves
pub record Synced (ps : List Page) (o u : Overlay) : Type 0 where
  pub pages : u.dirty_list ≡ []
  pub count : u.dirty_page_count + length ps ≡ o.dirty_page_count
  pub freed : u.freed ≡ o.freed + 2 * length ps
  pub allocated : u.allocated ≡ o.allocated
  pub ram : u.has_ram ≡ o.has_ram

sync_from_lem :
    (ps : List Page) (o : Overlay)
    → length ps ≤ o.dirty_page_count
    → o.dirty_page_count < 4294967296
    → Synced ps o (sync_from ps o)
unfolding sync_from
sync_from_lem [] o le small = record {
  pages = refl;
  count = omega arith;
  freed = omega arith;
  allocated = refl;
  ram = refl;
}
sync_from_lem (p ∷ ps) o le small =
    let next : Overlay = record o {
      dirty_page_count = sub32 o.dirty_page_count 1;
      freed = suc (suc o.freed);
    } in
    let s : Synced ps next (sync_from ps next) =
      sync_from_lem ps next (omega (arith, le, small)) (omega arith) in
    record {
      pages = s.pages;
      count = omega (arith, s.count, le, small);
      freed = omega (arith, s.freed);
      allocated = s.allocated;
      ram = s.ram;
    }

invalidate_all-IsValid : (o : Overlay) → IsValid o → IsValid (invalidate_all o)
unfolding invalidate_all sync_dirty_pages
invalidate_all-IsValid o v =
    let s : Synced o.dirty_list o (sync_from o.dirty_list o) =
      sync_from_lem o.dirty_list o (omega (arith, v.count)) (omega (arith, v.most)) in
    record {
      count = omega (arith, s.count, v.count, ap length s.pages);
      most = omega (arith, s.count, v.most);
      memory = omega (
        arith,
        s.allocated,
        s.freed,
        v.memory,
        ap length s.pages,
        ap {B = ℕ} (λ b. if b then 1 else 0) s.ram,
      );
    }

make_room-IsValid :
    (o : Overlay)
    → IsValid o
    → IsValid (make_room o) × ((make_room o).dirty_page_count < max_dirty_pages)
unfolding make_room sync_dirty_pages invalidate_all
make_room-IsValid o v = elim (Bool-cases (leb max_dirty_pages o.dirty_page_count)) [
  | inl full ↦
      let i : IsValid (sync_from o.dirty_list o) = invalidate_all-IsValid o v in
      let s : Synced o.dirty_list o (sync_from o.dirty_list o) =
        sync_from_lem o.dirty_list o (omega (arith, v.count)) (omega (arith, v.most)) in
      simp full (i, omega (arith, i.count, ap length s.pages))
  | inr room ↦ simp room (v, ground arith)
]

add_page-IsValid :
    (o : Overlay) (page_allocated data_allocated : Bool) (block_offset : ℕ) (bytes : List ℕ)
    → IsValid o
    → o.dirty_page_count < max_dirty_pages
    → IsValid (add_page o page_allocated data_allocated block_offset bytes).0
unfolding add_page
add_page-IsValid o false block offset bytes v room = v
add_page-IsValid o true false offset bytes v room = record {
  count = v.count;
  most = v.most;
  memory = omega (arith, v.memory);
}
add_page-IsValid o true true offset bytes v room = record {
  count = omega (arith, v.count, room, length-append o.dirty_list (_ ∷ []));
  most = omega (arith, v.count, room);
  memory = omega (arith, v.memory, length-append o.dirty_list (_ ∷ []));
}

-- What is done to the overlay between its setup and its unload.
pub data Op : Type 0 where
  write : Bool → Bool → ℕ → List ℕ → Op
  invalidate : Op

abbrev pub step : Overlay → Op → Overlay
step o (write page_allocated data_allocated block_offset bytes) =
    (write_redirect o page_allocated data_allocated block_offset bytes).0
step o invalidate = invalidate_all o

abbrev pub run : Overlay → List Op → Overlay
run o [] = o
run o (op ∷ ops) = run (step o op) ops

write_redirect-IsValid :
    (o : Overlay) (page_allocated data_allocated : Bool) (block_offset : ℕ) (bytes : List ℕ)
    → IsValid o
    → IsValid (write_redirect o page_allocated data_allocated block_offset bytes).0
unfolding write_redirect
write_redirect-IsValid o page block offset bytes v = elim (Bool-cases o.has_ram) [
  | inl ram ↦
      let m = make_room-IsValid o v in
      simp ram (add_page-IsValid (make_room o) page block offset bytes m.0 m.1)
  | inr bare ↦ simp bare v
]

step-IsValid : (o : Overlay) (op : Op) → IsValid o → IsValid (step o op)
step-IsValid o invalidate v = invalidate_all-IsValid o v
step-IsValid o (write page block offset bytes) v =
    write_redirect-IsValid o page block offset bytes v

setup-IsValid :
    (ram : Bool) (registered started : Status) → IsValid (setup ram registered started).0
unfolding setup
setup-IsValid ram registered started = elim (Bool-cases (nt_success registered)) [
  | inr failed ↦ simp failed (record { count = refl; most = omega arith; memory = omega arith })
  | inl ok ↦ elim (Bool-cases (nt_success started)) [
    | inr failed ↦
        simp (ok, failed) (record { count = refl; most = omega arith; memory = omega arith })
    | inl running ↦
        simp (ok, running) (record { count = refl; most = omega arith; memory = omega arith })
  ]
]

run-IsValid_from : (o : Overlay) (ops : List Op) → IsValid o → IsValid (run o ops)
run-IsValid_from o [] v = v
run-IsValid_from o (op ∷ ops) v = run-IsValid_from (step o op) ops (step-IsValid o op v)

-- After HdOverlayFilterSetup, whatever it could allocate and register, and any sequence of
-- HdOverlayWriteRedirect and HdOverlayInvalidateAll, with any failures of allocation, the count is the
-- number of dirty pages and at most 1048576, and the memory that is allocated and not freed is that of
-- the RAM overlay and of two blocks for each dirty page.
pub run-IsValid :
    (ram : Bool) (registered started : Status) (ops : List Op)
    → IsValid (run (setup ram registered started).0 ops)
run-IsValid ram registered started ops =
    run-IsValid_from (setup ram registered started).0 ops (setup-IsValid ram registered started)

-- When the RAM overlay is there, the state is valid, the list is full and both allocations succeed,
-- HdOverlayWriteRedirect frees all the pages that the list had, with their data, and leaves only the page
-- that it adds.
write_redirect-full :
    (o : Overlay) (block_offset : ℕ) (bytes : List ℕ)
    → IsValid o
    → o.has_ram ≡ true
    → o.dirty_page_count ≡ max_dirty_pages
    → ((write_redirect o true true block_offset bytes).0.dirty_list
        ≡ record { block_offset = block_offset; bytes = bytes; is_dirty = true } ∷ [])
      × ((write_redirect o true true block_offset bytes).0.freed
          ≡ o.freed + 2 * length o.dirty_list)
unfolding write_redirect add_page make_room sync_dirty_pages
write_redirect-full o offset bytes v ram full =
    let test : leb max_dirty_pages o.dirty_page_count ≡ true = ground (arith, full) in
    let s : Synced o.dirty_list o (sync_from o.dirty_list o) =
      sync_from_lem o.dirty_list o (omega (arith, v.count)) (omega (arith, v.most)) in
    simp (ram, test)
      (
        ap (λ ps. ps ++ (record { block_offset = offset; bytes = bytes; is_dirty = true } ∷ []))
            s.pages,
        s.freed,
      )
