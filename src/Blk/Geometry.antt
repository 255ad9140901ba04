-- ===== src/Blk/Geometry.antt =====
-- The count of blocks against the size of the disk.
use htkis_hyper_disk.Base.{
  ℕ, ◌+◌, ◌*◌, ◌/◌, ◌≡◌, ◌≢◌, ◌<◌, ◌≤◌, refl, false, Option, some, ◌==◌, arith, u32,
}
use native.Mathlib.Nat.{mul-div-le, lt-mul-div-succ}
use htkis_hyper_disk.Nt.{Irp}
use htkis_hyper_disk.Blk.{
  Extension, Done, allocation_information, end_of_file_information, resize, set_information,
}

-- The blocks cover the disk but for less than one block.
pub record IsCovered (e : Extension) : Type 0 where
  pub inside : e.block_count * e.block_size ≤ e.disk_size
  pub most : e.disk_size < (e.block_count + 1) * e.block_size

-- The request succeeds, with a disk of that size that the blocks cover.
pub record Resized (size : ℕ) (answer : Option Done) : Type 0 where
  pub done : Done
  pub value : answer ≡ some done
  pub size_set : done.extension.disk_size ≡ size
  pub covered : IsCovered done.extension

-- When the block size is not 0 and the new size has fewer than 2 ^ 32 blocks, HdBlkDispatchSetInformation
-- sets the size for both classes that carry one, with as many blocks as fit.
set_information-Resized :
    (size : ℕ) (e : Extension) (i : Irp)
    → e.block_size ≢ 0
    → size / e.block_size < 4294967296
    → Resized size (set_information (allocation_information size) e i)
      × Resized size (set_information (end_of_file_information size) e i)
unfolding set_information resize
set_information-Resized size e i nz few =
    let whole : (e.block_size == 0) ≡ false = ground (arith, nz) in
    let pos : 0 < e.block_size = ground (arith, nz) in
    let low = mul-div-le size e.block_size in
    let high = lt-mul-div-succ size pos in
    let same : u32 (size / e.block_size) ≡ size / e.block_size = omega (arith, few) in
    let c : IsCovered (record e { disk_size = size; block_count = u32 (size / e.block_size) }) =
      record { inside = rw same (omega (arith, low)); most = rw same (omega (arith, high)) } in
    (
      simp whole (record { done = _; value = refl; size_set = refl; covered = c }),
      simp whole (record { done = _; value = refl; size_set = refl; covered = c }),
    )
