-- ===== src/Overlay.antt =====
-- driver/overlay/overlay_driver.c: the filter that keeps written blocks in memory. The counters
-- `allocated` and `freed` count what is taken from the pool and given back; data is a list of bytes.
pub mod Pages
mod Tests
use htkis_hyper_disk.Base.{
  ℕ, zero, suc, ◌+◌, ◌*◌, Bool, true, false, not, ◌&&◌, List, [], ◌∷◌, ◌++◌, leb, if◌then◌else◌,
  u32, sub32,
}
use htkis_hyper_disk.Nt.{Status, success, insufficient_resources, nt_success}

-- HD_OVERLAY_MAX_DIRTY_PAGES
abbrev pub max_dirty_pages : ℕ
max_dirty_pages = 1048576

-- HD_OVERLAY_DIRTY_PAGE
pub record Page : Type 0 where
  pub block_offset : ℕ
  pub bytes : List ℕ
  pub is_dirty : Bool

-- HD_OVERLAY_EXTENSION, as far as it is used, with the filter handle
pub record Overlay : Type 0 where
  pub has_ram : Bool
  pub dirty_list : List Page
  pub dirty_page_count : ℕ
  pub has_filter : Bool
  pub is_started : Bool
  pub allocated : ℕ
  pub freed : ℕ

-- HdOverlayFilterSetup, given whether the RAM overlay can be allocated and the answers of
-- FltRegisterFilter and FltStartFiltering. A failure leaves the RAM overlay allocated.
pub setup : Bool → Status → Status → Overlay × Status
setup ram registered started =
    let fresh : Overlay = record {
      has_ram = ram;
      dirty_list = [];
      dirty_page_count = 0;
      has_filter = false;
      is_started = false;
      allocated = if ram then 1 else 0;
      freed = 0;
    } in
    if not (nt_success registered)
    then (fresh, registered)
    else (if not (nt_success started)
        then (fresh, started)
        else (record fresh { has_filter = true; is_started = true }, success))

-- HdOverlayFilterUnload
pub unload : Overlay → Overlay
unload o = record o {
  has_filter = false;
  has_ram = false;
  freed = if o.has_ram then suc o.freed else o.freed;
  is_started = false;
}

-- HdOverlayPreWrite: whether the write is to be called back, and HdOverlayPostWrite does nothing
pub pre_write_callback : Overlay → Bool
pre_write_callback o = if not o.is_started then false else true

-- the loop of HdOverlaySyncDirtyPages: each page is taken from the list and freed with its data
pub sync_from : List Page → Overlay → Overlay
sync_from [] o = record o { dirty_list = [] }
sync_from (p ∷ ps) o =
    sync_from ps
      (record o { dirty_page_count = sub32 o.dirty_page_count 1; freed = suc (suc o.freed) })

-- HdOverlaySyncDirtyPages, and HdOverlayInvalidateAll, which only calls it
pub sync_dirty_pages : Overlay → Overlay × Status
sync_dirty_pages o = (sync_from o.dirty_list o, success)

pub invalidate_all : Overlay → Overlay
invalidate_all o = (sync_dirty_pages o).0

-- the first part of HdOverlayWriteRedirect, which empties a full list
pub make_room : Overlay → Overlay
make_room o = if leb max_dirty_pages o.dirty_page_count then (sync_dirty_pages o).0 else o

-- the rest of it, given whether the page and its data can be allocated
pub add_page : Overlay → Bool → Bool → ℕ → List ℕ → Overlay × Status
add_page o page_allocated data_allocated block_offset bytes =
    let page : Page = record { block_offset = block_offset; bytes = bytes; is_dirty = true } in
    if not page_allocated
    then (o, insufficient_resources)
    else (if not data_allocated
        then (record o { allocated = suc o.allocated; freed = suc o.freed }, insufficient_resources)
        else (
          record o {
            dirty_list = o.dirty_list ++ (page ∷ []);
            dirty_page_count = u32 (o.dirty_page_count + 1);
            allocated = suc (suc o.allocated);
          },
          success,
        ))

-- HdOverlayWriteRedirect
pub write_redirect : Overlay → Bool → Bool → ℕ → List ℕ → Overlay × Status
write_redirect o page_allocated data_allocated block_offset bytes =
    if not o.has_ram
    then (o, insufficient_resources)
    else add_page (make_room o) page_allocated data_allocated block_offset bytes
