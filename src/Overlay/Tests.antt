-- ===== src/Overlay/Tests.antt =====
-- Concrete runs of the overlay.
use htkis_hyper_disk.Base.{ℕ, ◌≡◌, refl, true, false, List, [], ◌∷◌, zero, suc, ap, length, arith}
use htkis_hyper_disk.Nt.{success}
use htkis_hyper_disk.Overlay.{max_dirty_pages, Page, Overlay, setup}
use htkis_hyper_disk.Overlay.Pages.{IsValid, Op, write, invalidate, run, run-IsValid}

-- two writes, of which the second finds no memory for its data, and an invalidation
abbrev ops : List Op
ops =
    write true true 4096 (1 ∷ 2 ∷ [])
    ∷ write true false 8192 (3 ∷ [])
    ∷ invalidate
    ∷ write true true 0 (4 ∷ [])
    ∷ []

run-IsValid_example : IsValid (run (setup true success success).0 ops)
run-IsValid_example = run-IsValid true success success ops

abbrev page : Page
page = record { block_offset = 4096; bytes = 1 ∷ []; is_dirty = true }

-- n pages
pages : ℕ → List Page
pages zero = []
pages (suc n) = page ∷ pages n

length-pages : (n : ℕ) → length (pages n) ≡ n
unfolding pages
length-pages zero = refl
length-pages (suc n) = ap suc (length-pages n)

abbrev full : Overlay
full = record {
  has_ram = true;
  dirty_list = pages max_dirty_pages;
  dirty_page_count = max_dirty_pages;
  has_filter = true;
  is_started = true;
  allocated = 2097153;
  freed = 0;
}

full-IsValid : IsValid full
full-IsValid =
    let size = length-pages max_dirty_pages in
    record { count = omega (arith, size); most = omega arith; memory = omega (arith, size) }
