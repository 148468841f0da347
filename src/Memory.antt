-- ===== src/Memory.antt =====
-- The heap of kernel/heap.c on the frames of kernel/mem/pmm.c and the page tables of
-- kernel/mem/paging.c: the calls that the interface Frames of the heap stands for.
pub mod Backing
pub mod Growth
mod Tests
use ronin_os.Base.{ℕ, Bool, true, false, Option, none, some}
use ronin_os.Heap.{Frames}
use ronin_os.Pmm.{Pmm, pmm_alloc_frame, pmm_free_frame}
use ronin_os.Paging.{Paging, map_page, page_write}

-- The machine while it runs. After a panic nothing is called any more.
pub data Machine : Type 0 where
  panicked : Machine
  running : Pmm → Paging → Machine

abbrev pub alloc_on : Machine → Machine × ℕ
alloc_on panicked = (panicked, 0)
alloc_on (running p g) = let (p', frame) = pmm_alloc_frame p in (running p' g, frame)

abbrev pub free_on : Machine → ℕ → Machine
free_on panicked frame = panicked
free_on (running p g) frame = running (pmm_free_frame p frame) g

-- `map_page(virt, frame, PAGE_WRITE)` and whether it returns 0.
abbrev pub map_on : ℕ → Machine → ℕ → ℕ → Machine × Bool
map_on pool panicked virt frame = (panicked, false)
map_on pool (running p g) virt frame = elim (map_page pool g virt frame page_write) [
  | none ↦ (panicked, false)
  | some (g', done) ↦ (running p g', done)
]

abbrev pub frames_of : ℕ → Frames Machine
frames_of pool = record { alloc = alloc_on; free = free_on; map = map_on pool }
