-- ===== src/Heap/Disjoint.antt =====
-- The memory that kmalloc of kernel/heap.c hands out against the memory that is in use.
use ronin_os.Base.{ℕ, ◌+◌, ◌≤◌, ◌≡◌, ◌⊎◌, some}
use ronin_os.Heap.{Heap}
use ronin_os.Heap.Valid.{allocated}

-- The `n` bytes at `p`, of which there are at least `size`, lie in the mapped region of the heap behind
-- a header, and every allocation of the old heap is still there, with no byte or header in common.
pub record Apart (h h' : Heap) (size p : ℕ) : Type 0 where
  pub bytes : ℕ
  pub enough : size ≤ bytes
  pub now : allocated h' p ≡ some bytes
  pub above : h'.start + 16 ≤ p
  pub below : p + bytes ≤ h'.end
  pub kept :
      (q m : ℕ)
      → allocated h q ≡ some m
      → (allocated h' q ≡ some m) × ((p + bytes + 16 ≤ q) ⊎ (q + m + 16 ≤ p))
