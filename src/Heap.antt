-- ===== src/Heap.antt =====
-- kernel/heap.c and heap.h: the first-fit block allocator behind kmalloc, kfree and krealloc.
-- The doubly linked list of block headers is the list of the blocks in the order of `next`, each with
-- the address of its header; `prev` of a block is the block before it, which split_block, merge_next
-- and heap_expand all maintain. The lock and the disabled interrupts make each call one step.
-- Physical frames and page tables are a parameter: an interface with the three calls that the heap
-- makes (kernel/mem/pmm.c and kernel/mem/paging.c implement it). Addresses and sizes are 32-bit words.
pub mod Words
pub mod Blocks
pub mod Release
pub mod Expand
pub mod Valid
pub mod Alloc
pub mod Calls
pub mod Disjoint
pub mod Huge
pub mod Init
mod Tests
use Prim.Native.Nat.{bit_and}
pub use ronin_os.Pmm.{frame_size}
use ronin_os.Base.{
  ℕ, zero, suc, ◌+◌, ◌-◌, ◌*◌, ◌^◌, Bool, true, false, not, ◌&&◌, ◌||◌, Option, none, some, List,
  [], ◌∷◌, ◌++◌, ◌==◌, leb, ltb, if◌then◌else◌, add32, sub32, is_some,
}

abbrev pub heap_align : ℕ
heap_align = 16

abbrev pub kheap_base : ℕ
kheap_base = 0x1800_0000

abbrev pub kheap_max_size : ℕ
kheap_max_size = 16 * 1024 * 1024

abbrev pub heap_initial_pages : ℕ
heap_initial_pages = 4

-- `sizeof(heap_block_t)`: four 32-bit words.
abbrev pub block_overhead : ℕ
block_overhead = 16

pub record Block : Type 0 where
  pub addr : ℕ
  pub size : ℕ
  pub free : Bool

pub record Heap : Type 0 where
  pub blocks : List Block
  pub start : ℕ
  pub end : ℕ
  pub limit : ℕ
  pub ready : Bool

-- `(v + (a - 1u)) & ~(a - 1u)`
pub align_up : ℕ → ℕ → ℕ
align_up v a = bit_and (add32 v (a - 1)) (0xffff_ffff - (a - 1))

pub split_block : Block → ℕ → List Block
split_block b wanted =
    if leb b.size (add32 (add32 wanted block_overhead) heap_align)
    then b ∷ []
    else record b { size = wanted }
      ∷ record {
        addr = add32 (add32 b.addr block_overhead) wanted;
        size = sub32 (sub32 b.size wanted) block_overhead;
        free = true;
      }
      ∷ []

-- The block and what follows it.
pub merge_next : Block → List Block → List Block
merge_next b [] = b ∷ []
merge_next b (n ∷ bs) =
    if not n.free
    then b ∷ n ∷ bs
    else record b { size = add32 b.size (add32 block_overhead n.size) } ∷ bs

-- `cur->free = 0`, of the block that `split_block` leaves in front.
abbrev pub mark_used : List Block → List Block
mark_used [] = []
mark_used (b ∷ bs) = record b { free = false } ∷ bs

-- The `while (cur)` walk of kmalloc: the pointer, and the blocks after it.
pub first_fit : List Block → ℕ → Option (ℕ × List Block)
first_fit [] wanted = none
first_fit (b ∷ bs) wanted =
    let rest = first_fit bs wanted in
    if b.free && leb wanted b.size
    then some (add32 b.addr block_overhead, mark_used (split_block b wanted) ++ bs)
    else elim rest [ none ↦ none | some (p, bs') ↦ some (p, b ∷ bs') ]

-- What follows the tail when `added` bytes have been mapped; `none` if there is no block.
pub attach : List Block → ℕ → Option (List Block)
attach [] added = none
attach (tail ∷ []) added =
    if tail.free
    then some (record tail { size = add32 tail.size added } ∷ [])
    else some (
        tail
        ∷ record {
          addr = add32 (add32 tail.addr block_overhead) tail.size;
          size = sub32 added block_overhead;
          free = true;
        }
        ∷ [])
attach (b ∷ c ∷ bs) added = elim (attach (c ∷ bs) added) [ none ↦ none | some bs' ↦ some (b ∷ bs') ]

-- The calls of the heap into the frame allocator and the page tables, with their state. `alloc`
-- answers 0 if no frame is left, and `map` whether the page has been mapped.
pub record Frames (F : Type 0) : Type 0 where
  pub alloc : F → F × ℕ
  pub free : F → ℕ → F
  pub map : F → ℕ → ℕ → F × Bool

-- How the mapping loop of heap_expand ends: with the frames, `g_heap_end` and `added`.
pub data Mapped (F : Type 0) : Type 0 where
  out_of_rounds : Mapped F
  failed : F → ℕ → Mapped F
  mapped : F → ℕ → ℕ → Mapped F

-- How kmalloc ends: it returns a pointer (0 for a failure), or it never leaves its loop.
pub data Outcome (F : Type 0) : Type 0 where
  spins : Outcome F
  returns : F → Heap → ℕ → Outcome F

-- One round for each page below the limit, and one for the last test.
abbrev pub map_rounds : ℕ
map_rounds = 4098

-- `size` rounded up to a multiple of 16, in 32 bits.
abbrev pub wanted_for : ℕ → ℕ
wanted_for size = bit_and (add32 size (heap_align - 1)) (0xffff_ffff - (heap_align - 1))

module _ {F : Type 0} (fr : Frames F) where
  pub map_loop : ℕ → F → (limit end added needed : ℕ) → Mapped F
  map_loop zero f limit end added needed = out_of_rounds
  map_loop (suc rounds) f limit end added needed =
      if not (ltb added needed)
      then mapped f end added
      else let (f1, frame) = fr.alloc f in
        if frame == 0
        then failed f1 end
        else if ltb limit (add32 end frame_size)
        then failed (fr.free f1 frame) end
        else let (f2, done) = fr.map f1 end frame in
          let rest =
            map_loop rounds f2 limit (add32 end frame_size) (add32 added frame_size) needed in
          if not done then failed (fr.free f2 frame) end else rest

  -- From the end of the loop on: the new frames and heap, and whether heap_expand returns 0.
  abbrev pub heap_expand_from : F → Heap → Mapped F → F × Heap × Bool
  heap_expand_from f h out_of_rounds = (f, h, false)
  heap_expand_from f h (failed f' end') = (f', record h { end = end' }, false)
  heap_expand_from f h (mapped f' end' added) = elim (attach h.blocks added) [
    | none ↦ (f', record h { end = end' }, false)
    | some bs ↦ (f', record h { end = end'; blocks = bs }, true)
  ]

  pub heap_expand : F → Heap → ℕ → F × Heap × Bool
  heap_expand f h min_bytes =
      let needed = align_up (add32 min_bytes block_overhead) frame_size in
      heap_expand_from f h (map_loop map_rounds f h.limit h.end 0 needed)

  -- From `retry:` on.
  pub kmalloc_loop : ℕ → F → Heap → ℕ → Outcome F
  kmalloc_loop zero f h wanted = spins
  kmalloc_loop (suc fuel) f h wanted = elim (first_fit h.blocks wanted) [
    | some (p, bs) ↦ returns f (record h { blocks = bs }) p
    | none ↦
        let (f', h', ok) = heap_expand f h wanted in
        let again = kmalloc_loop fuel f' h' wanted in if ok then again else returns f' h' 0
  ]

  pub kmalloc : ℕ → F → Heap → ℕ → Outcome F
  kmalloc fuel f h size =
      if not h.ready || size == 0 then returns f h 0 else kmalloc_loop fuel f h (wanted_for size)

-- kfree below the first block; `prev` is the block before the list.
pub release_after : Block → List Block → ℕ → Option (List Block)
release_after prev [] addr = none
release_after prev (b ∷ bs) addr =
    let later = release_after b bs addr in
    if b.addr == addr
    then (let rest = merge_next (record b { free = true }) bs in
        some (if prev.free then merge_next prev rest else prev ∷ rest))
    else elim later [ none ↦ none | some bs' ↦ some (prev ∷ bs') ]

pub release : List Block → ℕ → Option (List Block)
release [] addr = none
release (b ∷ bs) addr =
    if b.addr == addr
    then some (merge_next (record b { free = true }) bs)
    else release_after b bs addr

-- `none` is the undefined behaviour of a pointer behind no block header.
pub kfree : Heap → ℕ → Option Heap
kfree h ptr =
    if not h.ready || ptr == 0 then some h else elim (release h.blocks (sub32 ptr block_overhead)) [
      | none ↦ none
      | some bs ↦ some (record h { blocks = bs })
    ]
