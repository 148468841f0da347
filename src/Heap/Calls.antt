-- ===== src/Heap/Calls.antt =====
-- heap_init, krealloc and heap_get_stats of kernel/heap.c.
use ronin_os.Base.{
  ℕ, zero, suc, true, not, Option, none, some, List, [], ◌∷◌, ◌==◌, leb, ltb, if◌then◌else◌, add32,
  sub32,
}
use ronin_os.Heap.{
  Block, Heap, Frames, Outcome, spins, returns, kmalloc, kfree, frame_size, block_overhead,
  kheap_base, kheap_max_size, heap_initial_pages,
}

-- The `for` loop of heap_init; `none` is a panic.
unfoldable pub init_loop : {F : Type 0} → Frames F → ℕ → F → ℕ → Option (F × ℕ)
init_loop fr zero f end = some (f, end)
init_loop fr (suc rounds) f end =
    let (f1, frame) = fr.alloc f in
    let (f2, done) = fr.map f1 end frame in
    let rest = init_loop fr rounds f2 (add32 end frame_size) in
    if frame == 0 then none else if not done then none else rest

-- The heap that heap_init leaves when the loop has mapped up to `end`.
abbrev pub init_heap : ℕ → Heap
init_heap end = record {
  blocks =
      record { addr = kheap_base; size = sub32 (sub32 end kheap_base) block_overhead; free = true }
      ∷ [];
  start = kheap_base;
  end = end;
  limit = add32 kheap_base kheap_max_size;
  ready = true;
}

unfoldable pub heap_init : {F : Type 0} → Frames F → F → Option (F × Heap)
heap_init fr f = elim (init_loop fr heap_initial_pages f kheap_base) [
  | none ↦ none
  | some (f', end) ↦ some (f', init_heap end)
]

-- The header at an address.
unfoldable pub header_at : List Block → ℕ → Option Block
header_at [] addr = none
header_at (b ∷ bs) addr = if b.addr == addr then some b else header_at bs addr

-- The `memcpy` that krealloc makes.
pub record Copy : Type 0 where
  pub dst : ℕ
  pub src : ℕ
  pub count : ℕ

-- How krealloc ends; `fault` is the undefined behaviour of a pointer behind no block header.
pub data Realloc (F : Type 0) : Type 0 where
  never : Realloc F
  fault : Realloc F
  done : F → Heap → ℕ → List Copy → Realloc F

abbrev pub of_outcome : {F : Type 0} → Outcome F → Realloc F
of_outcome spins = never
of_outcome (returns f h p) = done f h p []

-- From the `memcpy` on.
abbrev pub copy_and_free : {F : Type 0} → F → Heap → (ptr np copy_size : ℕ) → Realloc F
copy_and_free f h ptr np copy_size = elim (kfree h ptr) [
  | none ↦ fault
  | some h' ↦ done f h' np (record { dst = np; src = ptr; count = copy_size } ∷ [])
]

unfoldable pub krealloc : {F : Type 0} → Frames F → ℕ → F → Heap → (ptr new_size : ℕ) → Realloc F
krealloc fr fuel f h ptr new_size =
    if ptr == 0
    then of_outcome (kmalloc fr fuel f h new_size)
    else if new_size == 0
    then elim (kfree h ptr) [ none ↦ fault | some h' ↦ done f h' 0 [] ]
    else elim (header_at h.blocks (sub32 ptr block_overhead)) [
      | none ↦ fault
      | some block ↦
          if leb new_size block.size then done f h ptr [] else elim (kmalloc fr fuel f h new_size) [
            | spins ↦ never
            | returns f' h' np ↦
                if np == 0
                then done f' h' 0 []
                else elim (header_at h'.blocks (sub32 ptr block_overhead)) [
                  | none ↦ fault
                  | some b' ↦
                      copy_and_free f' h' ptr np
                        (if ltb new_size b'.size then new_size else b'.size)
                ]
          ]
    ]

pub record Stats : Type 0 where
  pub heap_start : ℕ
  pub heap_end : ℕ
  pub total_bytes : ℕ
  pub used_bytes : ℕ
  pub free_bytes : ℕ
  pub free_blocks : ℕ
  pub used_blocks : ℕ
  pub largest_free_block : ℕ

abbrev pub no_stats : Stats
no_stats = record {
  heap_start = 0;
  heap_end = 0;
  total_bytes = 0;
  used_bytes = 0;
  free_bytes = 0;
  free_blocks = 0;
  used_blocks = 0;
  largest_free_block = 0;
}

unfoldable pub count_block : Stats → Block → Stats
count_block s b =
    if b.free
    then record s {
      free_blocks = add32 s.free_blocks 1;
      free_bytes = add32 s.free_bytes b.size;
      largest_free_block = if ltb s.largest_free_block b.size then b.size else s.largest_free_block;
    }
    else record s { used_blocks = add32 s.used_blocks 1; used_bytes = add32 s.used_bytes b.size }

unfoldable pub count_blocks : Stats → List Block → Stats
count_blocks s [] = s
count_blocks s (b ∷ bs) = count_blocks (count_block s b) bs

unfoldable pub heap_get_stats : Heap → Stats
heap_get_stats h =
    if not h.ready
    then no_stats
    else count_blocks
        (record no_stats {
          heap_start = h.start;
          heap_end = h.end;
          total_bytes = sub32 h.end h.start;
        })
        h.blocks
