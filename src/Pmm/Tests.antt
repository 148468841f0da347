-- ===== src/Pmm/Tests.antt =====
-- The frame allocator on 64 frames, and on the memory map of a machine with 32 MB.
use ronin_os.Base.{
  ℕ, ◌+◌, ◌/◌, ◌%◌, ◌^◌, ◌≤◌, ◌<◌, ◌≡◌, refl, ◌≢◌, ap, sym, subst, true, false, some, ◌⊎◌, arith,
  ◌==◌, if◌then◌else◌, if_both, inl, inr,
}
use ronin_os.Multiboot.{
  Bytes, read32, read64, tag_end, bootloader_magic, tag_type, tag_size, entry_size, walk_tags,
}
use ronin_os.Multiboot.Walks.{Reached, here, after, walk_tags-ends}
use ronin_os.Pmm.{Pmm, is_set, alloc_words, alloc_bits, pmm_alloc_frame, pmm_free_frame}
use ronin_os.Pmm.Ranges.{IsValid, touches}
use ronin_os.Pmm.Alloc.{Allocation, Given, pmm_alloc_frame-Allocation, pmm_free_frame-Given}
use ronin_os.Pmm.Init.{started, pmm_init, free_entry}
use ronin_os.Pmm.Boot.{WellFormed, Booted, pmm_init-Booted, free_entry-truncates}

-- Frame 0 is in use.
abbrev small : Pmm
small = record {
  bitmap = λ i. if i == 0 then 1 else 0;
  max_addr = 0x4_0000;
  total_frames = 64;
  free_frames = 63;
  used_frames = 1;
  managed_bytes = 0x4_0000;
  ready = true;
}

small-IsValid : IsValid small
unfolding is_set
small-IsValid = record {
  words = λ i. if_both (λ x. x < 2 ^ 32) (i == 0) (omega arith) (omega arith);
  total_in = omega arith;
  max_is = refl;
  free_is = refl;
  used_is = refl;
}

-- The first free frame is 1.
small_alloc : (pmm_alloc_frame small).1 ≡ 0x1000
unfolding pmm_alloc_frame alloc_words alloc_bits
small_alloc = refl

pmm_alloc_frame-Allocation_example : Allocation small (pmm_alloc_frame small)
pmm_alloc_frame-Allocation_example = pmm_alloc_frame-Allocation small small-IsValid refl

pmm_free_frame-Given_example :
    (small.ready ≡ true
      → 0x3000 % 4096 ≡ 0
      → 0x3000 / 4096 < 64
      → Given small (pmm_free_frame small 0x3000) 3)
    × (small.ready ≡ false → pmm_free_frame small 0x3000 ≡ small)
    × (0x3000 % 4096 ≢ 0 → pmm_free_frame small 0x3000 ≡ small)
    × (64 ≤ 0x3000 / 4096 → pmm_free_frame small 0x3000 ≡ small)
pmm_free_frame-Given_example = pmm_free_frame-Given small 0x3000 small-IsValid (omega arith)

-- Information of 56 bytes at 256: a memory map with one entry, 32 MB from address 0, and the end.
abbrev information : Bytes
information a =
    if a == 0x100
    then 56
    else if a == 0x108
    then 6
    else if a == 0x10c
    then 40
    else if a == 0x110
    then 24
    else if a == 0x123
    then 2
    else if a == 0x128
    then 1
    else if a == 0x134
    then 8
    else 0

two_tags_from :
    (a t : ℕ)
    → Reached information 0x130 a t
    → (a ≡ 0x108) ⊎ (a ≡ 0x130)
    → (t ≡ 0x108) ⊎ (t ≡ 0x130)
unfolding read32 tag_end
two_tags_from a t here e = e
two_tags_from a t (after l n r) (inl e) = two_tags_from _ t r (inr (ap (tag_end information) e))
two_tags_from a t (after l n r) (inr e) = absurd (n (ap (read32 information) e))

information-WellFormed : WellFormed information 0x100
unfolding read32
information-WellFormed = record {
  present = omega arith;
  tagged = λ t r l n. elim (two_tags_from 0x108 t r (inl refl)) [
    | inl e ↦
        subst (λ u. (8 ≤ tag_size information u) × (u + tag_size information u + 8 ≤ 2 ^ 32))
          (sym e) (omega arith, omega arith)
    | inr e ↦ absurd (n (ap (read32 information) e))
  ];
  maps = λ t r l n. elim (two_tags_from 0x108 t r (inl refl)) [
    | inl e ↦
        subst
          (λ u.
            (0 < entry_size information u)
            × (16 ≤ tag_size information u)
            × (u + tag_size information u + entry_size information u < 2 ^ 32))
          (sym e) (omega arith, omega arith, omega arith)
    | inr e ↦ absurd (omega (arith, n, ap (tag_type information) e))
  ];
}

pmm_init-Booted_example :
    (p : Pmm) × (pmm_init (2 ^ 32) information 0x10_0000 0x20_0000 bootloader_magic 0x100
      ≡ started p)
    × Booted information 0x10_0000 0x20_0000 0x100 p
pmm_init-Booted_example =
    pmm_init-Booted (2 ^ 32) information 0x10_0000 0x20_0000 0x100 information-WellFormed
      (omega arith)

-- An entry of 4096 available bytes at 4 GB + 8192.
abbrev above : Bytes
above a =
    if a == 1 then 0x20 else if a == 4 then 1 else if a == 9 then 0x10 else if a == 16 then 1 else 0

free_entry-truncates_instance :
    is_set (free_entry above small 0).bitmap 2
    ≡ (if touches small 0x2000 0x3000 2 then false else is_set small.bitmap 2)
unfolding read32 read64
free_entry-truncates_instance =
    free_entry-truncates above small 0 1 0x2000 small-IsValid refl refl (omega arith) (omega arith)
      2

walk_tags-ends_example :
    (n : ℕ) × (walk_tags 64 information (λ n t. some (n + 1)) 0x108 0x130 0 ≡ some n)
unfolding read32
walk_tags-ends_example =
    walk_tags-ends information (λ n t. some (n + 1)) 64 0x108 0x130 0 (λ n t r l. (n + 1, refl))
      information-WellFormed.tagged (omega arith)
