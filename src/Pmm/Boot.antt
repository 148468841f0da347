-- ===== src/Pmm/Boot.antt =====
-- What pmm_init of kernel/mem/pmm.c promises.
use ronin_os.Base.{
  ℕ, ◌+◌, ◌-◌, ◌*◌, ◌%◌, ◌^◌, ◌≤◌, ◌<◌, ◌≡◌, refl, ◌≢◌, true, false, some, arith, ◌==◌, ==_iff, ltb,
  if◌then◌else◌, Bool-cases, inl, inr, add32, sub32, mul32,
}
use ronin_os.Multiboot.{
  Bytes, bootloader_magic, total_size, tag_type, tag_size, tag_type_mmap, tag_type_module,
  tag_type_framebuffer, tag_type_basic_meminfo, mmap_type_available, mod_start, mod_end, mem_upper,
  framebuffer_addr, framebuffer_pitch, framebuffer_height, entry_size, entries, entry_addr,
  entry_len, entry_type,
}
use ronin_os.Multiboot.Walks.{walk_tags-keeps, walk_entries-ends, walk_tags-ends, Reached, Tagged}
use ronin_os.Pmm.{Pmm, is_set, reserve_range}
use ronin_os.Pmm.Ranges.{IsValid, touches, reserve_range-Marked, free_range-Marked}
use ronin_os.Pmm.Init.{
  entry_end, for_entries, highest_of_entry, highest_of_tag, free_entry, free_tag, reserve_tag,
  all_used, started, reserve_fixed, pmm_init,
}
use ronin_os.Pmm.Kept.{
  all_used-IsValid, free_tag-IsValid, IsMore, IsMore-refl, IsMore-range, reserve_tag-IsMore, InUse,
  reserve_range-InUse, InUse-IsMore,
}

-- The allocator that pmm_init leaves: ready and well-formed, with the first megabyte, the kernel and
-- the multiboot information in use.
pub record Booted (m : Bytes) (kernel_start kernel_end info : ℕ) (p : Pmm) : Type 0 where
  pub ready : p.ready ≡ true
  pub valid : IsValid p
  pub low : InUse p 0 0x10_0000
  pub kernel : InUse p kernel_start kernel_end
  pub information : InUse p info (add32 info (total_size m info))

reserve_fixed-InUse :
    (m : Bytes) (ks ke info : ℕ) (p : Pmm)
    → IsValid p
    → let q = reserve_fixed m ks ke info p in
      IsValid q
      × InUse q 0 0x10_0000
      × InUse q ks ke
      × InUse q info (add32 info (total_size m info))
unfolding reserve_fixed
reserve_fixed-InUse m ks ke info p v =
    let p1 = reserve_range p 0 0x10_0000 in
    let v1 = (reserve_range-Marked p 0 0x10_0000 v).valid in
    let p2 = reserve_range p1 ks ke in
    let v2 = (reserve_range-Marked p1 ks ke v1).valid in
    let end = add32 info (total_size m info) in
    let m2 = IsMore-range p1 p1 ks ke (IsMore-refl p1 v1) in
    let m3 = IsMore-range p2 p2 info end (IsMore-refl p2 v2) in
    (
      m3.valid,
      InUse-IsMore p2 _ 0 0x10_0000 m3
          (InUse-IsMore p1 p2 0 0x10_0000 m2 (reserve_range-InUse p 0 0x10_0000 v)),
      InUse-IsMore p2 _ ks ke m3 (reserve_range-InUse p1 ks ke v1),
      reserve_range-InUse p2 info end v2,
    )

-- `tag` is a tag that the walks over the information come to.
abbrev pub IsTag : Bytes → (info tag : ℕ) → Type 0
IsTag m info tag = Reached m (sub32 (add32 info (total_size m info)) 8) (add32 info 8) tag

-- The information is well-formed: its tags are, and the tags of memory maps hold entries of some size.
pub record WellFormed (m : Bytes) (info : ℕ) : Type 0 where
  pub present : info ≢ 0
  pub tagged : Tagged m (sub32 (add32 info (total_size m info)) 8) (add32 info 8)
  pub maps :
      (t : ℕ)
      → IsTag m info t
      → t < sub32 (add32 info (total_size m info)) 8
      → tag_type m t ≡ tag_type_mmap
      → (0 < entry_size m t) × (16 ≤ tag_size m t) × (t + tag_size m t + entry_size m t < 2 ^ 32)

for_entries-ends :
    {A : Type 0} (rounds : ℕ) (m : Bytes) (f : A → ℕ → A) (a : A) (t : ℕ)
    → 2 ^ 32 ≤ rounds
    → (0 < entry_size m t) × (16 ≤ tag_size m t) × (t + tag_size m t + entry_size m t < 2 ^ 32)
    → (b : A) × (for_entries rounds m f a t ≡ some b)
for_entries-ends rounds m f a t r h =
    walk_entries-ends f rounds (entry_size m t) (add32 t (tag_size m t)) (entries t) a h.0
      (omega (arith, h.2)) (omega (arith, h.1, h.2)) (omega (arith, h.1, h.2))

highest_of_tag-ends :
    (rounds : ℕ) (m : Bytes) (info h t : ℕ)
    → WellFormed m info
    → 2 ^ 32 ≤ rounds
    → IsTag m info t
    → t < sub32 (add32 info (total_size m info)) 8
    → (b : ℕ) × (highest_of_tag rounds m h t ≡ some b)
unfolding highest_of_tag
highest_of_tag-ends rounds m info h t w r i l = elim (Bool-cases (tag_type m t == tag_type_mmap)) [
  | inl e ↦
      let (b, q) =
        for_entries-ends rounds m (highest_of_entry m) h t r
          (w.maps t i l ((==_iff (tag_type m t) 6).0 e)) in
      (b, rw e q)
  | inr e ↦ elim (Bool-cases (tag_type m t == tag_type_basic_meminfo)) [
    | inl f ↦
        let top = add32 0x10_0000 (mul32 (mem_upper m t) 1024) in
        (if ltb h top then top else h, rw e (rw f refl))
    | inr f ↦ (h, rw e (rw f refl))
  ]
]

free_tag-ends :
    (rounds : ℕ) (m : Bytes) (info : ℕ) (p : Pmm) (t : ℕ)
    → WellFormed m info
    → 2 ^ 32 ≤ rounds
    → IsTag m info t
    → t < sub32 (add32 info (total_size m info)) 8
    → (q : Pmm) × (free_tag rounds m p t ≡ some q)
unfolding free_tag
free_tag-ends rounds m info p t w r i l = elim (Bool-cases (tag_type m t == tag_type_mmap)) [
  | inl e ↦
      let (b, q) =
        for_entries-ends rounds m (free_entry m) p t r
          (w.maps t i l ((==_iff (tag_type m t) 6).0 e)) in
      (b, rw e q)
  | inr e ↦ (p, rw e refl)
]

reserve_tag-ends : (m : Bytes) (p : Pmm) (t : ℕ) → (q : Pmm) × (reserve_tag m p t ≡ some q)
unfolding reserve_tag
reserve_tag-ends m p t = elim (Bool-cases (tag_type m t == tag_type_module)) [
  | inl e ↦ (reserve_range p (mod_start m t) (mod_end m t), rw e refl)
  | inr e ↦ elim (Bool-cases (tag_type m t == tag_type_framebuffer)) [
    | inl f ↦
        let start = framebuffer_addr m t % 2 ^ 32 in
        (
          reserve_range p start
              (add32 start (mul32 (framebuffer_pitch m t) (framebuffer_height m t))),
          rw e (rw f refl),
        )
    | inr f ↦ (p, rw e (rw f refl))
  ]
]

set_ready-IsValid : (p : Pmm) → IsValid p → IsValid (record p { ready = true })
set_ready-IsValid p v = record {
  words = v.words;
  total_in = v.total_in;
  max_is = v.max_is;
  free_is = v.free_is;
  used_is = v.used_is;
}

-- pmm_init on well-formed multiboot information, with as many rounds for its walks as there are
-- addresses, starts the allocator: it is ready, its counters agree with its bitmap, and every frame of
-- the first megabyte, of the kernel and of the information itself is in use.
pub pmm_init-Booted :
    (rounds : ℕ) (m : Bytes) (ks ke info : ℕ)
    → WellFormed m info
    → 2 ^ 32 ≤ rounds
    → (p : Pmm) × (pmm_init rounds m ks ke bootloader_magic info ≡ started p)
      × Booted m ks ke info p
unfolding pmm_init
pmm_init-Booted rounds m ks ke info w r =
    let end = sub32 (add32 info (total_size m info)) 8 in
    let tags = add32 info 8 in
    let there : (info == 0) ≡ false = (let q = w.present in ground arith) in
    let fuel : end - tags < rounds = omega arith in
    let (highest, e1) =
      walk_tags-ends m (highest_of_tag rounds m) rounds tags end 0
        (λ h t i l. highest_of_tag-ends rounds m info h t w r i l) w.tagged fuel in
    let (p1, e2) =
      walk_tags-ends m (free_tag rounds m) rounds tags end (all_used highest)
        (λ p t i l. free_tag-ends rounds m info p t w r i l) w.tagged fuel in
    let v1 =
      walk_tags-keeps IsValid m (free_tag rounds m)
        (λ p q t v e. free_tag-IsValid rounds m p q t v e) rounds tags end (all_used highest)
        (all_used-IsValid highest) e2 in
    let p2 = reserve_fixed m ks ke info p1 in
    let u = reserve_fixed-InUse m ks ke info p1 v1 in
    let (p3, e3) =
      walk_tags-ends m (reserve_tag m) rounds tags end p2 (λ p t i l. reserve_tag-ends m p t)
        w.tagged fuel in
    let more =
      walk_tags-keeps (IsMore p2) m (reserve_tag m)
        (λ q q' t h e. reserve_tag-IsMore m p2 q q' t h e) rounds tags end p2 (IsMore-refl p2 u.0)
        e3 in
    (
      record p3 { ready = true },
      rw there (rw e1 (rw e2 (rw e3 refl))),
      record {
        ready = refl;
        valid = set_ready-IsValid p3 more.valid;
        low = InUse-IsMore p2 p3 0 0x10_0000 more u.1;
        kernel = InUse-IsMore p2 p3 ks ke more u.2;
        information = InUse-IsMore p2 p3 info (add32 info (total_size m info)) more u.3;
      },
    )

-- An available entry of the memory map at a multiple of 4 GB, of less than 4 GB, frees the frames of the
-- same offset from address 0, whatever the map says of them.
pub free_entry-truncates :
    (m : Bytes) (p : Pmm) (e k a : ℕ)
    → IsValid p
    → entry_type m e ≡ mmap_type_available
    → entry_addr m e ≡ k * 2 ^ 32 + a
    → k < 2 ^ 31
    → a + entry_len m e < 2 ^ 32
    → (j : ℕ)
    → is_set (free_entry m p e).bitmap j
      ≡ (if touches p a (a + entry_len m e) j then false else is_set p.bitmap j)
unfolding free_entry
free_entry-truncates m p e k a v t at k_in l j =
    let kind : (entry_type m e == mmap_type_available) ≡ true = (==_iff (entry_type m e) 1).1 t in
    let start : entry_addr m e % 2 ^ 32 ≡ a = omega arith in
    let end : entry_end m e % 2 ^ 32 ≡ a + entry_len m e = omega arith in
    rw (kind, start, end) ((free_range-Marked p a (a + entry_len m e) v).marks j)
