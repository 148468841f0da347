-- ===== src/Pmm/Kept.antt =====
-- What the walks of pmm_init of kernel/mem/pmm.c keep: a well-formed allocator, and frames in use.
use ronin_os.Base.{
  ℕ, zero, suc, ◌+◌, ◌*◌, ◌%◌, ◌^◌, ◌≤◌, ◌<◌, ◌≡◌, refl, ◌∙◌, sym, subst, true, ◌||◌, some, arith,
  ◌==◌, ltb, if◌then◌else◌, Bool-cases, if_both, inl, inr, add32, mul32,
}
use ronin_os.Base.Bits.{bit, bit-complement, bit-zero, bit_and_pages}
use ronin_os.Multiboot.{
  Bytes, tag_type, tag_type_mmap, tag_type_module, tag_type_framebuffer, mmap_type_available,
  mod_start, mod_end, framebuffer_addr, framebuffer_pitch, framebuffer_height, entry_type,
}
use ronin_os.Multiboot.Walks.{walk_entries-keeps}
use ronin_os.Pmm.{Pmm, align_down, is_set, reserve_range}
use ronin_os.Pmm.Bitmap.{is_set-bit, count_free}
use ronin_os.Pmm.Ranges.{IsValid, IsSame, touches, reserve_range-Marked, free_range-Marked}
use ronin_os.Pmm.Init.{free_entry, free_tag, reserve_tag, all_used}

all_set : (j : ℕ) → is_set (λ i. 0xffff_ffff) j ≡ true
all_set j =
    let ones : bit (j % 32) 0xffff_ffff ≡ 1 =
      bit-complement 32 (j % 32) 0 (omega arith) (omega arith) ∙ omega (arith, bit-zero (j % 32)) in
    is_set-bit (λ i. 0xffff_ffff) j ∙ rw ones refl

none_free : (b : ℕ → ℕ) (n : ℕ) → ((j : ℕ) → is_set b j ≡ true) → count_free b n ≡ 0
none_free b zero h = refl
none_free b (suc n) h = rw (h n) (omega (arith, none_free b n h))

pub all_used-IsValid : (highest : ℕ) → IsValid (all_used highest)
unfolding all_used align_down
all_used-IsValid highest =
    let limit = if highest == 0 || ltb 0x2000_0000 highest then 0x2000_0000 else highest in
    let l : limit ≤ 0x2000_0000 = ground arith in
    let d = bit_and_pages limit (omega arith) in
    record {
      words = λ i. omega arith;
      total_in = omega arith;
      max_is = omega arith;
      free_is = sym (none_free (λ i. 0xffff_ffff) _ all_set);
      used_is = omega arith;
    }

free_entry-IsValid : (m : Bytes) (p : Pmm) (e : ℕ) → IsValid p → IsValid (free_entry m p e)
unfolding free_entry
free_entry-IsValid m p e v =
    if_both IsValid (entry_type m e == mmap_type_available) (free_range-Marked p _ _ v).valid v

pub free_tag-IsValid :
    (rounds : ℕ) (m : Bytes) (p q : Pmm) (tag : ℕ)
    → IsValid p
    → free_tag rounds m p tag ≡ some q
    → IsValid q
unfolding free_tag
free_tag-IsValid rounds m p q tag v e = elim (Bool-cases (tag_type m tag == tag_type_mmap)) [
  | inl t ↦
      walk_entries-keeps IsValid (free_entry m) (free_entry-IsValid m) rounds _ _ _ p v (rw t at e)
  | inr t ↦ subst IsValid (let k = rw t at e in cc) v
]

-- `q` comes from `p` by reserving: no frame in use is given up.
pub record IsMore (p q : Pmm) : Type 0 where
  pub valid : IsValid q
  pub same : IsSame p q
  pub kept : (j : ℕ) → is_set p.bitmap j ≡ true → is_set q.bitmap j ≡ true

pub IsMore-refl : (p : Pmm) → IsValid p → IsMore p p
IsMore-refl p v = record {
  valid = v;
  same = record { total_frames = refl; max_addr = refl; ready = refl; managed_bytes = refl };
  kept = λ j h. h;
}

pub IsMore-range : (p q : Pmm) (start end : ℕ) → IsMore p q → IsMore p (reserve_range q start end)
IsMore-range p q start end h =
    let r = reserve_range-Marked q start end h.valid in
    record {
      valid = r.valid;
      same = record {
        total_frames = r.same.total_frames ∙ h.same.total_frames;
        max_addr = r.same.max_addr ∙ h.same.max_addr;
        ready = r.same.ready ∙ h.same.ready;
        managed_bytes = r.same.managed_bytes ∙ h.same.managed_bytes;
      };
      kept = λ j k. r.marks j ∙ if_both (λ x. x ≡ true) (touches q start end j) refl (h.kept j k);
    }

pub reserve_tag-IsMore :
    (m : Bytes) (p q q' : Pmm) (tag : ℕ) → IsMore p q → reserve_tag m q tag ≡ some q' → IsMore p q'
unfolding reserve_tag
reserve_tag-IsMore m p q q' tag h e = elim (Bool-cases (tag_type m tag == tag_type_module)) [
  | inl t ↦
      subst (IsMore p) (let k = rw t at e in cc)
        (IsMore-range p q (mod_start m tag) (mod_end m tag) h)
  | inr t ↦
      let k = rw t at e in
      elim (Bool-cases (tag_type m tag == tag_type_framebuffer)) [
        | inl f ↦
            let start = framebuffer_addr m tag % 2 ^ 32 in
            let end = add32 start (mul32 (framebuffer_pitch m tag) (framebuffer_height m tag)) in
            let same : reserve_range q start end ≡ q' = (let w = rw f at k in cc) in
            subst (IsMore p) same (IsMore-range p q start end h)
        | inr f ↦ subst (IsMore p) (let w = rw f at k in cc) h
      ]
]

-- Every frame that the range touches is in use.
abbrev pub InUse : Pmm → (start end : ℕ) → Type 0
InUse p start end =
    (j : ℕ)
    → start < end
    → j * 4096 < end
    → start < j * 4096 + 4096
    → j < p.total_frames
    → is_set p.bitmap j ≡ true

pub reserve_range-InUse :
    (p : Pmm) (start end : ℕ) → IsValid p → InUse (reserve_range p start end) start end
reserve_range-InUse p start end v j a b c d =
    let h = reserve_range-Marked p start end v in
    let t : touches p start end j ≡ true = (let q = h.same.total_frames in ground arith) in
    h.marks j ∙ rw t refl

pub InUse-IsMore : (p q : Pmm) (start end : ℕ) → IsMore p q → InUse p start end → InUse q start end
InUse-IsMore p q start end h u j a b c d =
    h.kept j (u j a b c (let e = h.same.total_frames in omega arith))
