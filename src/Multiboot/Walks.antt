-- ===== src/Multiboot/Walks.antt =====
-- When the walks over the multiboot information end, and what holds of their results.
use ronin_os.Base.{
  ℕ, zero, suc, ◌+◌, ◌-◌, ◌^◌, ◌≤◌, ◌<◌, ◌≡◌, refl, ◌≢◌, subst, not, ◌||◌, Option, some, arith,
  ◌==◌, leb, ltb, Bool-cases, Option-cases, inl, inr, add32,
}
use ronin_os.Base.Bits.{bit_and_eights}
use ronin_os.Multiboot.{Bytes, tag_type, tag_size, tag_type_end, tag_end, walk_tags, walk_entries}

-- What every round keeps, the result keeps.
pub walk_entries-keeps :
    {A : Type 0} (P : A → Type 0) (f : A → ℕ → A)
    → ((a : A) (e : ℕ) → P a → P (f a e))
    → (rounds size lim ptr : ℕ) (a : A) {r : A} → P a
    → walk_entries rounds f size lim ptr a ≡ some r
    → P r
unfolding walk_entries
walk_entries-keeps P f keep zero size lim ptr a h e = cc
walk_entries-keeps P f keep (suc rounds) size lim ptr a {r} h e =
    elim (Bool-cases (leb (add32 ptr size) lim)) [
      | inl more ↦
          walk_entries-keeps P f keep rounds size lim (add32 ptr size) (f a ptr) (keep a ptr h)
            (rw more at e)
      | inr done ↦ subst P (let k = rw done at e in cc) h
    ]

pub walk_tags-keeps :
    {A : Type 0} (P : A → Type 0) (m : Bytes) (f : A → ℕ → Option A)
    → ((a b : A) (t : ℕ) → P a → f a t ≡ some b → P b)
    → (rounds tag end : ℕ) (a : A) {r : A} → P a
    → walk_tags rounds m f tag end a ≡ some r
    → P r
unfolding walk_tags
walk_tags-keeps P m f keep zero tag end a h e = cc
walk_tags-keeps {A} P m f keep (suc rounds) tag end a {r} h e =
    elim (Bool-cases (not (ltb tag end) || tag_type m tag == tag_type_end)) [
      | inl done ↦ subst P (let k = rw done at e in cc) h
      | inr more ↦
          let k = rw more at e in
          elim (Option-cases (f a tag)) [
            | inl n ↦ absurd (let q = rw n at k in cc)
            | inr (b, s) ↦
                walk_tags-keeps P m f keep rounds (tag_end m tag) end b (keep a b tag h s)
                  (rw s at k)
          ]
    ]

-- The entries of a map end if they have a size: a round for each byte up to the limit is enough.
pub walk_entries-ends :
    {A : Type 0} (f : A → ℕ → A) (rounds size lim ptr : ℕ) (a : A)
    → 0 < size
    → lim + size < 2 ^ 32
    → ptr ≤ lim
    → lim - ptr < rounds
    → (r : A) × (walk_entries rounds f size lim ptr a ≡ some r)
unfolding walk_entries
walk_entries-ends f zero size lim ptr a p l h k = absurd (omega arith)
walk_entries-ends f (suc rounds) size lim ptr a p l h k =
    elim (Bool-cases (leb (add32 ptr size) lim)) [
      | inl more ↦
          let (r, e) =
            walk_entries-ends f rounds size lim (add32 ptr size) (f a ptr) p l (ground arith)
              (ground arith) in
          (r, rw more e)
      | inr done ↦ (a, rw done refl)
    ]

-- The tags that a walk from `tag` up to `end` comes to.
pub data Reached (m : Bytes) (end : ℕ) : ℕ → ℕ → Type 0 where
  here : {t : ℕ} → Reached m end t t
  after :
      {t u : ℕ}
      → t < end
      → tag_type m t ≢ tag_type_end
      → Reached m end (tag_end m t) u
      → Reached m end t u

-- These tags are at least as long as their header and do not wrap.
abbrev pub Tagged : Bytes → (end tag : ℕ) → Type 0
Tagged m end tag =
    (t : ℕ)
    → Reached m end tag t
    → t < end
    → tag_type m t ≢ tag_type_end
    → (8 ≤ tag_size m t) × (t + tag_size m t + 8 ≤ 2 ^ 32)

tag_end-gt :
    (m : Bytes) (t : ℕ) → 8 ≤ tag_size m t → t + tag_size m t + 8 ≤ 2 ^ 32 → t + 8 ≤ tag_end m t
unfolding tag_end
tag_end-gt m t l h = omega (arith, bit_and_eights (add32 (tag_size m t) 7) (omega arith))

-- The walk over the tags ends if its body does, on the tags that it comes to, and these are well
-- formed: a round for each byte up to the end, and one more, is enough.
pub walk_tags-ends :
    {A : Type 0} (m : Bytes) (f : A → ℕ → Option A) (rounds tag end : ℕ) (a : A)
    → ((a : A) (t : ℕ) → Reached m end tag t → t < end → (b : A) × (f a t ≡ some b))
    → Tagged m end tag
    → end - tag < rounds
    → (r : A) × (walk_tags rounds m f tag end a ≡ some r)
unfolding walk_tags
walk_tags-ends m f zero tag end a body tagged l = absurd (omega arith)
walk_tags-ends m f (suc rounds) tag end a body tagged l =
    elim (Bool-cases (not (ltb tag end) || tag_type m tag == tag_type_end)) [
      | inl done ↦ (a, rw done refl)
      | inr more ↦
          let inside : tag < end = ground arith in
          let other : tag_type m tag ≢ tag_type_end = ground arith in
          let (b, e) = body a tag here inside in
          let t = tagged tag here inside other in
          let (r, q) =
            walk_tags-ends m f rounds (tag_end m tag) end b
              (λ c u h. body c u (after inside other h)) (λ u h. tagged u (after inside other h))
              (omega (arith, tag_end-gt m tag t.0 t.1)) in
          (r, rw more (rw e q))
    ]
