-- ===== src/Fat32/Directory.antt =====
-- The entries of the root directory in kernel/fs/fat32.c: names, and the walks that find an entry that
-- has been put in its place.
use native.Mathlib.Decide.{ℕ_discrete}
use ronin_os.Base.{
  ℕ, zero, suc, ◌+◌, ◌≤◌, ◌<◌, ◌≡◌, ◌≢◌, refl, sym, ◌∙◌, ap, subst, ◌⊎◌, inl, inr, if_both,
  if_cases, Bool, Bool-cases, true, false, not, ◌||◌, Option, none, some, List, [], ◌∷◌, ltb, arith,
  ◌==◌,
}
use ronin_os.Fat32.{Sector}
use ronin_os.Fat32.Bytes.{put8}
use ronin_os.Fat32.Names.{to_upper, is_name_char, set_at, name83_loop, make_name83}
use ronin_os.Fat32.Table.{same_name, is_skipped, find_loop}
use ronin_os.Fat32.Files.{slot_loop, put_entry}
use ronin_os.Fat32.Words.{put_entry_ne, put_entry-name, put_entry-attr}

-- What holds of a name, if there is one.
abbrev Of : ((ℕ → ℕ) → Type 0) → Option (ℕ → ℕ) → Type 0
Of P none = Unit
Of P (some n) = P n

-- A character that has been stored stays.
name83_loop-first :
    (cs : List ℕ) (out : ℕ → ℕ) (pos : ℕ) → 0 < pos → Of (λ n. n 0 ≡ out 0) (name83_loop cs out pos)
unfolding name83_loop
name83_loop-first [] out pos l = refl
name83_loop-first (c ∷ cs) out pos l =
    let kept : set_at out pos (to_upper c) 0 ≡ out 0 = ground arith in
    let stored = name83_loop-first cs (set_at out pos (to_upper c)) (pos + 1) (omega arith) in
    let after = name83_loop cs (set_at out pos (to_upper c)) (pos + 1) in
    if_both (Of (λ n. n 0 ≡ out 0)) (c == 46)
      (if_both (Of (λ n. n 0 ≡ out 0)) (pos == 0 || ltb 8 pos) tt
        (name83_loop-first cs out 8 (omega arith)))
      (if_both (Of (λ n. n 0 ≡ out 0)) (not (is_name_char (to_upper c))) tt (
        if_both (Of (λ n. n 0 ≡ out 0)) (ltb pos 11)
          (subst (λ v. Of (λ n. n 0 ≡ v) after) kept stored) tt))

-- The name of an entry starts with a capital, a digit or `_`.
make_name83_first :
    (name : Option (List ℕ)) → Of (λ n. is_name_char (n 0) ≡ true) (make_name83 name)
unfolding make_name83 name83_loop
make_name83_first none = tt
make_name83_first (some []) = tt
make_name83_first (some (c ∷ cs)) = if_both (Of (λ n. is_name_char (n 0) ≡ true)) (c == 46) tt (
    if_cases (Of (λ n. is_name_char (n 0) ≡ true)) (not (is_name_char (to_upper c))) (λ e. tt)
      (λ e.
        weaken e (name83_loop cs (set_at (λ i. 32) 0 (to_upper c)) 1)
          (name83_loop-first cs (set_at (λ i. 32) 0 (to_upper c)) 1 (omega arith))))
  where
    not_false : (b : Bool) → not b ≡ false → b ≡ true
    not_false true e = refl
    not_false false e = cc

    weaken :
        not (is_name_char (to_upper c)) ≡ false
        → (o : Option (ℕ → ℕ)) → Of (λ n. n 0 ≡ to_upper c) o
        → Of (λ n. is_name_char (n 0) ≡ true) o
    weaken e none h = tt
    weaken e (some n) h = ap is_name_char h ∙ not_false (is_name_char (to_upper c)) e

pub make_name83-first :
    (name : Option (List ℕ)) (n : ℕ → ℕ) → make_name83 name ≡ some n → is_name_char (n 0) ≡ true
make_name83-first name n e = subst (Of (λ n. is_name_char (n 0) ≡ true)) e (make_name83_first name)

same_name-frame :
    (rounds : ℕ) (p q : Sector) (i : ℕ) (name : ℕ → ℕ) (k : ℕ)
    → ((j : ℕ) → i + k ≤ j → j < i + k + rounds → q j ≡ p j)
    → same_name rounds q i name k ≡ same_name rounds p i name k
unfolding same_name
same_name-frame zero p q i name k h = refl
same_name-frame (suc rounds) p q i name k h =
    rw (h (i + k) (omega arith) (omega arith)) (
      rw (same_name-frame rounds p q i name (k + 1) (λ j a b. h j (omega arith) (omega arith)))
        refl)

same_name-all :
    (rounds : ℕ) (q : Sector) (i : ℕ) (name : ℕ → ℕ) (k : ℕ)
    → ((j : ℕ) → j < k + rounds → q (i + j) ≡ name j)
    → same_name rounds q i name k ≡ true
unfolding same_name
same_name-all zero q i name k h = refl
same_name-all (suc rounds) q i name k h =
    ground
      (arith, h k (omega arith), same_name-all rounds q i name (k + 1) (λ j l. h j (omega arith)))

-- The sector `q` is `sec` up to `off`, where it has an entry of the name that is in use.
pub record Placed (sec q : Sector) (off : ℕ) (name : ℕ → ℕ) : Type 0 where
  pub before : (j : ℕ) → j < off → q j ≡ sec j
  pub live : (q off == 0) ≡ false
  pub seen : is_skipped q off ≡ false
  pub named : same_name 11 q off name 0 ≡ true

pub put_entry-Placed :
    (sec : Sector) (off : ℕ) (name : ℕ → ℕ) (cluster len : ℕ)
    → is_name_char (name 0) ≡ true
    → Placed sec (put_entry sec off name cluster len) off name
put_entry-Placed sec off name cluster len h =
    let first : put_entry sec off name cluster len off ≡ name 0 =
      ap (put_entry sec off name cluster len) (omega arith)
      ∙ put_entry-name sec off name cluster len 0 (omega arith) in
    record {
      before = λ j l. put_entry_ne sec off name cluster len j (inl l);
      live = ground (arith, first);
      seen = ground (arith, first, put_entry-attr sec off name cluster len);
      named =
          same_name-all 11 _ off name 0
            (λ j l. put_entry-name sec off name cluster len j (omega arith));
    }

find_loop-ge :
    (rounds : ℕ) (sec : Sector) (name : ℕ → ℕ) (i off : ℕ)
    → find_loop rounds sec name i ≡ some off
    → i ≤ off
unfolding find_loop
find_loop-ge zero sec name i off h = cc
find_loop-ge (suc rounds) sec name i off h =
    ground (arith, find_loop-ge rounds sec name (i + 32) off)

slot_loop-ge : (rounds : ℕ) (sec : Sector) (i off : ℕ) → slot_loop rounds sec i ≡ some off → i ≤ off
unfolding slot_loop
slot_loop-ge zero sec i off h = cc
slot_loop-ge (suc rounds) sec i off h = ground (arith, slot_loop-ge rounds sec (i + 32) off)

module _ (sec q : Sector) (off : ℕ) (name : ℕ → ℕ) (p : Placed sec q off name) where
  find_loop-here : (rounds : ℕ) → find_loop (suc rounds) q name off ≡ some off
  unfolding find_loop
  find_loop-here rounds = rw (p.live, p.seen, p.named) refl

  -- An entry that is passed over in `sec` is passed over in `q`.
  find_loop-past :
      (rounds i : ℕ)
      → i + 32 ≤ off
      → find_loop rounds q name (i + 32) ≡ some off
      → (sec i == 0) ≡ false
      → (is_skipped sec i ≡ true) ⊎ (same_name 11 sec i name 0 ≡ false)
      → find_loop (suc rounds) q name i ≡ some off
  unfolding find_loop
  find_loop-past rounds i l rest live h = ground (
    arith,
    p.before i,
    p.before (i + 11),
    same_name-frame 11 sec q i name 0 (λ j a b. p.before j (omega arith)),
  )

  -- The walk for the name ends at the entry, if it did in `sec`.
  pub find_loop-again :
      (rounds i : ℕ) → find_loop rounds sec name i ≡ some off → find_loop rounds q name i ≡ some off
  unfolding find_loop
  find_loop-again zero i h = cc
  find_loop-again (suc rounds) i h = elim (ℕ_discrete i off) [
    | yes same ↦
        subst (λ x. find_loop (suc rounds) q name x ≡ some off) (sym same) (find_loop-here rounds)
    | no other ↦
        find_loop-past rounds i (ground (arith, find_loop-ge rounds sec name (i + 32) off))
          (find_loop-again rounds (i + 32) (ground arith)) (ground arith)
          (elim (Bool-cases (is_skipped sec i)) [ inl e ↦ inl e | inr e ↦ inr (ground arith) ])
  ]

  -- Nor does it end before a free place, if there is no entry of the name in `sec`.
  pub find_loop-slot :
      (rounds i : ℕ)
      → find_loop rounds sec name i ≡ none
      → slot_loop rounds sec i ≡ some off
      → find_loop rounds q name i ≡ some off
  unfolding find_loop slot_loop
  find_loop-slot zero i f h = cc
  find_loop-slot (suc rounds) i f h = elim (ℕ_discrete i off) [
    | yes same ↦
        subst (λ x. find_loop (suc rounds) q name x ≡ some off) (sym same) (find_loop-here rounds)
    | no other ↦
        find_loop-past rounds i (ground (arith, slot_loop-ge rounds sec (i + 32) off))
          (find_loop-slot rounds (i + 32) (ground arith) (ground arith)) (ground arith)
          (elim (Bool-cases (is_skipped sec i)) [ inl e ↦ inl e | inr e ↦ inr (ground arith) ])
  ]

-- The walk over a sector in which the entry that it ended at is deleted: it goes on behind this entry.
module _ (sec : Sector) (off : ℕ) (name : ℕ → ℕ) where
  same_past : (j : ℕ) → j ≢ off → put8 sec off 0xe5 j ≡ sec j
  same_past j n = ground arith

  pub find_loop-behind :
      (rounds i : ℕ)
      → off < i
      → find_loop rounds (put8 sec off 0xe5) name i ≡ find_loop rounds sec name i
  unfolding find_loop
  find_loop-behind zero i l = refl
  find_loop-behind (suc rounds) i l = ground (
    arith,
    same_past i,
    same_past (i + 11),
    same_name-frame 11 sec (put8 sec off 0xe5) i name 0
        (λ j a b. same_past j (λ e. absurd (omega arith))),
    find_loop-behind rounds (i + 32) (omega arith),
  )

  pub find_loop-deleted :
      (rounds i : ℕ)
      → find_loop rounds sec name i ≡ some off
      → (rest : ℕ) × (find_loop rounds (put8 sec off 0xe5) name i
          ≡ find_loop rest sec name (off + 32))
  unfolding find_loop
  find_loop-deleted zero i h = cc
  find_loop-deleted (suc rounds) i h = elim (ℕ_discrete i off) [
    | yes same ↦
        subst
          (λ x.
            (rest : ℕ) × (find_loop (suc rounds) (put8 sec off 0xe5) name x
              ≡ find_loop rest sec name (off + 32)))
          (sym same) (rounds, ground (arith, find_loop-behind rounds (off + 32) (omega arith)))
    | no other ↦
        let later : find_loop rounds sec name (i + 32) ≡ some off = ground arith in
        let ih = find_loop-deleted rounds (i + 32) later in
        (ih.0, past rounds i other (find_loop-ge rounds sec name (i + 32) off later) h ∙ ih.1)
  ]
    where
      past :
          (rounds i : ℕ)
          → i ≢ off
          → i + 32 ≤ off
          → find_loop (suc rounds) sec name i ≡ some off
          → find_loop (suc rounds) (put8 sec off 0xe5) name i
            ≡ find_loop rounds (put8 sec off 0xe5) name (i + 32)
      past rounds i n l h = ground (
        arith,
        same_past i,
        same_past (i + 11),
        same_name-frame 11 sec (put8 sec off 0xe5) i name 0
            (λ j a b. same_past j (λ e. absurd (omega arith))),
      )
