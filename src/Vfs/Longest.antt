-- ===== src/Vfs/Longest.antt =====
-- find_mount of kernel/fs/vfs.c.
use ronin_os.Base.{
  ℕ, zero, suc, ◌+◌, ◌≤◌, ◌<◌, ◌≡◌, refl, ap, subst, ◌∙◌, ◌⊎◌, [], ◌∷◌, ◌++◌, ==_self, Bool, true,
  false, ◌&&◌, Option, none, some, List, arith, ◌==◌, ==_iff, leb, length, Bool-cases, inl, inr,
  if_cases,
}
use ronin_os.Vfs.{Vfs, slash}
use ronin_os.Vfs.Mounts.{is_prefix, starts_with, subpath_of, find_mount_loop, find_mount}

module _ {W N : Type 0} (v : Vfs W N) (path : List ℕ) where
  -- The mount is in use and the path starts with its mount point, as starts_with decides it.
  abbrev pub covers : ℕ → Bool
  covers i = (v.mounts i).used && starts_with path (v.mounts i).mountpoint

  abbrev pub mount_len : ℕ → ℕ
  mount_len i = length (v.mounts i).mountpoint

  -- The best of the mounts below `n`.
  abbrev pub Best : ℕ → Option ℕ × ℕ → Type 0
  Best n (none, len) = (len ≡ 0) × ((j : ℕ) → j < n → covers j ≡ false)
  Best n (some i, len) =
      (len ≡ mount_len i)
      × (i < n)
      × (covers i ≡ true)
      × ((j : ℕ) → j < n → covers j ≡ true → mount_len j ≤ mount_len i)

  -- How find_mount answers, in terms of `covers`.
  data Answer (r : Option (ℕ × List ℕ)) : Type 0 where
    no_best : ((j : ℕ) → j < 4 → covers j ≡ false) → r ≡ none → Answer r
    chosen :
        (i : ℕ)
        → i < 4
        → covers i ≡ true
        → ((j : ℕ) → j < 4 → covers j ≡ true → mount_len j ≤ mount_len i)
        → r ≡ some (i, subpath_of path (mount_len i))
        → Answer r

  -- The mount is in use, and the path is its mount point, with nothing below, or goes on behind it with
  -- a slash and then `sub`. A mount at / so has of the normal paths only / itself.
  abbrev pub Covers : ℕ → List ℕ → Type 0
  Covers i sub =
      ((v.mounts i).used ≡ true)
      × (((path ≡ (v.mounts i).mountpoint) × (sub ≡ []))
          ⊎ (path ≡ (v.mounts i).mountpoint ++ slash ∷ sub))

  -- The mount of the path and the path below it.
  pub data Found (r : Option (ℕ × List ℕ)) : Type 0 where
    uncovered : ((j : ℕ) (sub : List ℕ) → j < 4 → ¬ Covers j sub) → r ≡ none → Found r
    covered :
        (i : ℕ) (sub : List ℕ)
        → i < 4
        → Covers i sub
        → ((j : ℕ) (sub' : List ℕ) → j < 4 → Covers j sub' → mount_len j ≤ mount_len i)
        → r ≡ some (i, sub)
        → Found r

-- What starts_with and the end of find_mount make of two texts.
starts_with_self : (b : List ℕ) → starts_with b b ≡ true
unfolding starts_with is_prefix
starts_with_self [] = refl
starts_with_self (x ∷ b) = rw (==_self x) (starts_with_self b)

starts_with_below : (b sub : List ℕ) → starts_with (b ++ slash ∷ sub) b ≡ true
unfolding starts_with is_prefix
starts_with_below [] sub = refl
starts_with_below (x ∷ b) sub = rw (==_self x) (starts_with_below b sub)

starts_with_cases :
    (a b : List ℕ)
    → starts_with a b ≡ true
    → ((a ≡ b) × (subpath_of a (length b) ≡ [])) ⊎ (a ≡ b ++ slash ∷ subpath_of a (length b))
unfolding starts_with is_prefix
starts_with_cases [] [] h = inl (refl, refl)
starts_with_cases (y ∷ a) [] h =
    let e : (y == slash) ≡ true = ground arith in
    let at : y ≡ slash = (==_iff y slash).0 e in inr (rw e (ap (λ k. k ∷ a) at))
starts_with_cases [] (x ∷ b) h = cc
starts_with_cases (y ∷ a) (x ∷ b) h =
    let e : (y == x) ≡ true = ground arith in
    let at : y ≡ x = (==_iff y x).0 e in
    let rest : starts_with a b ≡ true = ground arith in
    elim (starts_with_cases a b rest) [
      | inl (same, sub) ↦ inl (ap (λ k. k ∷ a) at ∙ ap (λ t. x ∷ t) same, sub)
      | inr below ↦ inr (ap (λ k. k ∷ a) at ∙ ap (λ t. x ∷ t) below)
    ]

module _ {W N : Type 0} (v : Vfs W N) (path : List ℕ) where
  covers_at : (i j : ℕ) (b : Bool) → (i == j) ≡ true → covers v path i ≡ b → covers v path j ≡ b
  covers_at i j b e h = subst (λ k. covers v path k ≡ b) ((==_iff i j).0 e) h

  taken :
      (i : ℕ) (b : Option ℕ) (len : ℕ)
      → covers v path i ≡ true
      → len ≤ mount_len v path i
      → Best v path i (b, len)
      → Best v path (i + 1) (some i, mount_len v path i)
  taken i none len c l (z, h) = (
    refl,
    omega arith,
    c,
    λ j a d. elim (Bool-cases (i == j)) [
      | inl e ↦ (let q = ap (mount_len v path) ((==_iff i j).0 e) in omega arith)
      | inr e ↦ (let k = h j (ground arith) in cc)
    ],
  )
  taken i (some k) len c l (z, a, b, h) = (
    refl,
    omega arith,
    c,
    λ j a d. elim (Bool-cases (i == j)) [
      | inl e ↦ (let q = ap (mount_len v path) ((==_iff i j).0 e) in omega arith)
      | inr e ↦ (let k = h j (ground arith) d in omega arith)
    ],
  )

  passed_uncovered :
      (i : ℕ) (b : Option ℕ) (len : ℕ)
      → covers v path i ≡ false
      → Best v path i (b, len)
      → Best v path (i + 1) (b, len)
  passed_uncovered i none len c (z, h) = (
    z,
    λ j a. elim (Bool-cases (i == j)) [
      | inl e ↦ covers_at i j false e c
      | inr e ↦ h j (ground arith)
    ],
  )
  passed_uncovered i (some k) len c (z, a, b, h) = (
    z,
    omega arith,
    b,
    λ j a d. elim (Bool-cases (i == j)) [
      | inl e ↦ (let q = covers_at i j false e c in cc)
      | inr e ↦ h j (ground arith) d
    ],
  )

  passed_shorter :
      (i : ℕ) (b : Option ℕ) (len : ℕ)
      → mount_len v path i < len
      → Best v path i (b, len)
      → Best v path (i + 1) (b, len)
  passed_shorter i none len l (z, h) = absurd (omega arith)
  passed_shorter i (some k) len l (z, a, b, h) = (
    z,
    omega arith,
    b,
    λ j a d. elim (Bool-cases (i == j)) [
      | inl e ↦ (let q = ap (mount_len v path) ((==_iff i j).0 e) in omega arith)
      | inr e ↦ h j (ground arith) d
    ],
  )

  find_mount_loop-Best :
      (rounds i : ℕ) (best : Option ℕ × ℕ)
      → Best v path i best
      → Best v path (i + rounds) (find_mount_loop rounds v path i best)
  unfolding find_mount_loop
  find_mount_loop-Best zero i best h = (let q : i + 0 ≡ i = omega arith in rw q h)
  find_mount_loop-Best (suc rounds) i (b, len) h =
      let q : i + suc rounds ≡ i + 1 + rounds = omega arith in
      rw q (
        find_mount_loop-Best rounds (i + 1) _ (
          if_cases (Best v path (i + 1)) (covers v path i && leb len (mount_len v path i))
            (λ t. taken i b len (ground arith) (ground arith) h)
            (λ f. elim (Bool-cases (covers v path i)) [
              | inl c ↦ passed_shorter i b len (ground arith) h
              | inr c ↦ passed_uncovered i b len c h
            ])))

  find_mount-Answer : Answer v path (find_mount v path)
  unfolding find_mount
  find_mount-Answer =
      answer (find_mount_loop 4 v path 0 (none, 0))
        (find_mount_loop-Best 4 0 (none, 0) (refl, λ j l. absurd (omega arith)))
    where
      answer :
          (b : Option ℕ × ℕ)
          → Best v path 4 b
          → Answer v path (elim b.0 [ none ↦ none | some i ↦ some (i, subpath_of path b.1) ])
      answer (none, len) (z, h) = no_best h refl
      answer (some i, len) (z, l, c, h) = chosen i l c h (ap (λ n. some (i, subpath_of path n)) z)

  covers-Covers :
      (i : ℕ) → covers v path i ≡ true → Covers v path i (subpath_of path (mount_len v path i))
  covers-Covers i c = (ground arith, starts_with_cases path (v.mounts i).mountpoint (ground arith))

  Covers-covers : (i : ℕ) (sub : List ℕ) → Covers v path i sub → covers v path i ≡ true
  Covers-covers i sub (u, inl (at, nothing)) =
      rw
        (
          u,
          ap (λ p. starts_with p (v.mounts i).mountpoint) at
              ∙ starts_with_self (v.mounts i).mountpoint,
        )
        refl
  Covers-covers i sub (u, inr below) =
      rw
        (
          u,
          ap (λ p. starts_with p (v.mounts i).mountpoint) below
              ∙ starts_with_below (v.mounts i).mountpoint sub,
        )
        refl

  -- A mount in use covers a path that is its mount point or goes on behind it with a slash. find_mount
  -- answers a mount that covers the path and has the longest mount point of those that do, with
  -- what stands behind that slash, or nothing; it answers none only if no mount covers the path.
  pub find_mount-Found : Found v path (find_mount v path)
  find_mount-Found = elim find_mount-Answer [
    | no_best none_covers q ↦
        uncovered (λ j sub l c. let k = none_covers j l in let m = Covers-covers j sub c in cc) q
    | chosen i l c longest q ↦
        covered i _ l (covers-Covers i c) (λ j sub l' c'. longest j l' (Covers-covers j sub c')) q
  ]
