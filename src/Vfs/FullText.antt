-- ===== src/Vfs/FullText.antt =====
-- The text that normalize_path of kernel/fs/vfs.c starts from, `temp`, without the code's `absolute`, and
-- that `absolute` gives it.
use ronin_os.Base.{
  ℕ, suc, ◌+◌, ◌-◌, ◌≤◌, ◌<◌, ◌≡◌, ◌≢◌, ◌⊎◌, refl, sym, ◌∙◌, ap, true, false, Option, none, some,
  List, [], ◌∷◌, ◌++◌, arith, ◌==◌, leb, ltb, if◌then◌else◌, length, length-append, take,
  snoc_append, ==_iff, Bool-cases, inl, inr,
}
use ronin_os.Text.Strings.{text_eq, text_eq_iff}
use ronin_os.Vfs.{slash, vfs_max_path}
use ronin_os.Vfs.Normal.{s_len, absolute, is_absolute, copy_str}
use ronin_os.Vfs.Paths.{take_all}

-- The whole text: the path itself if it starts with a slash, and else the working directory, a slash and
-- the path, where the slash of the root directory is not written twice.
abbrev pub FullText : (cwd path text : List ℕ) → Type 0
FullText cwd path text =
    ((p : List ℕ) × (path ≡ slash ∷ p) × (text ≡ path))
    ⊎ (((p : List ℕ) → path ≢ slash ∷ p)
        × (((cwd ≡ slash ∷ []) × (text ≡ slash ∷ path))
            ⊎ ((cwd ≢ slash ∷ []) × (text ≡ cwd ++ (slash ∷ path)))))

pub ne_text : (xs ys : List ℕ) → text_eq xs ys ≡ false → xs ≢ ys
ne_text xs ys h e = absurd (let k = (text_eq_iff xs ys).1 e in cc)

pub text_ne : (xs ys : List ℕ) → xs ≢ ys → text_eq xs ys ≡ false
text_ne xs ys n = elim (Bool-cases (text_eq xs ys)) [
  | inl e ↦ absurd (n ((text_eq_iff xs ys).0 e))
  | inr e ↦ e
]

-- The text where it fits the buffer `temp`.
abbrev pub fitting : List ℕ → Option (List ℕ)
fitting text = if leb (length text) 127 then some text else none

absolute-own : (cwd p : List ℕ) → absolute cwd (slash ∷ p) ≡ fitting (slash ∷ p)
unfolding absolute
absolute-own cwd p = ground arith

-- The steps of absolute for a path that is not, from a working directory of `n` bytes.
abbrev behind : (base path : List ℕ) → Option (List ℕ)
behind base path = elim (copy_str path (vfs_max_path - length base)) [
  | none ↦ none
  | some s ↦ some (base ++ s)
]

abbrev relative : (n : ℕ) (cwd path : List ℕ) → Option (List ℕ)
relative n cwd path =
    if leb vfs_max_path (n + 1)
    then none
    else behind (take n cwd ++ (if ltb 1 n then slash ∷ [] else [])) path

behind-fitting :
    (base path : List ℕ) → length base ≤ 127 → behind base path ≡ fitting (base ++ path)
behind-fitting base path l = (let e = length-append base path in ground arith)

absolute-relative :
    (cwd path : List ℕ)
    → is_absolute path ≡ false
    → absolute cwd path ≡ relative (s_len cwd vfs_max_path) cwd path
unfolding absolute
absolute-relative cwd path h = rw h refl

absolute-root :
    (path : List ℕ) → is_absolute path ≡ false → absolute (slash ∷ []) path ≡ fitting (slash ∷ path)
absolute-root path h =
    absolute-relative (slash ∷ []) path h ∙ behind-fitting (slash ∷ []) path (omega arith)

absolute-below :
    (c : ℕ) (cs path : List ℕ)
    → is_absolute path ≡ false
    → absolute (slash ∷ c ∷ cs) path ≡ fitting ((slash ∷ c ∷ cs) ++ slash ∷ path)
absolute-below c cs path h = elim (Bool-cases (ltb (length cs) 125)) [
  | inl small ↦
      let n : s_len (slash ∷ c ∷ cs) vfs_max_path ≡ suc (suc (length cs)) = ground arith in
      let whole = take_all (suc (suc (length cs))) (slash ∷ c ∷ cs) (omega arith) in
      let room : leb vfs_max_path (suc (suc (length cs)) + 1) ≡ false = ground arith in
      let more : ltb 1 (suc (suc (length cs))) ≡ true = ground arith in
      let base : take (suc (suc (length cs))) (slash ∷ c ∷ cs)
            ++ (if ltb 1 (suc (suc (length cs))) then slash ∷ [] else [])
          ≡ (slash ∷ c ∷ cs) ++ slash ∷ [] =
        rw more (ap (λ t. t ++ slash ∷ []) whole) in
      let few : length cs < 125 = ground arith in
      absolute-relative (slash ∷ c ∷ cs) path h
      ∙ ap (λ k. relative k (slash ∷ c ∷ cs) path) n
      ∙ rw room (ap (λ b. behind b path) base)
      ∙ behind-fitting ((slash ∷ c ∷ cs) ++ slash ∷ []) path
          (omega (arith, length-append cs (slash ∷ [])))
      ∙ ap fitting (snoc_append (slash ∷ c ∷ cs) slash path)
  | inr large ↦
      let full : leb vfs_max_path (s_len (slash ∷ c ∷ cs) vfs_max_path + 1) ≡ true = ground arith in
      let cut : fitting ((slash ∷ c ∷ cs) ++ slash ∷ path) ≡ none =
        (let l = length-append cs (slash ∷ path) in ground arith) in
      absolute-relative (slash ∷ c ∷ cs) path h ∙ rw full refl ∙ sym cut
]

not_absolute : (path : List ℕ) → ((p : List ℕ) → path ≢ slash ∷ p) → is_absolute path ≡ false
not_absolute [] n = refl
not_absolute (c ∷ cs) n = elim (Bool-cases (c == slash)) [
  | inl e ↦ absurd (n cs (ap (λ k. k ∷ cs) ((==_iff c slash).0 e)))
  | inr e ↦ e
]

full_relative :
    (cwd path : List ℕ) → is_absolute path ≡ false → (text : List ℕ) × FullText cwd path text
full_relative cwd path h =
    let n : (p : List ℕ) → path ≢ slash ∷ p = λ p e. let k = ap is_absolute e in cc in
    elim (Bool-cases (text_eq cwd (slash ∷ []))) [
      | inl e ↦ (slash ∷ path, inr (n, inl ((text_eq_iff cwd (slash ∷ [])).0 e, refl)))
      | inr e ↦ (cwd ++ slash ∷ path, inr (n, inr (ne_text cwd (slash ∷ []) e, refl)))
    ]

pub full_text : (cwd path : List ℕ) → (text : List ℕ) × FullText cwd path text
full_text cwd [] = full_relative cwd [] refl
full_text cwd (c ∷ cs) = elim (Bool-cases (c == slash)) [
  | inl e ↦ (c ∷ cs, inl (cs, ap (λ k. k ∷ cs) ((==_iff c slash).0 e), refl))
  | inr e ↦ full_relative cwd (c ∷ cs) e
]

pub FullText-absolute :
    (rest path text : List ℕ)
    → FullText (slash ∷ rest) path text
    → absolute (slash ∷ rest) path ≡ fitting text
FullText-absolute rest path text (inl (p, e, same)) =
    ap (absolute (slash ∷ rest)) e ∙ absolute-own (slash ∷ rest) p ∙ ap fitting (sym e ∙ sym same)
FullText-absolute rest path text (inr (n, inl (root, same))) =
    ap (λ c. absolute c path) root
    ∙ absolute-root path (not_absolute path n)
    ∙ ap fitting (sym same)
FullText-absolute [] path text (inr (n, inr (below, same))) = absurd (below refl)
FullText-absolute (c ∷ cs) path text (inr (n, inr (below, same))) =
    absolute-below c cs path (not_absolute path n) ∙ ap fitting (sym same)

pub fitting-some : (t u : List ℕ) → fitting t ≡ some u → (t ≡ u) × (length t ≤ 127)
fitting-some t u e = elim (Bool-cases (leb (length t) 127)) [
  | inl l ↦ (let k = rw l at e in cc, ground arith)
  | inr l ↦ absurd (let k = rw l at e in cc)
]

pub fits_text : (t : List ℕ) → leb (length t) 127 ≡ true → fitting t ≡ some t
fits_text t h = rw h refl
