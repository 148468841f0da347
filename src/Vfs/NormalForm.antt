-- ===== src/Vfs/NormalForm.antt =====
-- The normal form of a path, said without the functions of kernel/fs/vfs.c, and normalize_path.
use ronin_os.Base.{
  ℕ, suc, ◌-◌, ◌≤◌, ◌<◌, ◌≡◌, ◌≢◌, ◌⊎◌, ◌↔◌, refl, sym, ◌∙◌, ap, subst, true, false, none, some,
  List, [], ◌∷◌, ◌++◌, map, arith, leb, if◌then◌else◌, length, take, Bool-cases, inl, inr,
}
use ronin_os.Text.Strings.{text_eq, text_eq_iff}
use ronin_os.Vfs.{slash, dot, vfs_max_name}
use ronin_os.Vfs.Normal.{copy_str, push_segment, normalize_path}
use ronin_os.Vfs.Segments.{words_from, resolve_all}
use ronin_os.Vfs.Parts.{all, is_short, words_from-is_word, all-is_short, resolve_all-Names}
use ronin_os.Vfs.FullText.{
  FullText, ne_text, text_ne, full_text, FullText-absolute, fitting-some, fits_text,
}
use ronin_os.Vfs.Paths.{joined, empty-Names, normalize_path-Normalised}

abbrev pub drop_last : List (List ℕ) → List (List ℕ)
drop_last [] = []
drop_last (p ∷ []) = []
drop_last (p ∷ q ∷ ps) = p ∷ drop_last (q ∷ ps)

-- The words, one after the other, turn the parts `ps` into `qs`: a dot changes nothing, two dots take the
-- last part away, if there is one, and any other word is a new last part, the sixteenth at most.
abbrev pub Resolves : (ps words qs : List (List ℕ)) → Type 0
Resolves ps [] qs = ps ≡ qs
Resolves ps (w ∷ ws) qs =
    ((w ≡ dot ∷ []) × Resolves ps ws qs)
    ⊎ ((w ≡ dot ∷ dot ∷ []) × Resolves (drop_last ps) ws qs)
    ⊎ ((w ≢ dot ∷ []) × (w ≢ dot ∷ dot ∷ []) × (length ps < 16) × Resolves (ps ++ w ∷ []) ws qs)

-- The whole text has at most 127 bytes; its words, the parts between slashes that are not empty, each cut
-- to 23 bytes, resolve to the parts; and these, each behind a slash, or the slash alone if there are
-- none, make at most 127 bytes.
pub record NormalForm (cwd path out : List ℕ) : Type 0 where
  pub text : List ℕ
  pub parts : List (List ℕ)
  pub full : FullText cwd path text
  pub text_fits : length text ≤ 127
  pub resolves : Resolves [] (map (take 23) (words_from [] text)) parts
  pub joins : out ≡ joined parts
  pub fits : length out ≤ 127

take-drop_last : (ps : List (List ℕ)) → take (length ps - 1) ps ≡ drop_last ps
take-drop_last [] = refl
take-drop_last (p ∷ []) = refl
take-drop_last (p ∷ q ∷ ps) =
    let e : suc (suc (length ps)) - 1 ≡ suc (suc (length ps) - 1) = omega arith in
    ap (λ n. take n (p ∷ q ∷ ps)) e ∙ ap (λ t. p ∷ t) (take-drop_last (q ∷ ps))

-- What push_segment does with a word of at most 23 bytes, by the word.
module _ (ps : List (List ℕ)) (w : List ℕ) where
  push-dot : w ≡ dot ∷ [] → push_segment ps w ≡ some ps
  unfolding push_segment
  push-dot e = rw ((text_eq_iff w (dot ∷ [])).1 e) refl

  push-dots : w ≡ dot ∷ dot ∷ [] → push_segment ps w ≡ some (drop_last ps)
  unfolding push_segment text_eq
  push-dots e = rw e (ap some (take-drop_last ps))

  push-other :
      length w ≤ 23
      → w ≢ dot ∷ []
      → w ≢ dot ∷ dot ∷ []
      → push_segment ps w ≡ (if leb 16 (length ps) then none else some (ps ++ w ∷ []))
  unfolding push_segment
  push-other l a b =
      let copied : copy_str w vfs_max_name ≡ some w = ground arith in
      rw (text_ne w (dot ∷ []) a, text_ne w (dot ∷ dot ∷ []) b, copied) refl

all-head :
    (w : List ℕ) (ws : List (List ℕ))
    → all is_short (w ∷ ws) ≡ true
    → (length w ≤ 23) × (all is_short ws ≡ true)
all-head w ws h = (ground arith, ground arith)

resolve_all-Resolves :
    (ws ps qs : List (List ℕ))
    → all is_short ws ≡ true
    → resolve_all ps ws ≡ some qs
    → Resolves ps ws qs
resolve_all-Resolves [] ps qs h e = cc
resolve_all-Resolves (w ∷ ws) ps qs h e =
    let (l, rest) = all-head w ws h in
    elim (Bool-cases (text_eq w (dot ∷ []))) [
      | inl a ↦
          let d = (text_eq_iff w (dot ∷ [])).0 a in
          inl (d, resolve_all-Resolves ws ps qs rest (rw (push-dot ps w d, resolve_all) at e))
      | inr a ↦ elim (Bool-cases (text_eq w (dot ∷ dot ∷ []))) [
        | inl b ↦
            let d = (text_eq_iff w (dot ∷ dot ∷ [])).0 b in
            inr (
              inl (
                d,
                resolve_all-Resolves ws (drop_last ps) qs rest
                    (rw (push-dots ps w d, resolve_all) at e),
              ))
        | inr b ↦
            let n = ne_text w (dot ∷ []) a in
            let m = ne_text w (dot ∷ dot ∷ []) b in
            elim (Bool-cases (leb 16 (length ps))) [
              | inl full ↦ absurd (let k = rw (push-other ps w l n m, full, resolve_all) at e in cc)
              | inr room ↦ inr (
                  inr (
                    n,
                    m,
                    ground arith,
                    resolve_all-Resolves ws (ps ++ w ∷ []) qs rest
                        (rw (push-other ps w l n m, room, resolve_all) at e),
                  ))
            ]
      ]
    ]

Resolves-resolve_all :
    (ws ps qs : List (List ℕ))
    → all is_short ws ≡ true
    → Resolves ps ws qs
    → resolve_all ps ws ≡ some qs
Resolves-resolve_all [] ps qs h e = ap some e
Resolves-resolve_all (w ∷ ws) ps qs h (inl (d, r)) =
    rw (push-dot ps w d, resolve_all) (Resolves-resolve_all ws ps qs (all-head w ws h).1 r)
Resolves-resolve_all (w ∷ ws) ps qs h (inr (inl (d, r))) =
    rw (push-dots ps w d, resolve_all)
      (Resolves-resolve_all ws (drop_last ps) qs (all-head w ws h).1 r)
Resolves-resolve_all (w ∷ ws) ps qs h (inr (inr (n, m, l, r))) =
    let room : leb 16 (length ps) ≡ false = ground arith in
    rw (push-other ps w (all-head w ws h).0 n m, room, resolve_all)
      (Resolves-resolve_all ws (ps ++ w ∷ []) qs (all-head w ws h).1 r)

short_words : (text : List ℕ) → all is_short (map (take 23) (words_from [] text)) ≡ true
short_words text = all-is_short (words_from [] text) (words_from-is_word [] text refl)

-- From a working directory that starts with a slash, normalize_path answers a path exactly if that is
-- the normal form of the path that it is given: the working directory, a slash and the path, or the
-- path alone if it starts with a slash, where dots, double dots and empty parts are resolved and
-- the other parts cut to 23 bytes, with at most 16 parts at any time and at most 127 bytes of text
-- at the start and at the end.
pub normalize_path-NormalForm :
    (rest path out : List ℕ)
    → (normalize_path (slash ∷ rest) (some path) ≡ some out) ↔ NormalForm (slash ∷ rest) path out
normalize_path-NormalForm rest path out = (
  λ e.
      let n = (normalize_path-Normalised (slash ∷ rest) path out).0 e in
      let (t, full) = full_text (slash ∷ rest) path in
      let (same, l) =
        fitting-some t n.text (sym (FullText-absolute rest path t full) ∙ n.made_absolute) in
      record {
        text = n.text;
        parts = n.parts;
        full = subst (FullText (slash ∷ rest) path) same full;
        text_fits = subst (λ u. length u ≤ 127) same l;
        resolves = resolve_all-Resolves _ [] n.parts (short_words n.text) n.resolved;
        joins = n.joins;
        fits = n.fits;
      },
  λ f.
      let fit : leb (length f.text) 127 ≡ true = (let l = f.text_fits in ground arith) in
      let short = short_words f.text in
      let resolved = Resolves-resolve_all _ [] f.parts short f.resolves in
      (normalize_path-Normalised (slash ∷ rest) path out).1 (record {
        text = f.text;
        parts = f.parts;
        made_absolute = FullText-absolute rest path f.text f.full ∙ fits_text f.text fit;
        resolved = resolved;
        names = resolve_all-Names [] f.parts _ empty-Names short resolved;
        joins = f.joins;
        fits = f.fits;
      }),
)
