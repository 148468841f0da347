-- ===== src/Vfs/Parts.antt =====
-- The parts of a normal path of kernel/fs/vfs.c, and the text that they stand for.
use ronin_os.Base.{
  ℕ, zero, suc, ◌+◌, ◌-◌, ◌≤◌, ◌≡◌, refl, ◌∙◌, ap, sym, subst, Bool, true, false, not, ◌&&◌, some,
  List, [], ◌∷◌, ◌++◌, map, arith, ◌==◌, leb, ltb, length, length-append, length-take, take,
  append_nil, snoc_append, Bool-cases, Option-cases, inl, inr,
}
use ronin_os.Text.Strings.{text_eq}
use ronin_os.Vfs.{slash, dot, vfs_max_name}
use ronin_os.Vfs.Normal.{copy_str, push_segment}
use ronin_os.Vfs.Segments.{close, words_from, resolve_all}

abbrev pub no_slash : List ℕ → Bool
no_slash [] = true
no_slash (c ∷ cs) = not (c == slash) && no_slash cs

abbrev pub is_word : List ℕ → Bool
is_word [] = false
is_word (c ∷ cs) = no_slash (c ∷ cs)

-- A part of a normal path.
abbrev pub is_name : List ℕ → Bool
is_name p =
    is_word p
    && (leb (length p) 23 && (not (text_eq p (dot ∷ [])) && not (text_eq p (dot ∷ dot ∷ []))))

abbrev pub all : (List ℕ → Bool) → List (List ℕ) → Bool
all f [] = true
all f (p ∷ ps) = f p && all f ps

pub all-append :
    (f : List ℕ → Bool) (ps qs : List (List ℕ)) → all f (ps ++ qs) ≡ all f ps && all f qs
all-append f [] qs = refl
all-append f (p ∷ ps) qs = ground (arith, all-append f ps qs)

all-take :
    (f : List ℕ → Bool) (n : ℕ) (ps : List (List ℕ)) → all f ps ≡ true → all f (take n ps) ≡ true
all-take f zero ps h = refl
all-take f (suc n) [] h = refl
all-take f (suc n) (p ∷ ps) h = ground (arith, all-take f n ps)

no_slash-snoc :
    (xs : List ℕ) (c : ℕ)
    → no_slash xs ≡ true
    → (c == slash) ≡ false
    → no_slash (xs ++ c ∷ []) ≡ true
no_slash-snoc [] c h e = ground arith
no_slash-snoc (x ∷ xs) c h e = ground (arith, no_slash-snoc xs c)

no_slash-take : (n : ℕ) (xs : List ℕ) → no_slash xs ≡ true → no_slash (take n xs) ≡ true
no_slash-take zero xs h = refl
no_slash-take (suc n) [] h = refl
no_slash-take (suc n) (x ∷ xs) h = ground (arith, no_slash-take n xs)

close-is_word :
    (cur : List ℕ) (ws : List (List ℕ))
    → no_slash cur ≡ true
    → all is_word ws ≡ true
    → all is_word (close cur ws) ≡ true
close-is_word [] ws h k = k
close-is_word (c ∷ cs) ws h k = ground arith

pub words_from-is_word :
    (cur t : List ℕ) → no_slash cur ≡ true → all is_word (words_from cur t) ≡ true
words_from-is_word cur [] h = close-is_word cur [] h refl
words_from-is_word cur (c ∷ cs) h = elim (Bool-cases (c == slash)) [
  | inl e ↦ rw e (close-is_word cur (words_from [] cs) h (words_from-is_word [] cs refl))
  | inr e ↦ rw e (words_from-is_word (cur ++ c ∷ []) cs (no_slash-snoc cur c h e))
]

-- A word that is cut to 23 bytes.
abbrev pub is_short : List ℕ → Bool
is_short w = is_word w && leb (length w) 23

is_word-take : (n : ℕ) (w : List ℕ) → is_word w ≡ true → is_word (take (suc n) w) ≡ true
is_word-take n [] h = cc
is_word-take n (c ∷ cs) h = (let k = no_slash-take n cs in ground arith)

take_short : (n : ℕ) (w : List ℕ) → leb (length (take n w)) n ≡ true
take_short n w = (let l = length-take n w in ground arith)

pub all-is_short :
    (ws : List (List ℕ)) → all is_word ws ≡ true → all is_short (map (take 23) ws) ≡ true
all-is_short [] h = refl
all-is_short (w ∷ ws) h =
    let k : is_word w ≡ true = ground arith in
    let l : all is_word ws ≡ true = ground arith in
    rw (is_word-take 22 w k, take_short 23 w) (all-is_short ws l)

-- At most 16 names.
pub record Names (segs : List (List ℕ)) : Type 0 where
  pub names : all is_name segs ≡ true
  pub count : length segs ≤ 16

push_segment-Names :
    (segs segs' : List (List ℕ)) (w : List ℕ)
    → Names segs
    → is_short w ≡ true
    → push_segment segs w ≡ some segs'
    → Names segs'
unfolding push_segment
push_segment-Names segs segs' w n h e = elim (Bool-cases (text_eq w (dot ∷ []))) [
  | inl a ↦ subst Names (let k = rw a at e in cc) n
  | inr a ↦ elim (Bool-cases (text_eq w (dot ∷ dot ∷ []))) [
    | inl b ↦
        let k = rw (a, b) at e in
        subst Names (let same : take (length segs - 1) segs ≡ segs' = cc in same) (record {
          names = all-take is_name (length segs - 1) segs n.names;
          count = (let l = n.count in omega (arith, length-take (length segs - 1) segs));
        })
    | inr b ↦ elim (Bool-cases (leb 16 (length segs))) [
      | inl c ↦ absurd (let k = rw (a, b, c) at e in cc)
      | inr c ↦
          let fits : ltb (length w) (length w) ≡ false = ground arith in
          let copied : copy_str w vfs_max_name ≡ some w = ground arith in
          let k = rw (a, b, c, copied) at e in
          subst Names (let same : segs ++ w ∷ [] ≡ segs' = cc in same) (record {
            names =
                all-append is_name segs (w ∷ [])
                ∙ (let m = n.names in let l : is_name w ≡ true = ground arith in ground arith);
            count = (let l = length-append segs (w ∷ []) in ground arith);
          })
    ]
  ]
]

pub resolve_all-Names :
    (segs segs' : List (List ℕ)) (ws : List (List ℕ))
    → Names segs
    → all is_short ws ≡ true
    → resolve_all segs ws ≡ some segs'
    → Names segs'
resolve_all-Names segs segs' [] n h e = subst Names (let k = e in cc) n
resolve_all-Names segs segs' (w ∷ ws) n h e = elim (Option-cases (push_segment segs w)) [
  | inl f ↦ absurd (let k = rw (f, resolve_all) at e in cc)
  | inr (next, f) ↦
      resolve_all-Names next segs' ws
        (push_segment-Names segs next w n (let l : is_short w ≡ true = ground arith in l) f)
        (let l : all is_short ws ≡ true = ground arith in l) (rw (f, resolve_all) at e)
]

-- Names are handled by adding them.
pub resolve_all-names :
    (segs ws : List (List ℕ))
    → all is_name ws ≡ true
    → length segs + length ws ≤ 16
    → resolve_all segs ws ≡ some (segs ++ ws)
unfolding push_segment
resolve_all-names segs [] h l = ap some (sym (append_nil segs))
resolve_all-names segs (w ∷ ws) h l =
    let a : text_eq w (dot ∷ []) ≡ false = ground arith in
    let b : text_eq w (dot ∷ dot ∷ []) ≡ false = ground arith in
    let c : leb 16 (length segs) ≡ false = ground arith in
    let short : leb (length w) 23 ≡ true = ground arith in
    let copied : copy_str w vfs_max_name ≡ some w = ground arith in
    let rest : all is_name ws ≡ true = ground arith in
    let k = length-append segs (w ∷ []) in
    rw (a, b, c, copied, resolve_all, push_segment)
      (resolve_all-names (segs ++ w ∷ []) ws rest (omega arith) ∙ ap some (snoc_append segs w ws))
