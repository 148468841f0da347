-- ===== src/Vfs/Paths.antt =====
-- What normalize_path of kernel/fs/vfs.c answers.
use ronin_os.Base.{
  ℕ, zero, suc, ◌+◌, ◌≤◌, ◌≡◌, refl, ◌∙◌, ap, sym, subst, true, false, Option, none, some, List, [],
  ◌∷◌, ◌++◌, map, arith, ◌==◌, leb, ltb, if◌then◌else◌, length, length-append, take, append_nil,
  snoc_append, Bool-cases, Option-cases, inl, inr, ◌↔◌,
}
use ronin_os.Vfs.{slash}
use ronin_os.Vfs.Normal.{absolute, join_loop, normalize_path, skip_segment}
use ronin_os.Vfs.Segments.{close, words_from, run, words_from-run, resolve_all, segments_loop-words}
use ronin_os.Vfs.Parts.{
  no_slash, is_name, all, all-append, words_from-is_word, all-is_short, Names, resolve_all-Names,
  resolve_all-names,
}

-- Each part behind a slash.
abbrev pub slashed : List (List ℕ) → List ℕ
slashed [] = []
slashed (p ∷ ps) = slash ∷ (p ++ slashed ps)

-- The normal path of the parts.
abbrev pub joined : List (List ℕ) → List ℕ
joined [] = slash ∷ []
joined (p ∷ ps) = slashed (p ∷ ps)

assoc : (xs ys zs : List ℕ) → xs ++ (ys ++ zs) ≡ (xs ++ ys) ++ zs
assoc [] ys zs = refl
assoc (x ∷ xs) ys zs = ap (λ t. x ∷ t) (assoc xs ys zs)

slashed-snoc : (ps : List (List ℕ)) (p : List ℕ) → slashed (ps ++ p ∷ []) ≡ slashed ps ++ slash ∷ p
slashed-snoc [] p = ap (λ t. slash ∷ t) (append_nil p)
slashed-snoc (q ∷ ps) p =
    ap (λ t. slash ∷ t) (ap (λ t. q ++ t) (slashed-snoc ps p) ∙ assoc q (slashed ps) (slash ∷ p))

-- What the loop appends for a part.
joined-snoc :
    (ps : List (List ℕ)) (p : List ℕ)
    → all is_name ps ≡ true
    → joined (ps ++ p ∷ [])
      ≡ joined ps ++ (if ltb 1 (length (joined ps)) then slash ∷ [] else []) ++ p
joined-snoc [] p h = ap (λ t. slash ∷ t) (append_nil p)
joined-snoc ([] ∷ ps) p h = absurd (ground arith)
joined-snoc ((c ∷ cs) ∷ ps) p h =
    let more : ltb 1 (length (joined ((c ∷ cs) ∷ ps))) ≡ true = ground arith in
    rw more (slashed-snoc ((c ∷ cs) ∷ ps) p ∙ sym (snoc_append (slashed ((c ∷ cs) ∷ ps)) slash p))

length-joined-snoc :
    (ps : List (List ℕ)) (p : List ℕ)
    → all is_name ps ≡ true
    → length (joined (ps ++ p ∷ []))
      ≡ length (joined ps) + (if ltb 1 (length (joined ps)) then 1 else 0) + length p
length-joined-snoc ps p h =
    ap length (joined-snoc ps p h) ∙ elim (Bool-cases (ltb 1 (length (joined ps)))) [
      | inl e ↦ rw e (
          omega (
            arith,
            length-append (joined ps ++ slash ∷ []) p,
            length-append (joined ps) (slash ∷ []),
          ))
      | inr e ↦
          rw e (omega (arith, length-append (joined ps ++ []) p, length-append (joined ps) []))
    ]

all-snoc :
    (ps : List (List ℕ)) (p : List ℕ)
    → all is_name ps ≡ true
    → is_name p ≡ true
    → all is_name (ps ++ p ∷ []) ≡ true
all-snoc ps p h k = (let l = all-append is_name ps (p ∷ []) in ground arith)

-- The result of the loop is the normal path of the parts, and fits.
join_loop-joined :
    (qs ps : List (List ℕ)) (out : List ℕ)
    → all is_name qs ≡ true
    → all is_name ps ≡ true
    → length (joined qs) ≤ 127
    → join_loop (joined qs) ps ≡ some out
    → (out ≡ joined (qs ++ ps)) × (length out ≤ 127)
unfolding join_loop
join_loop-joined qs [] out h k l e =
    let same : joined qs ≡ out = cc in
    (sym same ∙ ap joined (sym (append_nil qs)), subst (λ o. length o ≤ 127) same l)
join_loop-joined qs (p ∷ ps) out h k l e =
    elim (Bool-cases (leb 128 (length (joined qs) + length p + 1))) [
      | inl f ↦ absurd (let g = rw f at e in cc)
      | inr f ↦
          let name : is_name p ≡ true = ground arith in
          let names : all is_name ps ≡ true = ground arith in
          let longer : length (joined (qs ++ p ∷ [])) ≤ 127 =
            (let m = length-joined-snoc qs p h in ground arith) in
          let (a, b) =
            join_loop-joined (qs ++ p ∷ []) ps out (all-snoc qs p h name) names longer
              (ap (λ o. join_loop o ps) (joined-snoc qs p h) ∙ (rw f at e)) in
          (a ∙ ap joined (snoc_append qs p ps), b)
    ]

-- If the whole fits, the loop succeeds.
join_loop-fits :
    (qs ps : List (List ℕ))
    → all is_name qs ≡ true
    → all is_name ps ≡ true
    → length (joined (qs ++ ps)) ≤ 127
    → join_loop (joined qs) ps ≡ some (joined (qs ++ ps))
unfolding join_loop
join_loop-fits qs [] h k l = ap (λ x. some (joined x)) (sym (append_nil qs))
join_loop-fits qs (p ∷ ps) h k l =
    let name : is_name p ≡ true = ground arith in
    let names : all is_name ps ≡ true = ground arith in
    let whole = snoc_append qs p ps in
    let part = length-joined-append (qs ++ p ∷ []) ps in
    let m = length-joined-snoc qs p h in
    let l' = ap (λ x. length (joined x)) whole in
    let room : leb 128 (length (joined qs) + length p + 1) ≡ false = ground arith in
    rw room (
      ap (λ o. join_loop o ps) (sym (joined-snoc qs p h))
      ∙ join_loop-fits (qs ++ p ∷ []) ps (all-snoc qs p h name) names (omega arith)
      ∙ ap (λ x. some (joined x)) whole)
  where
    length-joined-append : (qs ps : List (List ℕ)) → length (joined qs) ≤ length (joined (qs ++ ps))
    length-joined-append [] [] = omega arith
    length-joined-append [] (p ∷ ps) = omega arith
    length-joined-append (q ∷ qs) ps =
        let a = ap length (slashed-append (q ∷ qs) ps) in
        let b = length-append (slashed (q ∷ qs)) (slashed ps) in omega arith
      where
        slashed-append : (qs ps : List (List ℕ)) → slashed (qs ++ ps) ≡ slashed qs ++ slashed ps
        slashed-append [] ps = refl
        slashed-append (q ∷ qs) ps =
            ap (λ t. slash ∷ t)
              (ap (λ t. q ++ t) (slashed-append qs ps) ∙ assoc q (slashed qs) (slashed ps))

run-slashed :
    (p : List ℕ) (ps : List (List ℕ))
    → no_slash p ≡ true
    → (run (p ++ slashed ps) ≡ p) × (skip_segment (p ++ slashed ps) ≡ slashed ps)
run-slashed [] [] h = (refl, refl)
run-slashed [] (q ∷ ps) h = (refl, refl)
run-slashed (c ∷ cs) ps h =
    let other : (c == slash) ≡ false = ground arith in
    let rest : no_slash cs ≡ true = ground arith in
    let (a, b) = run-slashed cs ps rest in (rw other (ap (λ t. c ∷ t) a), rw other b)

-- The words of a normal path are its parts.
words_from-slashed : (ps : List (List ℕ)) → all is_name ps ≡ true → words_from [] (slashed ps) ≡ ps
words_from-slashed [] h = refl
words_from-slashed ([] ∷ ps) h = absurd (ground arith)
words_from-slashed ((c ∷ cs) ∷ ps) h =
    let word : no_slash (c ∷ cs) ≡ true = ground arith in
    let names : all is_name ps ≡ true = ground arith in
    let (a, b) = run-slashed (c ∷ cs) ps word in
    words_from-run [] (c ∷ cs ++ slashed ps)
    ∙ ap (λ w. close w (words_from [] (skip_segment (c ∷ cs ++ slashed ps)))) a
    ∙ ap (λ t. (c ∷ cs) ∷ words_from [] t) b
    ∙ ap (λ ws. (c ∷ cs) ∷ ws) (words_from-slashed ps names)

words_from-joined : (ps : List (List ℕ)) → all is_name ps ≡ true → words_from [] (joined ps) ≡ ps
words_from-joined [] h = refl
words_from-joined (p ∷ ps) h = words_from-slashed (p ∷ ps) h

pub take_all : (n : ℕ) (xs : List ℕ) → length xs ≤ n → take n xs ≡ xs
take_all zero [] l = refl
take_all zero (x ∷ xs) l = absurd (omega arith)
take_all (suc n) [] l = refl
take_all (suc n) (x ∷ xs) l = ap (λ t. x ∷ t) (take_all n xs (omega arith))

-- Names are short enough to be kept whole.
map-take_names : (ps : List (List ℕ)) → all is_name ps ≡ true → map (take 23) ps ≡ ps
map-take_names [] h = refl
map-take_names (p ∷ ps) h =
    let short : length p ≤ 23 = ground arith in
    let names : all is_name ps ≡ true = ground arith in
    ap (λ q. q ∷ map (take 23) ps) (take_all 23 p short)
    ∙ ap (λ qs. p ∷ qs) (map-take_names ps names)

absolute-joined :
    (cwd : List ℕ) (ps : List (List ℕ))
    → length (joined ps) ≤ 127
    → absolute cwd (joined ps) ≡ some (joined ps)
unfolding absolute
absolute-joined cwd [] l = refl
absolute-joined cwd (p ∷ ps) l = ground arith

-- The normal form of a path: the words of the absolute path, each cut to 23 bytes, leave at most 16
-- names when the dots are resolved, and these are joined by slashes to at most 127 bytes.
pub record Normalised (cwd path out : List ℕ) : Type 0 where
  pub text : List ℕ
  pub parts : List (List ℕ)
  pub made_absolute : absolute cwd path ≡ some text
  pub resolved : resolve_all [] (map (take 23) (words_from [] text)) ≡ some parts
  pub names : Names parts
  pub joins : out ≡ joined parts
  pub fits : length out ≤ 127

pub empty-Names : Names []
empty-Names = record { names = refl; count = omega arith }

abbrev through : Option (List (List ℕ)) → Option (List ℕ)
through none = none
through (some segs) = join_loop (slash ∷ []) segs

-- normalize_path answers a path exactly if that is the normal form of the path that it is given.
pub normalize_path-Normalised :
    (cwd path out : List ℕ) → (normalize_path cwd (some path) ≡ some out) ↔ Normalised cwd path out
unfolding normalize_path
normalize_path-Normalised cwd path out = (to (absolute cwd path) refl, from)
  where
    to :
        (o : Option (List ℕ))
        → absolute cwd path ≡ o
        → normalize_path cwd (some path) ≡ some out
        → Normalised cwd path out
    to none a e = absurd (let k = rw (a, normalize_path) at e in cc)
    to (some t) a e = elim (Option-cases (resolve_all [] (map (take 23) (words_from [] t)))) [
      | inl f ↦ absurd (let k = loop t a e in let g = ap through f in cc)
      | inr (ps, f) ↦
          let n =
            resolve_all-Names [] ps _ empty-Names
              (all-is_short (words_from [] t) (words_from-is_word [] t refl)) f in
          let (j, l) =
            join_loop-joined [] ps out refl n.names (omega arith)
              (sym (ap through f) ∙ loop t a e) in
          record {
            text = t;
            parts = ps;
            made_absolute = a;
            resolved = f;
            names = n;
            joins = j;
            fits = l;
          }
    ]
      where
        loop :
            (t : List ℕ)
            → absolute cwd path ≡ some t
            → normalize_path cwd (some path) ≡ some out
            → through (resolve_all [] (map (take 23) (words_from [] t))) ≡ some out
        loop t a e =
            sym (ap through (segments_loop-words (suc (length t)) [] t (omega arith)))
            ∙ (rw (a, normalize_path) at e)

    from : Normalised cwd path out → normalize_path cwd (some path) ≡ some out
    from n =
        rw (n.made_absolute, normalize_path)
          (ap through
              (segments_loop-words (suc (length n.text)) [] n.text (omega arith) ∙ n.resolved)
            ∙ join_loop-fits [] n.parts refl n.names.names
                (subst (λ o. length o ≤ 127) n.joins n.fits)
            ∙ ap some (sym n.joins))

-- A path that normalize_path answers is its own normal form, in any working directory.
pub normalize_path-again :
    (cwd cwd' path out : List ℕ)
    → normalize_path cwd (some path) ≡ some out
    → normalize_path cwd' (some out) ≡ some out
normalize_path-again cwd cwd' path out e =
    let n = (normalize_path-Normalised cwd path out).0 e in
    (normalize_path-Normalised cwd' out out).1 (record {
      text = out;
      parts = n.parts;
      made_absolute =
          subst (λ o. absolute cwd' o ≡ some o) (sym n.joins)
            (absolute-joined cwd' n.parts (subst (λ o. length o ≤ 127) n.joins n.fits));
      resolved =
          ap (λ o. resolve_all [] (map (take 23) (words_from [] o))) n.joins
          ∙ ap (λ ws. resolve_all [] (map (take 23) ws)) (words_from-joined n.parts n.names.names)
          ∙ ap (resolve_all []) (map-take_names n.parts n.names.names)
          ∙ resolve_all-names [] n.parts n.names.names (let c = n.names.count in omega arith);
      names = n.names;
      joins = n.joins;
      fits = n.fits;
    })
