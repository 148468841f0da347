-- ===== src/Vfs/Segments.antt =====
-- The loop of normalize_path of kernel/fs/vfs.c against the words of a text: its parts between slashes
-- that are not empty.
use ronin_os.Base.{
  ℕ, zero, suc, ◌≤◌, ◌<◌, ◌≡◌, refl, ◌∙◌, ap, sym, false, Option, none, some, List, [], ◌∷◌, ◌++◌,
  map, arith, ◌==◌, if◌then◌else◌, length, take, append_nil, snoc_append, Bool-cases, inl, inr, ◌⊎◌,
}
use ronin_os.Vfs.{slash}
use ronin_os.Vfs.Normal.{
  skip_slashes, take_segment, skip_segment, next_segment, push_segment, segments_loop,
}

abbrev pub close : List ℕ → List (List ℕ) → List (List ℕ)
close [] ws = ws
close (c ∷ cs) ws = (c ∷ cs) ∷ ws

-- The words of a text, where `cur` is the start of the first.
abbrev pub words_from : List ℕ → List ℕ → List (List ℕ)
words_from cur [] = close cur []
words_from cur (c ∷ cs) =
    let rest = words_from [] cs in
    let longer = words_from (cur ++ c ∷ []) cs in if c == slash then close cur rest else longer

-- The segments are handled in their order.
abbrev pub resolve_all : List (List ℕ) → List (List ℕ) → Option (List (List ℕ))
resolve_all segs [] = some segs
resolve_all segs (w ∷ ws) = elim (push_segment segs w) [
  | none ↦ none
  | some segs' ↦ resolve_all segs' ws
]

-- The bytes before the first slash.
abbrev pub run : List ℕ → List ℕ
run [] = []
run (c ∷ cs) = if c == slash then [] else c ∷ run cs

words_from-skip_slashes : (t : List ℕ) → words_from [] (skip_slashes t) ≡ words_from [] t
words_from-skip_slashes [] = refl
words_from-skip_slashes (c ∷ cs) = elim (Bool-cases (c == slash)) [
  | inl e ↦ rw e (words_from-skip_slashes cs)
  | inr e ↦ rw e (rw e refl)
]

pub words_from-run :
    (cur t : List ℕ) → words_from cur t ≡ close (cur ++ run t) (words_from [] (skip_segment t))
words_from-run cur [] = ap (λ w. close w []) (sym (append_nil cur))
words_from-run cur (c ∷ cs) = elim (Bool-cases (c == slash)) [
  | inl e ↦ rw e (rw e (ap (λ w. close w (words_from [] cs)) (sym (append_nil cur))))
  | inr e ↦ rw e (
      words_from-run (cur ++ c ∷ []) cs
      ∙ ap (λ w. close w (words_from [] (skip_segment cs))) (snoc_append cur c (run cs)))
]

take_segment-run :
    (room : ℕ) (t : List ℕ)
    → ((take_segment room t).0 ≡ take room (run t))
      × (skip_segment (take_segment room t).1 ≡ skip_segment t)
take_segment-run zero t = (refl, refl)
take_segment-run (suc room) [] = (refl, refl)
take_segment-run (suc room) (c ∷ cs) = elim (Bool-cases (c == slash)) [
  | inl e ↦ (rw e refl, rw e (rw e refl))
  | inr e ↦ let (a, b) = take_segment-run room cs in (rw e (ap (λ w. c ∷ w) a), rw e b)
]

-- The segment is the first word, cut to 23 bytes.
pub next_segment-run : (t : List ℕ) → next_segment t ≡ (take 23 (run t), skip_segment t)
unfolding next_segment
next_segment-run t = let (a, b) = take_segment-run 23 t in rw (a, b) refl

skip_segment_le : (t : List ℕ) → length (skip_segment t) ≤ length t
skip_segment_le [] = omega arith
skip_segment_le (c ∷ cs) = ground (arith, skip_segment_le cs)

skip_slashes_le : (t : List ℕ) → length (skip_slashes t) ≤ length t
skip_slashes_le [] = omega arith
skip_slashes_le (c ∷ cs) = ground (arith, skip_slashes_le cs)

-- What is left begins with no slash.
pub skip_slashes-cases :
    (t : List ℕ)
    → (skip_slashes t ≡ [])
      ⊎ ((c : ℕ) × (cs : List ℕ) × (skip_slashes t ≡ c ∷ cs) × ((c == slash) ≡ false))
skip_slashes-cases [] = inl refl
skip_slashes-cases (c ∷ cs) = elim (Bool-cases (c == slash)) [
  | inl e ↦ rw e (skip_slashes-cases cs)
  | inr e ↦ inr (c, cs, rw e refl, e)
]

-- The loop, with more rounds than the text has bytes, handles the words of the text in their order, each
-- cut to 23 bytes.
pub segments_loop-words :
    (fuel : ℕ) (segs : List (List ℕ)) (t : List ℕ)
    → length t < fuel
    → segments_loop fuel segs t ≡ resolve_all segs (map (take 23) (words_from [] t))
unfolding segments_loop
segments_loop-words zero segs t l = absurd (omega arith)
segments_loop-words (suc fuel) segs t l = elim (skip_slashes-cases t) [
  | inl e ↦
      let none_left : words_from [] t ≡ [] =
        sym (words_from-skip_slashes t) ∙ ap (words_from []) e in
      rw (e, none_left, segments_loop) refl
  | inr (c, cs, e, other) ↦
      let first : words_from [] t ≡ run (c ∷ cs) ∷ words_from [] (skip_segment (c ∷ cs)) =
        sym (words_from-skip_slashes t)
        ∙ ap (words_from []) e
        ∙ words_from-run [] (c ∷ cs)
        ∙ rw other refl in
      let short : length (skip_segment (c ∷ cs)) < fuel =
        (let a = skip_slashes_le t in
          let b = ap length e in let d = skip_segment_le cs in ground (arith, other)) in
      rw (e, segments_loop)
        (rw (next_segment-run (c ∷ cs)) (
          step (push_segment segs (take 23 (run (c ∷ cs)))) _ _ (λ s.
            ap (λ q. segments_loop fuel s q.1) (next_segment-run (c ∷ cs))
            ∙ segments_loop-words fuel s (skip_segment (c ∷ cs)) short)
          ∙ ap (λ ws. resolve_all segs (map (take 23) ws)) (sym first)))
]
  where
    step :
        (o : Option (List (List ℕ))) (f g : List (List ℕ) → Option (List (List ℕ)))
        → ((s : List (List ℕ)) → f s ≡ g s)
        → ◌≡◌ {A = Option (List (List ℕ))}
            (elim o [ none ↦ none | some s ↦ f s ])
            (elim o [ none ↦ none | some s ↦ g s ])
    step none f g h = refl
    step (some s) f g h = h s
