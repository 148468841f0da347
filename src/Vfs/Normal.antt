-- ===== src/Vfs/Normal.antt =====
-- normalize_path of kernel/fs/vfs.c. The array `segs` up to `top` is the list of the segments.
use ronin_os.Base.{
  ℕ, zero, suc, ◌+◌, ◌-◌, Bool, false, Option, none, some, List, [], ◌∷◌, ◌++◌, ◌==◌, leb, ltb,
  if◌then◌else◌, length, take, min,
}
use ronin_os.Text.Strings.{text_eq}
use ronin_os.Vfs.{vfs_max_path, vfs_max_name, slash, dot}

abbrev pub s_len : List ℕ → ℕ → ℕ
s_len s max = min (length s) max

-- What `dst` holds; `none` for -1.
abbrev pub copy_str : List ℕ → ℕ → Option (List ℕ)
copy_str src max = if ltb (s_len src (max - 1)) (length src) then none else some src

abbrev pub skip_slashes : List ℕ → List ℕ
skip_slashes [] = []
skip_slashes (c ∷ cs) = if c == slash then skip_slashes cs else c ∷ cs

-- At most `room` bytes up to the next slash, and what is left.
abbrev pub take_segment : ℕ → List ℕ → List ℕ × List ℕ
take_segment zero t = ([], t)
take_segment (suc room) [] = ([], [])
take_segment (suc room) (c ∷ cs) =
    let (seg, left) = take_segment room cs in if c == slash then ([], c ∷ cs) else (c ∷ seg, left)

abbrev pub skip_segment : List ℕ → List ℕ
skip_segment [] = []
skip_segment (c ∷ cs) = if c == slash then c ∷ cs else skip_segment cs

-- The segment at the front, cut to the size of `seg`, and the text behind the whole of it.
unfoldable pub next_segment : List ℕ → List ℕ × List ℕ
next_segment t = let (seg, left) = take_segment (vfs_max_name - 1) t in (seg, skip_segment left)

-- What the loop does with a segment; `none` for the return of -1.
unfoldable pub push_segment : List (List ℕ) → List ℕ → Option (List (List ℕ))
push_segment segs seg =
    if text_eq seg (dot ∷ [])
    then some segs
    else if text_eq seg (dot ∷ dot ∷ [])
    then some (take (length segs - 1) segs)
    else if leb 16 (length segs)
    then none
    else elim (copy_str seg vfs_max_name) [ none ↦ none | some copied ↦ some (segs ++ copied ∷ []) ]

-- The `while (temp[i])` loop.
unfoldable pub segments_loop : ℕ → List (List ℕ) → List ℕ → Option (List (List ℕ))
segments_loop zero segs t = none
segments_loop (suc fuel) segs t = elim (skip_slashes t) [
  | [] ↦ some segs
  | c ∷ cs ↦
      let (seg, left) = next_segment (c ∷ cs) in
      elim (push_segment segs seg) [ none ↦ none | some segs' ↦ segments_loop fuel segs' left ]
]

-- `temp[i] == '/'` at the front.
abbrev pub is_absolute : List ℕ → Bool
is_absolute [] = false
is_absolute (c ∷ cs) = c == slash

-- `temp`; `none` for the return of -1.
unfoldable pub absolute : List ℕ → List ℕ → Option (List ℕ)
absolute cwd path =
    if is_absolute path
    then copy_str path vfs_max_path
    else let cwd_len = s_len cwd vfs_max_path in
      if leb vfs_max_path (cwd_len + 1)
      then none
      else let base = take cwd_len cwd ++ (if ltb 1 cwd_len then slash ∷ [] else []) in
        elim (copy_str path (vfs_max_path - length base)) [
          | none ↦ none
          | some s ↦ some (base ++ s)
        ]

-- The `for` loop over the segments.
unfoldable pub join_loop : List ℕ → List (List ℕ) → Option (List ℕ)
join_loop out [] = some out
join_loop out (seg ∷ segs) =
    let rest = join_loop (out ++ (if ltb 1 (length out) then slash ∷ [] else []) ++ seg) segs in
    if leb vfs_max_path (length out + length seg + 1) then none else rest

-- Each round but the last takes a byte of the text at least.
unfoldable pub normalize_path : List ℕ → Option (List ℕ) → Option (List ℕ)
normalize_path cwd none = none
normalize_path cwd (some path) = elim (absolute cwd path) [
  | none ↦ none
  | some temp ↦ elim (segments_loop (suc (length temp)) [] temp) [
    | none ↦ none
    | some segs ↦ join_loop (slash ∷ []) segs
  ]
]
