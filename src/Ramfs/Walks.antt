-- ===== src/Ramfs/Walks.antt =====
-- The directories of kernel/fs/ramfs.c as lists of entries, and what node_create_child does to them.
use ronin_os.Base.{
  ℕ, zero, suc, ◌≤◌, ◌<◌, ◌≡◌, refl, ◌≢◌, ◌∙◌, sym, subst, true, Option, none, some, List, [], ◌∷◌,
  arith, if◌then◌else◌, length, Bool-cases, inl, inr,
}
use ronin_os.Text.Strings.{text_eq, text_eq_iff}
use ronin_os.Ramfs.{Node, Nodes, Result, failure, success, find_loop}

-- The walk from `c` along `next_sibling` visits the entries of the list.
abbrev pub Chain : Nodes → Option ℕ → List ℕ → Type 0
Chain s c [] = c ≡ none
Chain s c (i ∷ l) = (c ≡ some i) × Chain s (s i).next_sibling l

-- No entry of the list has the name.
abbrev pub Absent : Nodes → List ℕ → List ℕ → Type 0
Absent s name [] = Unit
Absent s name (j ∷ l) = ((s j).name ≢ name) × Absent s name l

-- Entries of the directory `d`: in use, with `d` as the parent, no two of one name.
abbrev pub Listed : Nodes → ℕ → List ℕ → Type 0
Listed s d [] = Unit
Listed s d (i ∷ l) =
    (i < 96)
    × (i ≢ 0)
    × ((s i).used ≡ true)
    × ((s i).parent ≡ some d)
    × Absent s (s i).name l
    × Listed s d l

pub record IsDirectory (s : Nodes) (d : ℕ) (l : List ℕ) : Type 0 where
  pub chain : Chain s (s d).first_child l
  pub listed : Listed s d l

-- `kids` lists the entries of every directory in use, and the root is one.
pub record IsTree (s : Nodes) (kids : ℕ → List ℕ) : Type 0 where
  pub root_used : (s 0).used ≡ true
  pub root_dir : (s 0).is_dir ≡ true
  pub directory : (d : ℕ) → (s d).used ≡ true → (s d).is_dir ≡ true → IsDirectory s d (kids d)

unfoldable pub find_in : Nodes → List ℕ → List ℕ → Result ℕ
find_in s [] name = failure
find_in s (i ∷ l) name =
    let rest = find_in s l name in if text_eq (s i).name name then success i else rest

-- A walk with a round for each entry ends, with the first entry of the name.
pub find_loop-in :
    (rounds : ℕ) (s : Nodes) (c : Option ℕ) (l name : List ℕ)
    → Chain s c l
    → length l ≤ rounds
    → find_loop rounds s c name ≡ find_in s l name
unfolding find_loop find_in
find_loop-in rounds s none [] name h le = refl
find_loop-in rounds s (some c) [] name h le = cc
find_loop-in zero s c (i ∷ l) name h le = absurd (omega arith)
find_loop-in (suc rounds) s none (i ∷ l) name h le = cc
find_loop-in (suc rounds) s (some c) (i ∷ l) name h le =
    let e : c ≡ i = (let k = h.0 in cc) in
    let ih = find_loop-in rounds s (s i).next_sibling l name h.1 (omega arith) in rw (e, ih) refl

pub find_in-Absent : (s : Nodes) (l name : List ℕ) → find_in s l name ≡ failure → Absent s name l
unfolding find_in
find_in-Absent s [] name e = tt
find_in-Absent s (i ∷ l) name e = elim (Bool-cases (text_eq (s i).name name)) [
  | inl h ↦ absurd (let k = rw h at e in cc)
  | inr h ↦
      (λ q. (let k = (text_eq_iff (s i).name name).1 q in cc), find_in-Absent s l name (rw h at e))
]

-- What an entry is to the walks.
pub record IsSame (n m : Node) : Type 0 where
  pub next_sibling : m.next_sibling ≡ n.next_sibling
  pub used : m.used ≡ n.used
  pub parent : m.parent ≡ n.parent
  pub name : m.name ≡ n.name

module _ {s s' : Nodes} (same : (i : ℕ) → (s i).used ≡ true → IsSame (s i) (s' i)) where
  pub Absent-frame : (d : ℕ) (name l : List ℕ) → Listed s d l → Absent s name l → Absent s' name l
  Absent-frame d name [] l a = tt
  Absent-frame d name (j ∷ l) h a =
      let w = same j h.2 in (λ q. a.0 (sym w.name ∙ q), Absent-frame d name l h.5 a.1)

  pub Listed-frame : (d : ℕ) (l : List ℕ) → Listed s d l → Listed s' d l
  Listed-frame d [] h = tt
  Listed-frame d (i ∷ l) h =
      let w = same i h.2 in
      (
        h.0,
        h.1,
        w.used ∙ h.2,
        w.parent ∙ h.3,
        subst (λ n. Absent s' n l) (sym w.name) (Absent-frame d (s i).name l h.5 h.4),
        Listed-frame d l h.5,
      )

  pub Chain-frame : (d : ℕ) (c : Option ℕ) (l : List ℕ) → Listed s d l → Chain s c l → Chain s' c l
  Chain-frame d c [] h k = k
  Chain-frame d c (i ∷ l) h k =
      let w = same i h.2 in
      (
        k.0,
        subst (λ x. Chain s' x l) (sym w.next_sibling) (Chain-frame d (s i).next_sibling l h.5 k.1),
      )

  pub find_in-frame :
      (d : ℕ) (l name : List ℕ) → Listed s d l → find_in s' l name ≡ find_in s l name
  unfolding find_in
  find_in-frame d [] name h = refl
  find_in-frame d (i ∷ l) name h =
      let w = same i h.2 in rw (w.name, find_in-frame d l name h.5) refl
