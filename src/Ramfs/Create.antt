-- ===== src/Ramfs/Create.antt =====
-- What node_create_child of kernel/fs/ramfs.c does to the directories.
use ronin_os.Base.{
  ℕ, zero, suc, ◌+◌, ◌≤◌, ◌<◌, ◌≡◌, refl, ◌≢◌, ◌∙◌, ap, sym, subst, Bool, true, false, Option, none,
  some, List, [], ◌∷◌, arith, ◌==◌, ==_iff, if◌then◌else◌, length, Bool-cases, Option-cases, inl,
  inr, ◌⊎◌,
}
use ronin_os.Text.Strings.{text_eq}
use ronin_os.Ramfs.{
  Nodes, put, fresh_node, Result, unending, failure, success, alloc_loop, node_alloc, s_copy,
  find_loop, node_find_child, node_create_child, link_child, Created, created, ramfs_max_nodes,
  ramfs_max_name,
}
use ronin_os.Ramfs.Walks.{
  Chain, Absent, Listed, IsDirectory, IsTree, find_in, find_loop-in, find_in-Absent, IsSame,
  Absent-frame, Listed-frame, Chain-frame, find_in-frame,
}

alloc_loop-unused :
    (rounds : ℕ) (s : Nodes) (i j : ℕ)
    → alloc_loop rounds s i ≡ some j
    → ((s j).used ≡ false) × (j < i + rounds)
unfolding alloc_loop
alloc_loop-unused zero s i j e = cc
alloc_loop-unused (suc rounds) s i j e = elim (Bool-cases (s i).used) [
  | inl u ↦ let ih = alloc_loop-unused rounds s (i + 1) j (rw u at e) in (ih.0, omega (arith, ih.1))
  | inr u ↦ let k : i ≡ j = (let k = rw u at e in cc) in (rw (sym k) u, omega arith)
]

-- What a successful node_create_child has found, and the entries that it leaves.
record Born (s : Nodes) (d : ℕ) (name : List ℕ) (is_dir : Bool) (l : List ℕ) (s' : Nodes) (idx : ℕ)
    : Type 0 where
  absent : find_in s l name ≡ failure
  unused : (s idx).used ≡ false
  below : idx < 96
  linked : s' ≡ link_child (put s idx fresh_node) d idx name is_dir

s_copy-same :
    (name : List ℕ) (copied : List ℕ)
    → s_copy (some name) ramfs_max_name ≡ some copied
    → copied ≡ name
unfolding s_copy
s_copy-same [] copied e = cc
s_copy-same (x ∷ xs) copied e = ground arith

node_create_child-Born :
    (rounds : ℕ) (s : Nodes) (d : ℕ) (name : List ℕ) (is_dir : Bool) (l : List ℕ) (s' : Nodes)
    (idx : ℕ)
    → Chain s (s d).first_child l
    → length l ≤ rounds
    → node_create_child rounds s d name is_dir ≡ (s', created idx)
    → Born s d name is_dir l s' idx
unfolding node_create_child node_find_child node_alloc
node_create_child-Born rounds s d name is_dir l s' idx c le e =
    let look = find_loop-in rounds s (s d).first_child l name c le in
    elim (Result-cases (find_in s l name)) [
      | inl u ↦ absurd (let k = rw (look ∙ u, node_create_child) at e in cc)
      | inr (inr (i, u)) ↦ absurd (let k = rw (look ∙ u, node_create_child) at e in cc)
      | inr (inl u) ↦
          let k = rw (look ∙ u, node_create_child) at e in
          elim (Option-cases (alloc_loop ramfs_max_nodes s 0)) [
            | inl a ↦ absurd (let k2 = rw (a, node_create_child) at k in cc)
            | inr (j, a) ↦
                let k2 = rw (a, node_create_child) at k in
                elim (Option-cases (s_copy (some name) ramfs_max_name)) [
                  | inl f ↦ absurd (let k3 = rw (f, node_create_child) at k2 in cc)
                  | inr (copied, f) ↦
                      let k3 = rw (f, node_create_child) at k2 in
                      let same : j ≡ idx = (let q = ap (λ (x : Nodes × Created). x.1) k3 in cc) in
                      let free = alloc_loop-unused ramfs_max_nodes s 0 j a in
                      record {
                        absent = u;
                        unused = ap (λ i. (s i).used) (sym same) ∙ free.0;
                        below = omega (arith, free.1);
                        linked =
                            sym (ap (λ (x : Nodes × Created). x.0) k3)
                            ∙ ap (λ i. link_child (put s i fresh_node) d i copied is_dir) same
                            ∙ ap (λ n. link_child (put s idx fresh_node) d idx n is_dir)
                                (s_copy-same name copied f);
                      }
                ]
          ]
    ]
  where
    Result-cases : (r : Result ℕ) → (r ≡ unending) ⊎ ((r ≡ failure) ⊎ ((i : ℕ) × (r ≡ success i)))
    Result-cases unending = inl refl
    Result-cases failure = inr (inl refl)
    Result-cases (success i) = inr (inr (i, refl))

-- The entries that node_create_child leaves, index by index.
linked-at :
    (s : Nodes) (d idx i : ℕ) (name : List ℕ) (is_dir : Bool)
    → d ≢ idx
    → i ≢ idx
    → IsSame (s i) (link_child (put s idx fresh_node) d idx name is_dir i)
linked-at s d idx i name is_dir n m = record {
  next_sibling = ground arith;
  used = ground arith;
  parent = ground arith;
  name = ground arith;
}

-- The entries of each directory when `idx` is new in `d`.
abbrev pub grown : (ℕ → List ℕ) → (d idx : ℕ) → ℕ → List ℕ
grown kids d idx e = if e == d then idx ∷ kids d else if e == idx then [] else kids e

module _ {s : Nodes} {kids : ℕ → List ℕ} (t : IsTree s kids) (d idx : ℕ) (name : List ℕ)
    (is_dir : Bool) (used_d : (s d).used ≡ true) (dir_d : (s d).is_dir ≡ true)
    (unused : (s idx).used ≡ false) (below : idx < 96) (absent : Absent s name (kids d)) where
  grow : Nodes
  grow = link_child (put s idx fresh_node) d idx name is_dir

  grow_is : grow ≡ link_child (put s idx fresh_node) d idx name is_dir
  unfolding grow
  grow_is = refl

  apart : d ≢ idx
  apart q = (let k = ap (λ x. (s x).used) q in cc)

  same : (i : ℕ) → (s i).used ≡ true → IsSame (s i) (grow i)
  unfolding grow
  same i u = linked-at s d idx i name is_dir apart (λ q. (let k = ap (λ x. (s x).used) q in cc))

  new_entry :
      ((grow idx).next_sibling ≡ (s d).first_child)
      × ((grow idx).used ≡ true)
      × ((grow idx).parent ≡ some d)
      × ((grow idx).name ≡ name)
      × ((grow idx).size ≡ 0)
      × ((grow idx).is_dir ≡ is_dir)
      × ((grow idx).first_child ≡ none)
      × ((grow d).first_child ≡ some idx)
      × ((grow d).is_dir ≡ true)
  unfolding grow
  new_entry =
      let a = apart in
      (
        ground arith,
        ground arith,
        ground arith,
        ground arith,
        ground arith,
        ground arith,
        ground arith,
        ground arith,
        ground arith,
      )

  elsewhere :
      (e : ℕ)
      → e ≢ d
      → e ≢ idx
      → ((grow e).used ≡ (s e).used)
        × ((grow e).is_dir ≡ (s e).is_dir)
        × ((grow e).first_child ≡ (s e).first_child)
  unfolding grow
  elsewhere e n m = (ground arith, ground arith, ground arith)

  kept :
      (e : ℕ) (l : List ℕ)
      → IsDirectory s e l
      → (c : Option ℕ) → c ≡ (s e).first_child
      → Chain grow c l × Listed grow e l
  kept e l h c q = (
    Chain-frame same e c l h.listed (subst (λ x. Chain s x l) (sym q) h.chain),
    Listed-frame same e l h.listed,
  )

  first : IsDirectory grow d (idx ∷ kids d)
  first =
      let h = t.directory d used_d dir_d in
      let k = kept d (kids d) h (grow idx).next_sibling new_entry.0 in
      record {
        chain = (new_entry.7, k.0);
        listed = (
          below,
          (λ q. (let w = ap (λ x. (s x).used) q in let m = t.root_used in cc)),
          new_entry.1,
          new_entry.2,
          subst (λ n. Absent grow n (kids d)) (sym new_entry.3)
              (Absent-frame same d name (kids d) h.listed absent),
          k.1,
        );
      }

  grow-IsTree : IsTree grow (grown kids d idx)
  grow-IsTree = record {
    root_used = (same 0 t.root_used).used ∙ t.root_used;
    root_dir = elim (Bool-cases (0 == d)) [
      | inl q ↦ ap (λ i. (grow i).is_dir) ((==_iff 0 d).0 q) ∙ new_entry.8
      | inr q ↦
          (elsewhere 0 (λ r. (let k = (==_iff 0 d).1 r in cc))
            (λ r. (let k = ap (λ x. (s x).used) r in let m = t.root_used in cc))).1
          ∙ t.root_dir
    ];
    directory = λ e u v. elim (Bool-cases (e == d)) [
      | inl q ↦
          let at_d = (==_iff e d).0 q in
          rw q (subst (λ x. IsDirectory grow x (idx ∷ kids d)) (sym at_d) first)
      | inr q ↦ elim (Bool-cases (e == idx)) [
        | inl r ↦
            let at_idx = (==_iff e idx).0 r in
            rw (q, r)
              (subst (λ x. IsDirectory grow x []) (sym at_idx)
                (record { chain = new_entry.6; listed = tt }))
        | inr r ↦
            let w =
              elsewhere e (λ k. (let z = (==_iff e d).1 k in cc))
                (λ k. (let z = (==_iff e idx).1 k in cc)) in
            let h = t.directory e (sym w.0 ∙ u) (sym w.1 ∙ v) in
            let k = kept e (kids e) h (grow e).first_child w.2 in
            rw (q, r) (record { chain = k.0; listed = k.1 })
      ]
    ];
  }

  grow-finds :
      (n : List ℕ)
      → find_in grow (idx ∷ kids d) n
        ≡ (if text_eq name n then success idx else find_in s (kids d) n)
  unfolding find_in
  grow-finds n =
      rw (new_entry.3, find_in-frame same d (kids d) n (t.directory d used_d dir_d).listed) refl

-- A successful node_create_child of a name in a directory of a tree, with a round for each entry of
-- the directory, keeps the tree: the directory has the new entry in front, an empty one, the new
-- entry has none, and every other directory has the entries that it had. A search of the directory
-- for the new name now finds the new entry and for any other name what it found before.
pub node_create_child-IsTree :
    (rounds : ℕ) (s s' : Nodes) (kids : ℕ → List ℕ) (d idx : ℕ) (name : List ℕ) (is_dir : Bool)
    → IsTree s kids
    → (s d).used ≡ true
    → (s d).is_dir ≡ true
    → length (kids d) ≤ rounds
    → node_create_child rounds s d name is_dir ≡ (s', created idx)
    → IsTree s' (grown kids d idx)
      × ((s' idx).size ≡ 0)
      × ((s' idx).is_dir ≡ is_dir)
      × ((n : List ℕ)
          → node_find_child (suc rounds) s' d n
            ≡ (if text_eq name n then success idx else node_find_child rounds s d n))
unfolding node_find_child
node_create_child-IsTree rounds s s' kids d idx name is_dir t u v le e =
    let h = t.directory d u v in
    let b = node_create_child-Born rounds s d name is_dir (kids d) s' idx h.chain le e in
    let absent = find_in-Absent s (kids d) name b.absent in
    let linked : grow t d idx name is_dir u v b.unused b.below absent ≡ s' =
      grow_is t d idx name is_dir u v b.unused b.below absent ∙ sym b.linked in
    subst Kept linked (
      grow-IsTree t d idx name is_dir u v b.unused b.below absent,
      (new_entry t d idx name is_dir u v b.unused b.below absent).4,
      (new_entry t d idx name is_dir u v b.unused b.below absent).5,
      λ n.
          find_loop-in (suc rounds) _ _ (idx ∷ kids d) n
            (first t d idx name is_dir u v b.unused b.below absent).chain (omega (arith, le))
          ∙ grow-finds t d idx name is_dir u v b.unused b.below absent n
          ∙ ap (λ r. if text_eq name n then success idx else r)
              (sym (find_loop-in rounds s _ (kids d) n h.chain le)),
    )
  where
    Kept : Nodes → Type 0
    Kept x =
        IsTree x (grown kids d idx)
        × ((x idx).size ≡ 0)
        × ((x idx).is_dir ≡ is_dir)
        × ((n : List ℕ)
            → find_loop (suc rounds) x (x d).first_child n
              ≡ (if text_eq name n then success idx else find_loop rounds s (s d).first_child n))
