-- ===== src/Initrd/Names.antt =====
-- Which files of kernel/fs/initrd.c the resolution of kernel/fs/vfs.c can reach.
use ronin_os.Base.{
  ℕ, zero, suc, ◌+◌, ◌≤◌, ◌≡◌, sym, subst, Bool, true, false, ◌&&◌, Option, some, List, [], ◌∷◌,
  arith, length, length-take, Bool-cases, Option-cases, inl, inr,
}
use ronin_os.Text.Strings.{text_eq, text_eq_iff}
use ronin_os.Vfs.Normal.{next_segment}
use ronin_os.Vfs.Mounts
use ronin_os.Vfs.Mounts.{resolve_on_mount}
use ronin_os.Vfs.Segments.{next_segment-run, run, skip_slashes-cases}
use ronin_os.Initrd.{World, Initrd, NodePtr, null, root, file, initrd_lookup, initrd_ops}
use ronin_os.Initrd

-- What holds of the start and of every answer to a segment of at most 23 bytes holds of the result.
lookup_loop-keeps :
    {N : Type 0} (P : N → Type 0) (lookup : N → List ℕ → Option (N × Bool))
    → ((n next : N) (seg : List ℕ) (d : Bool)
        → length seg ≤ 23
        → lookup n seg ≡ some (next, d)
        → P next)
    → (fuel : ℕ) (cur : N) (is_dir : Bool) (t : List ℕ) (r : N) (d : Bool) → P cur
    → Mounts.lookup_loop fuel lookup cur is_dir t ≡ some (r, d)
    → P r
unfolding Mounts.lookup_loop
lookup_loop-keeps P lookup k zero cur is_dir t r d h e = cc
lookup_loop-keeps P lookup k (suc fuel) cur is_dir [] r d h e =
    subst P (let same : cur ≡ r = cc in same) h
lookup_loop-keeps P lookup k (suc fuel) cur false (b ∷ bs) r d h e = cc
lookup_loop-keeps P lookup k (suc fuel) cur true (b ∷ bs) r d h e =
    elim (skip_slashes-cases (b ∷ bs)) [
      | inl s ↦
          let g = rw (s, Mounts.lookup_loop) at e in subst P (let same : cur ≡ r = cc in same) h
      | inr (c, cs, s, _) ↦
          let g = rw (s, Mounts.lookup_loop) at e in
          let short : length (next_segment (c ∷ cs)).0 ≤ 23 =
            subst (λ q. length q.0 ≤ 23) (sym (next_segment-run (c ∷ cs)))
              (omega (arith, length-take 23 (run (c ∷ cs)))) in
          elim (Option-cases (lookup cur (next_segment (c ∷ cs)).0)) [
            | inl f ↦ absurd (let a = rw f at g in cc)
            | inr ((next, dir), f) ↦
                lookup_loop-keeps P lookup k fuel next dir (next_segment (c ∷ cs)).1 r d
                  (k cur next (next_segment (c ∷ cs)).0 dir short f) (rw f at g)
          ]
    ]

lookup_loop-name :
    (rounds : ℕ) (s : Initrd) (name : List ℕ) (i : ℕ) (n : NodePtr) (d : Bool)
    → Initrd.lookup_loop rounds s name i ≡ some (n, d)
    → (j : ℕ) × (n ≡ file j) × ((s.files j).used ≡ true) × ((s.files j).name ≡ name)
unfolding Initrd.lookup_loop
lookup_loop-name zero s name i n d e = cc
lookup_loop-name (suc rounds) s name i n d e =
    elim (Bool-cases ((s.files i).used && text_eq (s.files i).name name)) [
      | inl h ↦
          let g = rw h at e in
          let used : (s.files i).used ≡ true = ground arith in
          let same : text_eq (s.files i).name name ≡ true = ground arith in
          (i, (let q : n ≡ file i = cc in q), used, (text_eq_iff (s.files i).name name).0 same)
      | inr h ↦ lookup_loop-name rounds s name (i + 1) n d (rw h at e)
    ]

-- The root, or a file in use whose name is at most 23 bytes long.
pub data Reachable (w : World) : NodePtr → Type 0 where
  the_root : Reachable w root
  short_name :
      (j : ℕ)
      → (w.initrd.files j).used ≡ true
      → length (w.initrd.files j).name ≤ 23
      → Reachable w (file j)

initrd_lookup-Reachable :
    (w : World) (n next : NodePtr) (seg : List ℕ) (d : Bool)
    → length seg ≤ 23
    → initrd_lookup w n seg ≡ some (next, d)
    → Reachable w next
initrd_lookup-Reachable w null next seg d l e = cc
initrd_lookup-Reachable w (file i) next seg d l e = cc
initrd_lookup-Reachable w root next seg d l e =
    let (j, q, used, name) = lookup_loop-name w.initrd.count w.initrd seg 0 next d e in
    subst (Reachable w) (sym q) (short_name j used (subst (λ t. length t ≤ 23) (sym name) l))

-- Whatever the path below /initrd is, a file that it resolves to is in use and has a name of at most 23
-- bytes: a boot module whose name is longer, up to the 31 bytes that its entry holds, is out of reach.
pub resolve_on_mount-Reachable :
    (w : World) (subpath : List ℕ) (n : NodePtr) (d : Bool)
    → resolve_on_mount initrd_ops w subpath ≡ some (n, d)
    → Reachable w n
unfolding resolve_on_mount
resolve_on_mount-Reachable w subpath n d e =
    lookup_loop-keeps (Reachable w) (initrd_lookup w) (initrd_lookup-Reachable w)
      (suc (length subpath)) root true subpath n d the_root e
