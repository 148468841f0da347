-- ===== src/Initrd/Modules.antt =====
-- initrd_mount_from_multiboot of kernel/fs/initrd.c: that it ends, and the files that it leaves.
use ronin_os.Base.{
  ℕ, zero, suc, ◌+◌, ◌/◌, ◌%◌, ◌^◌, ◌≤◌, ◌<◌, ◌≡◌, refl, subst, true, not, ◌||◌, Option, some, List,
  [], ◌∷◌, arith, ◌==◌, ==_iff, ltb, length, take, length-take, Bool-cases, Option-cases, inl, inr,
  add32, sub32,
}
use ronin_os.Multiboot.{Bytes, bootloader_magic, total_size, tag_type, tag_type_module}
use ronin_os.Multiboot.Walks.{Reached, Tagged, walk_tags-ends, walk_tags-keeps}
use ronin_os.Vfs.{Vfs}
use ronin_os.Vfs.Mounts.{vfs_mount}
use ronin_os.Initrd.{
  Initrd, World, NodePtr, digits_loop, append_u32, or_module, basename_from_cmdline, before_space,
  behind_slash, no_files, text_at, add_file, module_tag, initrd_path, initrd_ops,
  initrd_mount_from_multiboot,
}

-- At most 32 files, each in use with a name that fits its entry.
pub record IsValid (s : Initrd) : Type 0 where
  pub count_in : s.count ≤ 32
  pub used : (i : ℕ) → i < s.count → (s.files i).used ≡ true
  pub named : (i : ℕ) → i < s.count → (0 < length (s.files i).name) × (length (s.files i).name < 32)

digits_loop_le :
    (rounds n : ℕ) (out : List ℕ) → length (digits_loop rounds n out) ≤ rounds + length out
unfolding digits_loop
digits_loop_le zero n out = omega arith
digits_loop_le (suc rounds) n out =
    ground (arith, digits_loop_le rounds (n / 10) ((48 + n % 10) ∷ out))

append_u32_le : (n : ℕ) → length (append_u32 n) ≤ 10
unfolding append_u32
append_u32_le n = ground (arith, digits_loop_le 10 n [])

or_module-length :
    (name : List ℕ) (idx : ℕ)
    → length name ≤ 31
    → (0 < length (or_module name idx)) × (length (or_module name idx) < 32)
or_module-length [] idx l = (let a = append_u32_le idx in (omega arith, omega arith))
or_module-length (c ∷ cs) idx l = (omega arith, omega arith)

basename-length :
    (cmdline : List ℕ) (idx : ℕ)
    → let name = basename_from_cmdline cmdline 32 idx in (0 < length name) × (length name < 32)
unfolding basename_from_cmdline
basename-length cmdline idx =
    let word = before_space cmdline in
    or_module-length (take 31 (behind_slash word word)) idx
      (omega (arith, length-take 31 (behind_slash word word)))

add_file-IsValid :
    (m : Bytes) (s : Initrd) (tag : ℕ) (cmdline : List ℕ) (idx : ℕ)
    → IsValid s
    → IsValid (add_file m s tag cmdline idx)
add_file-IsValid m s tag cmdline idx v = elim (Bool-cases (ltb s.count 32)) [
  | inr full ↦ rw full v
  | inl room ↦ rw room (record {
    count_in = ground arith;
    used = λ i l. elim (Bool-cases (i == s.count)) [
      | inl e ↦ rw e refl
      | inr e ↦ rw e (v.used i (ground arith))
    ];
    named = λ i l. elim (Bool-cases (i == s.count)) [
      | inl e ↦ rw e (basename-length cmdline idx)
      | inr e ↦ rw e (v.named i (ground arith))
    ];
  })
]

module_tag-IsValid :
    (rounds : ℕ) (m : Bytes) (a b : Initrd × ℕ) (tag : ℕ)
    → IsValid a.0
    → module_tag rounds m a tag ≡ some b
    → IsValid b.0
unfolding module_tag
module_tag-IsValid rounds m (s, idx) b tag v e =
    elim (Bool-cases (tag_type m tag == tag_type_module)) [
      | inr other ↦
          let g = rw other at e in subst (λ x. IsValid x.0) (let same : (s, idx) ≡ b = cc in same) v
      | inl module_kind ↦
          let g = rw module_kind at e in
          elim (Option-cases (text_at rounds m (tag + 16))) [
            | inl f ↦ absurd (let h = rw f at g in cc)
            | inr (cmdline, f) ↦
                let h = rw f at g in
                subst (λ x. IsValid x.0)
                  (let same : (add_file m s tag cmdline idx, add32 idx 1) ≡ b = cc in same)
                  (add_file-IsValid m s tag cmdline idx v)
          ]
    ]

-- The information is well-formed: its tags are, and the command line of each module ends.
pub record WellFormed (rounds : ℕ) (m : Bytes) (info : ℕ) : Type 0 where
  pub tagged : Tagged m (sub32 (add32 info (total_size m info)) 8) (add32 info 8)
  pub commands :
      (t : ℕ)
      → Reached m (sub32 (add32 info (total_size m info)) 8) (add32 info 8) t
      → tag_type m t ≡ tag_type_module
      → (cmdline : List ℕ) × (text_at rounds m (t + 16) ≡ some cmdline)

module_tag-ends :
    (rounds : ℕ) (m : Bytes) (a : Initrd × ℕ) (tag : ℕ)
    → (tag_type m tag ≡ tag_type_module
        → (cmdline : List ℕ) × (text_at rounds m (tag + 16) ≡ some cmdline))
    → (b : Initrd × ℕ) × (module_tag rounds m a tag ≡ some b)
unfolding module_tag
module_tag-ends rounds m (s, idx) tag h = elim (Bool-cases (tag_type m tag == tag_type_module)) [
  | inr other ↦ ((s, idx), rw other refl)
  | inl module_kind ↦
      let (cmdline, f) = h ((==_iff (tag_type m tag) 3).0 module_kind) in
      ((add_file m s tag cmdline idx, add32 idx 1), rw module_kind (rw f refl))
]

no_files-IsValid : IsValid no_files
no_files-IsValid = record {
  count_in = omega arith;
  used = λ i l. absurd (omega arith);
  named = λ i l. absurd (omega arith);
}

-- What initrd_mount_from_multiboot leaves: the memory as it was, and valid files.
pub data MountedFiles (w : World) (r : Option (Vfs World NodePtr × World)) : Type 0 where
  mounted :
      (v' : Vfs World NodePtr) (s : Initrd)
      → r ≡ some (v', record w { initrd = s })
      → IsValid s
      → MountedFiles w r

-- initrd_mount_from_multiboot of well-formed information, with as many rounds for its walk as there are
-- addresses, ends, whatever the state of the mounts: it leaves at most 32 files, each in use and with a
-- name of 1 to 31 bytes, and the memory as it was.
pub initrd_mount_from_multiboot-MountedFiles :
    (rounds : ℕ) (v : Vfs World NodePtr) (w : World) (magic info : ℕ)
    → WellFormed rounds w.memory info
    → 2 ^ 32 ≤ rounds
    → MountedFiles w (initrd_mount_from_multiboot rounds v w magic info)
unfolding initrd_mount_from_multiboot
initrd_mount_from_multiboot-MountedFiles rounds v w magic info h r =
    elim (Option-cases (vfs_mount v (some initrd_path) (some initrd_ops))) [
      | inl e ↦ rw (e, initrd_mount_from_multiboot) (mounted v no_files refl no_files-IsValid)
      | inr (v', e) ↦ elim (Bool-cases (not (magic == bootloader_magic) || info == 0)) [
        | inl f ↦
            rw (e, initrd_mount_from_multiboot) (rw f (mounted v' no_files refl no_files-IsValid))
        | inr f ↦
            let m = w.memory in
            let end = sub32 (add32 info (total_size m info)) 8 in
            let ((s, idx), q) =
              walk_tags-ends m (module_tag rounds m) rounds (add32 info 8) end (no_files, 0)
                (λ a t i l. module_tag-ends rounds m a t (h.commands t i)) h.tagged (omega arith) in
            let valid =
              walk_tags-keeps (λ a. IsValid a.0) m (module_tag rounds m)
                (λ a b t. module_tag-IsValid rounds m a b t) rounds (add32 info 8) end (no_files, 0)
                no_files-IsValid q in
            rw (e, initrd_mount_from_multiboot) (rw f (rw q (mounted v' s refl valid)))
      ]
    ]
