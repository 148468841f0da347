-- ===== src/Initrd/Tests.antt =====
-- An initrd of one module, named a.
use ronin_os.Base.{
  ℕ, ◌+◌, ◌^◌, ◌≤◌, ◌≡◌, refl, ap, sym, subst, true, false, some, ◌⊎◌, [], ◌∷◌, arith, ◌==◌,
  if◌then◌else◌, inl, inr,
}
use ronin_os.Multiboot.{Bytes, read32, tag_end, bootloader_magic, tag_type, tag_size}
use ronin_os.Multiboot.Walks.{Reached, here, after}
use ronin_os.Text.Strings.{text_eq}
use ronin_os.Vfs.{vfs_init}
use ronin_os.Vfs.Mounts
use ronin_os.Vfs.Mounts.{resolve_on_mount}
use ronin_os.Vfs.Normal.{next_segment}
use ronin_os.Initrd
use ronin_os.Initrd.{
  World, Initrd, null, file, initrd_ops, text_at, no_files, basename_from_cmdline,
  initrd_mount_from_multiboot,
}
use ronin_os.Initrd.Names.{Reachable, resolve_on_mount-Reachable}
use ronin_os.Initrd.Modules.{WellFormed, MountedFiles, initrd_mount_from_multiboot-MountedFiles}

-- The information at 256: one module of 16 bytes at 0x2000, and the end.
abbrev one_module : Bytes
one_module a =
    if a == 0x100
    then 0x28
    else if a == 0x108
    then 3
    else if a == 0x10c
    then 18
    else if a == 0x111
    then 0x20
    else if a == 0x114
    then 0x10
    else if a == 0x115
    then 0x20
    else if a == 0x118
    then 97
    else if a == 0x124
    then 8
    else 0

two_tags_from :
    (a t : ℕ) → Reached one_module 0x120 a t → (a ≡ 0x108) ⊎ (a ≡ 0x120) → (t ≡ 0x108) ⊎ (t ≡ 0x120)
unfolding read32 tag_end
two_tags_from a t here e = e
two_tags_from a t (after l n r) (inl e) = two_tags_from _ t r (inr (ap (tag_end one_module) e))
two_tags_from a t (after l n r) (inr e) = absurd (n (ap (read32 one_module) e))

one_module-WellFormed : WellFormed (2 ^ 32) one_module 0x100
unfolding read32 text_at
one_module-WellFormed = record {
  tagged = λ t r l n. elim (two_tags_from 0x108 t r (inl refl)) [
    | inl e ↦
        subst (λ u. (8 ≤ tag_size one_module u) × (u + tag_size one_module u + 8 ≤ 2 ^ 32)) (sym e)
          (omega arith, omega arith)
    | inr e ↦ absurd (n (ap (read32 one_module) e))
  ];
  commands = λ t r k. elim (two_tags_from 0x108 t r (inl refl)) [
    | inl e ↦ (97 ∷ [], ap (λ u. text_at (2 ^ 32) one_module (u + 16)) e)
    | inr e ↦ absurd (omega (arith, k, ap (tag_type one_module) e))
  ];
}

abbrev before_boot : World
before_boot = record { memory = one_module; initrd = no_files }

initrd_mount_from_multiboot-MountedFiles_example :
    MountedFiles before_boot
      (initrd_mount_from_multiboot (2 ^ 32) (vfs_init null) before_boot bootloader_magic 0x100)
initrd_mount_from_multiboot-MountedFiles_example =
    initrd_mount_from_multiboot-MountedFiles (2 ^ 32) (vfs_init null) before_boot bootloader_magic
      0x100 one_module-WellFormed (omega arith)

-- The base name of b/k.m, with an argument behind it.
basename :
    basename_from_cmdline (98 ∷ 47 ∷ 107 ∷ 46 ∷ 109 ∷ 32 ∷ 47 ∷ 104 ∷ []) 32 0 ≡ 107 ∷ 46 ∷ 109 ∷ []
unfolding basename_from_cmdline
basename = refl

abbrev loaded : World
loaded = record {
  memory = one_module;
  initrd = record {
    files = λ i.
        if i == 0
        then record { used = true; data_at = 0x2000; size = 16; name = 97 ∷ [] }
        else no_files.files i;
    count = 1;
  };
}

loaded_a : resolve_on_mount initrd_ops loaded (97 ∷ []) ≡ some (file 0, false)
unfolding resolve_on_mount Mounts.lookup_loop Initrd.lookup_loop next_segment text_eq
loaded_a = refl

resolve_on_mount-Reachable_example : Reachable loaded (file 0)
resolve_on_mount-Reachable_example =
    resolve_on_mount-Reachable loaded (97 ∷ []) (file 0) false loaded_a
