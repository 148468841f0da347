-- ===== src/Ramfs/Tests.antt =====
-- The file system in memory with one file in the root.
use ronin_os.Base.{
  ℕ, ◌≡◌, refl, true, false, some, List, [], ◌∷◌, arith, ◌==◌, if◌then◌else◌, ltb, Bool-cases, inl,
  inr,
}
use ronin_os.Text.Strings.{text_eq}
use ronin_os.Ramfs.{
  Nodes, put, node_alloc, alloc_loop, s_copy, success, node_find_child, find_loop,
  node_create_child, created, fs_read, fs_write,
}
use ronin_os.Ramfs.Entries.{
  ramfs_init, ramfs_touch, ramfs_write, ramfs_remove, remove_loop, zero_code, faults,
}
use ronin_os.Ramfs.Walks.{IsTree}
use ronin_os.Ramfs.Create.{grown, node_create_child-IsTree}
use ronin_os.Ramfs.Content.{fs_read-fs_write}
use ronin_os.Ramfs.Files.{FileWritten, ramfs_write-FileWritten, ramfs_write-faults}

abbrev no_kids : ℕ → List ℕ
no_kids d = []

ramfs_init-IsTree : IsTree ramfs_init no_kids
unfolding ramfs_init
ramfs_init-IsTree = record {
  root_used = refl;
  root_dir = refl;
  directory = λ d u v. elim (Bool-cases (0 == d)) [
    | inl q ↦ record { chain = rw q refl; listed = tt }
    | inr q ↦ absurd (let k = rw q at u in cc)
  ];
}

-- The text "a".
abbrev name_a : List ℕ
name_a = 97 ∷ []

one_file : Nodes
one_file = (node_create_child 96 ramfs_init 0 name_a false).0

creates : node_create_child 96 ramfs_init 0 name_a false ≡ (one_file, created 1)
unfolding one_file node_create_child node_find_child find_loop node_alloc alloc_loop s_copy
    ramfs_init
creates = refl

one_file-IsTree : IsTree one_file (grown no_kids 0 1)
one_file-IsTree =
    (node_create_child-IsTree 96 ramfs_init one_file no_kids 0 1 name_a false ramfs_init-IsTree
      ramfs_init-IsTree.root_used ramfs_init-IsTree.root_dir (omega arith) creates).0

touch_again : ramfs_touch 96 one_file (some name_a) ≡ (one_file, zero_code)
unfolding ramfs_touch one_file node_create_child node_find_child find_loop node_alloc alloc_loop
    s_copy ramfs_init text_eq
touch_again = refl

removes : (ramfs_remove 96 one_file name_a).1 ≡ zero_code
unfolding ramfs_remove remove_loop one_file node_create_child node_find_child find_loop node_alloc
    alloc_loop s_copy ramfs_init text_eq
removes = refl

finds_a : node_find_child 96 one_file 0 name_a ≡ success 1
unfolding one_file node_create_child node_find_child find_loop node_alloc alloc_loop s_copy
    ramfs_init text_eq
finds_a = refl

a_is_file : (one_file 1).is_dir ≡ false
unfolding one_file node_create_child node_find_child find_loop node_alloc alloc_loop s_copy
    ramfs_init
a_is_file = refl

a_size : (one_file 1).size ≡ 0
unfolding one_file node_create_child node_find_child find_loop node_alloc alloc_loop s_copy
    ramfs_init
a_size = refl

-- The file filled to its last byte.
abbrev full_file : Nodes
full_file = put one_file 1 (record (one_file 1) { size = 512 })

finds_full : node_find_child 96 full_file 0 name_a ≡ success 1
unfolding one_file node_create_child node_find_child find_loop node_alloc alloc_loop s_copy
    ramfs_init text_eq
finds_full = refl

node_create_child-IsTree_example :
    IsTree one_file (grown no_kids 0 1)
    × ((one_file 1).size ≡ 0)
    × ((one_file 1).is_dir ≡ false)
    × ((n : List ℕ)
        → node_find_child 97 one_file 0 n
          ≡ (if text_eq name_a n then success 1 else node_find_child 96 ramfs_init 0 n))
node_create_child-IsTree_example =
    node_create_child-IsTree 96 ramfs_init one_file no_kids 0 1 name_a false ramfs_init-IsTree
      ramfs_init-IsTree.root_used ramfs_init-IsTree.root_dir (omega arith) creates

one_write_read :
    (s' : Nodes) × (can : ℕ) × (fs_write one_file (some 1) 0 (some (λ k. k)) 600 ≡ some (s', can))
    × (got : ℕ → ℕ) × (fs_read s' (some 1) 0 (some (λ k. 7)) can ≡ some (got, can))
    × ((q : ℕ) → got q ≡ (if ltb q can then q else 7))
one_write_read =
    fs_read-fs_write one_file 1 0 (λ k. k) (λ k. 7) 600 a_is_file (omega (arith, a_size))
      (omega arith)

ramfs_write-FileWritten_example :
    FileWritten one_file 96 name_a 1
      (104 ∷ 105 ∷ [])
      0
      (ramfs_write 96 one_file (some name_a) (some (104 ∷ 105 ∷ [])) false)
ramfs_write-FileWritten_example =
    ramfs_write-FileWritten 96 one_file (grown no_kids 0 1) 97 [] 1 (104 ∷ 105 ∷ []) false
      one_file-IsTree (omega arith) finds_a a_is_file (omega arith)

ramfs_write-faults_instance :
    (ramfs_write 96 full_file (some name_a) (some (104 ∷ [])) true).1 ≡ faults
ramfs_write-faults_instance = ramfs_write-faults 96 full_file 97 [] 1 (104 ∷ []) finds_full refl
