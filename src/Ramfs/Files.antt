-- ===== src/Ramfs/Files.antt =====
-- ramfs_write and ramfs_read of kernel/fs/ramfs.c on a file of the root.
use ronin_os.Base.{
  ℕ, ◌+◌, ◌-◌, ◌≤◌, ◌<◌, ◌≡◌, refl, ◌≢◌, ◌∙◌, ap, sym, subst, Bool, true, false, some, List, ◌∷◌,
  arith, ◌==◌, leb, ltb, if◌then◌else◌, length, get_or, min,
}
use ronin_os.Ramfs.{Nodes, put, copy_bytes, success, node_find_child, find_loop}
use ronin_os.Ramfs.Walks.{IsTree, Chain, find_loop-in, find_in-frame, Chain-frame, IsSame}
use ronin_os.Ramfs.Entries.{
  write_text, ramfs_write, ramfs_touch, ramfs_read, write_touched, Code, faults, zero_code,
}

-- Where the text goes.
abbrev pub offset_of : Nodes → ℕ → Bool → ℕ
offset_of s idx append = if append then (s idx).size else 0

-- The file `idx` holds what it held up to the offset, then the text, up to 511 bytes, and a NUL.
pub record Stored (s s' : Nodes) (idx : ℕ) (text : List ℕ) (off : ℕ) : Type 0 where
  pub size : (s' idx).size ≡ min 511 (off + length text)
  pub before : (q : ℕ) → q < off → (s' idx).content q ≡ (s idx).content q
  pub bytes : (q : ℕ) → off + q < (s' idx).size → (s' idx).content (off + q) ≡ get_or text q 0
  pub terminated : (s' idx).content (s' idx).size ≡ 0
  pub others : (j : ℕ) → j ≢ idx → s' j ≡ s j
  pub same : (j : ℕ) → IsSame (s j) (s' j)
  pub links : (j : ℕ) → (s' j).first_child ≡ (s j).first_child
  pub same_kind : (s' idx).is_dir ≡ (s idx).is_dir

write_text-Stored :
    (s : Nodes) (idx : ℕ) (text : List ℕ) (append : Bool)
    → offset_of s idx append ≤ 511
    → ((write_text s idx text append).1 ≡ zero_code)
      × Stored s (write_text s idx text append).0 idx text (offset_of s idx append)
unfolding write_text
write_text-Stored s idx text append l =
    let off = offset_of s idx append in
    let open_file : ltb 511 off ≡ false = ground arith in
    let len = if leb 512 (off + length text) then 511 - off else length text in
    let copied = copy_bytes (s idx).content off (λ k. get_or text k 0) 0 len in
    let s2 = put s idx (record (s idx) {
      content = λ q. if q == off + len then 0 else copied q;
      size = off + len;
    }) in
    rw open_file (
      refl,
      record {
        size = ground arith;
        before = λ q k. ground arith;
        bytes = λ q k.
            (let i : 0 + (off + q - off) ≡ q = omega arith in
              let w = ap (λ p. get_or text p 0) i in ground arith);
        terminated = ground arith;
        others = λ j k. ground arith;
        same = λ j. record {
          next_sibling = ground arith;
          used = ground arith;
          parent = ground arith;
          name = ground arith;
        };
        links = λ j. ground arith;
        same_kind = ground arith;
      },
    )

touch_found :
    (rounds : ℕ) (s : Nodes) (x : ℕ) (xs : List ℕ) (idx : ℕ)
    → node_find_child rounds s 0 (x ∷ xs) ≡ success idx
    → ramfs_touch rounds s (some (x ∷ xs)) ≡ (s, zero_code)
unfolding ramfs_touch
touch_found rounds s x xs idx f = rw (f, ramfs_touch) refl

write_found :
    (rounds : ℕ) (s : Nodes) (x : ℕ) (xs : List ℕ) (idx : ℕ) (text : List ℕ) (append : Bool)
    → node_find_child rounds s 0 (x ∷ xs) ≡ success idx
    → ramfs_write rounds s (some (x ∷ xs)) (some text) append ≡ write_text s idx text append
unfolding ramfs_write write_touched
write_found rounds s x xs idx text append f =
    ap (λ r. write_touched rounds r (x ∷ xs) (some text) append) (touch_found rounds s x xs idx f)
    ∙ rw (f, write_touched) refl

-- The result of ramfs_write and ramfs_read on the file of a name.
pub record FileWritten (s : Nodes) (rounds : ℕ) (name : List ℕ) (idx : ℕ) (text : List ℕ) (off : ℕ)
    (r : Nodes × Code) : Type 0 where
  pub code : r.1 ≡ zero_code
  pub stored : Stored s r.0 idx text off
  pub read_back : ramfs_read rounds r.0 name ≡ success ((r.0 idx).content, (r.0 idx).size)

-- ramfs_write to a file of the root that exists, in a tree with a round for each entry of the root,
-- returns 0 if the offset, 0 or for appending the size, is at most 511. The file then holds its old
-- bytes up to the offset and the text behind them, cut at 511 bytes, with a NUL after it; ramfs_read
-- of the name gives this content and size, and no other entry changes.
pub ramfs_write-FileWritten :
    (rounds : ℕ) (s : Nodes) (kids : ℕ → List ℕ) (x : ℕ) (xs : List ℕ) (idx : ℕ) (text : List ℕ)
    (append : Bool)
    → IsTree s kids
    → length (kids 0) ≤ rounds
    → node_find_child rounds s 0 (x ∷ xs) ≡ success idx
    → (s idx).is_dir ≡ false
    → offset_of s idx append ≤ 511
    → FileWritten s rounds
        (x ∷ xs)
        idx
        text
        (offset_of s idx append)
        (ramfs_write rounds s (some (x ∷ xs)) (some text) append)
unfolding ramfs_read node_find_child
ramfs_write-FileWritten rounds s kids x xs idx text append t le f d l =
    let h = t.directory 0 t.root_used t.root_dir in
    let w = write_text-Stored s idx text append l in
    let s' = (write_text s idx text append).0 in
    let root : (s' 0).first_child ≡ (s 0).first_child = w.1.links 0 in
    let again : find_loop rounds s' (s' 0).first_child (x ∷ xs) ≡ success idx =
      find_loop-in rounds s' _ (kids 0) (x ∷ xs)
        (subst (λ c. Chain s' c (kids 0)) (sym root)
          (Chain-frame (λ j u. w.1.same j) 0 _ (kids 0) h.listed h.chain))
        le
      ∙ find_in-frame (λ j u. w.1.same j) 0 (kids 0) (x ∷ xs) h.listed
      ∙ sym (find_loop-in rounds s _ (kids 0) (x ∷ xs) h.chain le)
      ∙ f in
    let calls : ramfs_write rounds s (some (x ∷ xs)) (some text) append
        ≡ write_text s idx text append =
      write_found rounds s x xs idx text append f in
    subst (FileWritten s rounds (x ∷ xs) idx text (offset_of s idx append)) (sym calls) (record {
      code = w.0;
      stored = w.1;
      read_back = rw (again, ramfs_read) (rw (w.1.same_kind ∙ d) refl);
    })

-- Appending to a file of 512 bytes, which fs_write can make, starts a copy past the file's end.
pub ramfs_write-faults :
    (rounds : ℕ) (s : Nodes) (x : ℕ) (xs : List ℕ) (idx : ℕ) (text : List ℕ)
    → node_find_child rounds s 0 (x ∷ xs) ≡ success idx
    → (s idx).size ≡ 512
    → (ramfs_write rounds s (some (x ∷ xs)) (some text) true).1 ≡ faults
unfolding write_text
ramfs_write-faults rounds s x xs idx text f e =
    ap (λ (r : Nodes × Code). r.1) (write_found rounds s x xs idx text true f) ∙ rw e refl
