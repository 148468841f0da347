-- ===== src/Ramfs/Content.antt =====
-- Reading and writing the files of kernel/fs/ramfs.c.
use ronin_os.Base.{
  ℕ, ◌+◌, ◌-◌, ◌≤◌, ◌<◌, ◌≡◌, refl, ◌≢◌, ◌∙◌, ap, sym, false, some, arith, ◌==◌, leb, ltb,
  if◌then◌else◌, Bool-cases, inl, inr, min, max,
}
use ronin_os.Ramfs.{Nodes, put, copy_bytes, at_most, fs_read, fs_write}

-- What fs_write does to a file `f` and how fs_read of the same range answers.
pub record Written (s s' : Nodes) (f offset : ℕ) (buf : ℕ → ℕ) (n can : ℕ) : Type 0 where
  pub count : can ≡ min n (512 - offset)
  pub same_kind : (s' f).is_dir ≡ (s f).is_dir
  pub new_size : (s' f).size ≡ max (s f).size (offset + can)
  pub bounded : (s' f).size ≤ 512
  pub before : (q : ℕ) → q < offset → (s' f).content q ≡ (s f).content q
  pub written : (q : ℕ) → q < can → (s' f).content (offset + q) ≡ buf q
  pub after : (q : ℕ) → offset + can ≤ q → (s' f).content q ≡ (s f).content q
  pub others : (j : ℕ) → j ≢ f → s' j ≡ s j

-- fs_write to a file of at most 512 bytes, at an offset inside it or at its end, writes as many of
-- the bytes as fit below 512, keeps the other bytes and entries, and grows the file to hold them.
pub fs_write-Written :
    (s : Nodes) (f offset : ℕ) (buf : ℕ → ℕ) (n : ℕ)
    → (s f).is_dir ≡ false
    → (s f).size ≤ 512
    → offset ≤ (s f).size
    → (s' : Nodes) × (can : ℕ) × (fs_write s (some f) offset (some buf) n ≡ some (s', can))
      × Written s s' f offset buf n can
unfolding fs_write
fs_write-Written s f offset buf n d m o = elim (Bool-cases (at_most (512 - offset) n == 0)) [
  | inl z ↦ (
    s,
    0,
    ground arith,
    record {
      count = ground arith;
      same_kind = refl;
      new_size = omega arith;
      bounded = m;
      before = λ q l. refl;
      written = λ q l. absurd (omega arith);
      after = λ q l. refl;
      others = λ j k. refl;
    },
  )
  | inr z ↦
      let can = at_most (512 - offset) n in
      let s2 = put s f (record (s f) {
        content = copy_bytes (s f).content offset buf 0 can;
        size = if ltb (s f).size (offset + can) then offset + can else (s f).size;
      }) in
      (
        s2,
        can,
        (let g : ltb (s f).size offset ≡ false = ground arith in rw d (rw g (rw z refl))),
        record {
          count = ground arith;
          same_kind = ground arith;
          new_size = ground arith;
          bounded = ground arith;
          before = λ q l. ground arith;
          written = λ q l.
              (let i : 0 + (offset + q - offset) ≡ q = omega arith in
                let k = ap buf i in ground arith);
          after = λ q l. ground arith;
          others = λ j k. ground arith;
        },
      )
]

-- What fs_write has written to a file, fs_read of the same range gives back, and no more.
pub fs_read-fs_write :
    (s : Nodes) (f offset : ℕ) (buf into : ℕ → ℕ) (n : ℕ)
    → (s f).is_dir ≡ false
    → (s f).size ≤ 512
    → offset ≤ (s f).size
    → (s' : Nodes) × (can : ℕ) × (fs_write s (some f) offset (some buf) n ≡ some (s', can))
      × (got : ℕ → ℕ) × (fs_read s' (some f) offset (some into) can ≡ some (got, can))
      × ((q : ℕ) → got q ≡ (if ltb q can then buf q else into q))
unfolding fs_read
fs_read-fs_write s f offset buf into n d m o =
    let (s', can, e, w) = fs_write-Written s f offset buf n d m o in
    let kind : (s' f).is_dir ≡ false = w.same_kind ∙ d in
    elim (Bool-cases (leb (s' f).size offset)) [
      | inl past ↦
          let none_read : can ≡ 0 = (let k = w.new_size in ground arith) in
          (
            s',
            can,
            e,
            into,
            rw kind (rw past (ap (λ k. some (into, k)) (sym none_read))),
            λ q. ground arith,
          )
      | inr more ↦
          let all : at_most ((s' f).size - offset) can ≡ can =
            (let k = w.new_size in ground arith) in
          (
            s',
            can,
            e,
            copy_bytes into 0 (s' f).content offset can,
            rw kind (rw more (ap (λ k. some (copy_bytes into 0 (s' f).content offset k, k)) all)),
            λ q. ground (arith, w.written q),
          )
    ]
