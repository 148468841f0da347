-- ===== src/Shell/Valid.antt =====
-- The line editor of kernel/shell/shell.c keeps its buffers well-formed.
use ronin_os.Base.{
  ℕ, zero, suc, ◌+◌, ◌-◌, ◌≤◌, ◌<◌, ◌≡◌, refl, ◌≢◌, ◌∙◌, ap, sym, Bool, true, false, ◌&&◌, Option,
  none, some, arith, ◌==◌, ==_iff, leb, ltb, if◌then◌else◌, Bool-cases, inl, inr,
}
use ronin_os.Shell.{Shell, Buffer, poke, load_loop, shift_up, shift_down, skip_left, skip_right}

-- A text of `len` bytes, at most 127, none of them NUL, with a NUL behind it.
pub record Text (b : Buffer) (len : ℕ) : Type 0 where
  pub short : len ≤ 127
  pub full : (q : ℕ) → q < len → b q ≢ 0
  pub ends : b len ≡ 0

abbrev pub IndexIn : Option ℕ → ℕ → Type 0
IndexIn none count = Unit
IndexIn (some i) count = i < count

-- The cursor stands inside a text, and so the history entries in use are texts.
pub record IsValid (s : Shell) : Type 0 where
  pub text : Text s.line s.len
  pub cursor_in : s.cursor ≤ s.len
  pub count_in : s.hist_count ≤ 32
  pub index_in : IndexIn s.hist_index s.hist_count
  pub entries : (j : ℕ) → j < s.hist_count → (n : ℕ) × Text (s.history j) n

-- Moving bytes up by one makes room at the lower end.
pub shift_up-at :
    (rounds : ℕ) (b : Buffer) (i q : ℕ)
    → rounds ≤ i
    → shift_up rounds b i q ≡ (if ltb (i - rounds) q && leb q i then b (q - 1) else b q)
unfolding shift_up
shift_up-at zero b i q l = ground arith
shift_up-at (suc rounds) b i q l =
    let ih = shift_up-at rounds (poke b i (b (i - 1))) (i - 1) q (omega arith) in
    elim (Bool-cases (q == i)) [
      | inl same ↦
          let above : (ltb (i - 1 - rounds) q && leb q (i - 1)) ≡ false = ground arith in
          let inside : (ltb (i - suc rounds) q && leb q i) ≡ true = ground arith in
          let at : q ≡ i = (==_iff q i).0 same in
          rw inside (ih ∙ rw above (rw same (ap (λ k. b (k - 1)) (sym at))))
      | inr other ↦
          let bound : leb q i ≡ leb q (i - 1) = ground arith in
          let low : ltb (i - suc rounds) q ≡ ltb (i - 1 - rounds) q = ground arith in
          elim (Bool-cases (ltb (i - 1 - rounds) q && leb q (i - 1))) [
            | inl h ↦
                let below : (q - 1 == i) ≡ false = ground arith in
                rw (low, bound) (rw h (ih ∙ rw h (rw below refl)))
            | inr h ↦ rw (low, bound) (rw h (ih ∙ rw h (rw other refl)))
          ]
    ]

pub shift_down-at :
    (rounds : ℕ) (b : Buffer) (i q : ℕ)
    → shift_down rounds b i q ≡ (if leb i q && ltb q (i + rounds) then b (q + 1) else b q)
unfolding shift_down
shift_down-at zero b i q = ground arith
shift_down-at (suc rounds) b i q =
    ground (arith, shift_down-at rounds (poke b i (b (i + 1))) (i + 1) q)

pub skip_left-le : (spaces : Bool) (b : Buffer) (c : ℕ) → skip_left spaces b c ≤ c
unfolding skip_left
skip_left-le spaces b zero = omega arith
skip_left-le spaces b (suc c) = ground (arith, skip_left-le spaces b c)

pub skip_right-le :
    (spaces : Bool) (rounds : ℕ) (b : Buffer) (c : ℕ) → skip_right spaces rounds b c ≤ c + rounds
unfolding skip_right
skip_right-le spaces zero b c = omega arith
skip_right-le spaces (suc rounds) b c = ground (arith, skip_right-le spaces rounds b (c + 1))

-- history_load of a text copies it.
pub load_loop-Text :
    (rounds : ℕ) (from line : Buffer) (i n : ℕ)
    → Text from n
    → i ≤ n
    → n ≤ i + rounds
    → let r = load_loop rounds from line i in
      (r.1 ≡ n) × ((q : ℕ) → r.0 q ≡ (if leb i q && ltb q n then from q else line q))
unfolding load_loop
load_loop-Text zero from line i n t lo hi = (omega arith, λ q. ground arith)
load_loop-Text (suc rounds) from line i n t lo hi = elim (Bool-cases (from i == 0)) [
  | inl z ↦
      let at_end : i ≡ n = (let f = t.full i in ground arith) in rw z (at_end, λ q. ground arith)
  | inr z ↦
      let before : i < n =
        (let apart : i ≢ n = (λ e. (let k = ap from e ∙ t.ends in ground arith)) in omega arith) in
      let ih =
        load_loop-Text rounds from (poke line i (from i)) (i + 1) n t (omega arith) (omega arith) in
      rw z (ih.0, λ q. ground (arith, ih.1 q))
]
