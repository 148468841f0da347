-- ===== src/Shell/Edit.antt =====
-- Typing and erasing in the line editor of kernel/shell/shell.c.
use ronin_os.Base.{
  ℕ, ◌+◌, ◌-◌, ◌≤◌, ◌<◌, ◌≡◌, refl, ◌≢◌, ◌∙◌, ap, sym, true, false, ◌&&◌, arith, ◌==◌, leb, ltb,
  if◌then◌else◌, Bool-cases, inl, inr,
}
use ronin_os.Shell.{Shell, Buffer, poke, shift_up, shift_down}
use ronin_os.Shell.Keys.{insert_char, erase_before, erase_at}
use ronin_os.Shell.Valid.{Text, IsValid, shift_up-at, shift_down-at}

pub edited-IsValid :
    (s : Shell) (line : Buffer) (len cursor : ℕ)
    → IsValid s
    → Text line len
    → cursor ≤ len
    → IsValid (record s { line = line; len = len; cursor = cursor })
edited-IsValid s line len cursor v t c = record {
  text = t;
  cursor_in = c;
  count_in = v.count_in;
  index_in = v.index_in;
  entries = v.entries;
}

-- `ch` stands at the cursor, the bytes behind it one place further, and the cursor behind `ch`.
pub record Inserted (s s' : Shell) (ch : ℕ) : Type 0 where
  pub len : s'.len ≡ s.len + 1
  pub cursor : s'.cursor ≡ s.cursor + 1
  pub before : (q : ℕ) → q < s.cursor → s'.line q ≡ s.line q
  pub here : s'.line s.cursor ≡ ch
  pub behind : (q : ℕ) → s.cursor ≤ q → q < s.len → s'.line (q + 1) ≡ s.line q

-- The byte at `at` is gone, the bytes behind it stand one place before, and the cursor at `at`.
pub record Erased (s s' : Shell) (at : ℕ) : Type 0 where
  pub len : s'.len + 1 ≡ s.len
  pub cursor : s'.cursor ≡ at
  pub before : (q : ℕ) → q < at → s'.line q ≡ s.line q
  pub behind : (q : ℕ) → at ≤ q → q < s'.len → s'.line q ≡ s.line (q + 1)

inserted_line : Shell → ℕ → Buffer
inserted_line s ch =
    poke (poke (shift_up (s.len - s.cursor) s.line s.len) s.cursor ch) (s.len + 1) 0

inserted_line-at :
    (s : Shell) (ch q : ℕ)
    → s.cursor ≤ s.len
    → inserted_line s ch q ≡ (
        if q == s.len + 1
        then 0
        else if q == s.cursor
        then ch
        else if ltb s.cursor q && leb q s.len
        then s.line (q - 1)
        else s.line q)
unfolding inserted_line
inserted_line-at s ch q c =
    let k = shift_up-at (s.len - s.cursor) s.line s.len q (omega arith) in
    let low : s.len - (s.len - s.cursor) ≡ s.cursor = omega arith in
    ap (λ y. if q == s.len + 1 then 0 else if q == s.cursor then ch else y)
      (k ∙ ap (λ l. if ltb l q && leb q s.len then s.line (q - 1) else s.line q) low)

inserted_line-Text :
    (s : Shell) (ch : ℕ)
    → Text s.line s.len
    → s.cursor ≤ s.len
    → s.len < 127
    → ch ≢ 0
    → Text (inserted_line s ch) (s.len + 1)
inserted_line-Text s ch t c l n = record {
  short = omega arith;
  full = λ q b z.
      (let k = sym (inserted_line-at s ch q c) ∙ z in
        let f1 = t.full q in let f2 = t.full (q - 1) in ground arith);
  ends = inserted_line-at s ch (s.len + 1) c ∙ ground arith;
}

-- The line without the byte at `at`.
erased_line : Shell → ℕ → Buffer
erased_line s at = poke (shift_down (s.len - 1 - at) s.line at) (s.len - 1) 0

erased_line-at :
    (s : Shell) (at q : ℕ)
    → at < s.len
    → erased_line s at q ≡ (
        if q == s.len - 1
        then 0
        else if leb at q && ltb q (s.len - 1)
        then s.line (q + 1)
        else s.line q)
unfolding erased_line
erased_line-at s at q c =
    let k = shift_down-at (s.len - 1 - at) s.line at q in
    let high : at + (s.len - 1 - at) ≡ s.len - 1 = omega arith in
    ap (λ y. if q == s.len - 1 then 0 else y)
      (k ∙ ap (λ l. if leb at q && ltb q l then s.line (q + 1) else s.line q) high)

erased_line-Text :
    (s : Shell) (at : ℕ) → Text s.line s.len → at < s.len → Text (erased_line s at) (s.len - 1)
erased_line-Text s at t c = record {
  short = omega (arith, t.short);
  full = λ q b z.
      (let k = sym (erased_line-at s at q c) ∙ z in
        let f1 = t.full q in let f2 = t.full (q + 1) in ground arith);
  ends = erased_line-at s at (s.len - 1) c ∙ ground arith;
}

-- A character that is typed, not NUL, into a line of less than 127 bytes is inserted at the cursor,
-- and the editor stays well-formed.
pub insert_char-Inserted :
    (s : Shell) (ch : ℕ)
    → IsValid s
    → ch ≢ 0
    → s.len < 127
    → Inserted s (insert_char s ch) ch × IsValid (insert_char s ch)
unfolding insert_char inserted_line
insert_char-Inserted s ch v n l =
    let room : ltb s.len 127 ≡ true = ground arith in
    let c = v.cursor_in in
    rw room (
      record {
        len = refl;
        cursor = refl;
        before = λ q b. inserted_line-at s ch q c ∙ ground arith;
        here = inserted_line-at s ch s.cursor c ∙ ground arith;
        behind = λ q b d.
            inserted_line-at s ch (q + 1) c
            ∙ (let k : q + 1 - 1 ≡ q = omega arith in let e = ap s.line k in ground arith);
      },
      edited-IsValid s (inserted_line s ch) (s.len + 1) (s.cursor + 1) v
          (inserted_line-Text s ch v.text c l n) (omega arith),
    )

erased : Shell → ℕ → Shell
erased s at = record s { line = erased_line s at; len = s.len - 1; cursor = at }

erased-Erased :
    (s : Shell) (at : ℕ)
    → IsValid s
    → at < s.len
    → Erased s (erased s at) at × IsValid (erased s at)
unfolding erased
erased-Erased s at v c = (
  record {
    len = omega arith;
    cursor = refl;
    before = λ q b. erased_line-at s at q c ∙ ground arith;
    behind = λ q b d. erased_line-at s at q c ∙ ground arith;
  },
  edited-IsValid s (erased_line s at) (s.len - 1) at v (erased_line-Text s at v.text c)
      (omega arith),
)

-- Backspace erases the byte before the cursor and delete the byte at it; where there is none they
-- do nothing, and the editor stays well-formed.
pub erase-Erased :
    (s : Shell)
    → IsValid s
    → (0 < s.cursor → Erased s (erase_before s) (s.cursor - 1))
      × (s.cursor ≡ 0 → erase_before s ≡ s)
      × (s.cursor < s.len → Erased s (erase_at s) s.cursor)
      × (s.cursor ≡ s.len → erase_at s ≡ s)
      × IsValid (erase_before s)
      × IsValid (erase_at s)
unfolding erase_before erase_at erased erased_line
erase-Erased s v = (
  λ p.
      (let g : ltb 0 s.cursor ≡ true = ground arith in
        rw g (erased-Erased s (s.cursor - 1) v (omega (arith, v.cursor_in))).0),
  λ e. rw e refl,
  λ l. (let g : ltb s.cursor s.len ≡ true = ground arith in rw g (erased-Erased s s.cursor v l).0),
  λ e. (let g : ltb s.cursor s.len ≡ false = ground arith in rw g refl),
  elim (Bool-cases (ltb 0 s.cursor)) [
    | inl g ↦
        let p : 0 < s.cursor = ground arith in
        rw g (erased-Erased s (s.cursor - 1) v (omega (arith, v.cursor_in))).1
    | inr g ↦ rw g v
  ],
  elim (Bool-cases (ltb s.cursor s.len)) [
    | inl g ↦ let p : s.cursor < s.len = ground arith in rw g (erased-Erased s s.cursor v p).1
    | inr g ↦ rw g v
  ],
)
