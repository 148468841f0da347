-- ===== src/Shell/Run.antt =====
-- Every key keeps the line editor of kernel/shell/shell.c well-formed.
use Prim.Native.Nat.{bit_and}
use ronin_os.Base.{
  ℕ, ◌+◌, ◌-◌, ◌≤◌, ◌<◌, ◌≡◌, refl, ◌≢◌, sym, subst, true, false, not, ◌&&◌, Option, none, some,
  List, arith, ◌==◌, leb, ltb, if◌then◌else◌, Bool-cases, inl, inr, if_both,
}
use ronin_os.Keyboard.{
  KeyEvent, KeyCode, none_key, char, enter, backspace, delete, left, right, up, down, home, end,
  page_up, page_down, tab, ctrl_mask,
}
use ronin_os.Shell.{
  Shell, Buffer, Output, poke, stored_line, same_text, history_store, load_loop, history_load,
  skip_left, skip_right,
}
use ronin_os.Shell.Keys.{
  simple_code, after_line, insert_char, move_left, move_right, older, history_up, history_down,
  history_down_from, edit_code, scrolls, shell_handle_key,
}
use ronin_os.Shell.Valid.{Text, IsValid, IndexIn, skip_left-le, skip_right-le, load_loop-Text}
use ronin_os.Shell.Edit.{edited-IsValid, insert_char-Inserted, erase-Erased}

empty-Text : (b : Buffer) → Text (poke b 0 0) 0
empty-Text b = record { short = omega arith; full = λ q l. absurd (omega arith); ends = refl }

after_line-IsValid : (s : Shell) → IsValid s → IsValid (after_line s)
after_line-IsValid s v = record {
  text = empty-Text s.line;
  cursor_in = omega arith;
  count_in = v.count_in;
  index_in = tt;
  entries = v.entries;
}

stored_line-Text :
    (old line : Buffer) (len : ℕ) → Text line len → Text (stored_line old line len) len
stored_line-Text old line len t = record {
  short = t.short;
  full = λ q l z. (let f = t.full q in ground arith);
  ends = ground arith;
}

cursor-IsValid : (s : Shell) (c : ℕ) → IsValid s → c ≤ s.len → IsValid (record s { cursor = c })
cursor-IsValid s c v l = edited-IsValid s s.line s.len c v v.text l

history_load-IsValid :
    (s : Shell) (i : ℕ)
    → IsValid s
    → i < s.hist_count
    → IsValid (history_load (record s { hist_index = some i }) (some i))
unfolding history_load
history_load-IsValid s i v l =
    let inside : leb s.hist_count i ≡ false = ground arith in
    let (n, t) = v.entries i l in
    let k = load_loop-Text 127 (s.history i) s.line 0 n t (omega arith) (omega (arith, t.short)) in
    let r = load_loop 127 (s.history i) s.line 0 in
    rw inside (record {
      text = record {
        short = omega (arith, k.0, t.short);
        full = λ q b z. (let f = t.full q in let w = k.1 q in ground (arith, k.0));
        ends = ground arith;
      };
      cursor_in = omega arith;
      count_in = v.count_in;
      index_in = l;
      entries = v.entries;
    })

IndexIn-more : (i : Option ℕ) (n : ℕ) → IndexIn i n → IndexIn i (n + 1)
IndexIn-more none n h = tt
IndexIn-more (some i) n h = omega arith

-- The entry that history_store writes, without its two tests.
store : Shell → Shell
store s =
    if ltb s.hist_count 32
    then record s {
      history =
          λ j. if j == s.hist_count then stored_line (s.history j) s.line s.len else s.history j;
      hist_count = s.hist_count + 1;
    }
    else record s {
      history = λ j.
          if j == 31
          then stored_line (s.history j) s.line s.len
          else if ltb j 31
          then s.history (j + 1)
          else s.history j;
    }

store-IsValid : (s : Shell) → IsValid s → IsValid (store s)
unfolding store
store-IsValid s v = elim (Bool-cases (ltb s.hist_count 32)) [
  | inl room ↦
      let l : s.hist_count < 32 = ground arith in
      rw room (record {
        text = v.text;
        cursor_in = v.cursor_in;
        count_in = omega arith;
        index_in = IndexIn-more s.hist_index s.hist_count v.index_in;
        entries = λ j b. elim (Bool-cases (j == s.hist_count)) [
          | inl e ↦ rw e (s.len, stored_line-Text (s.history j) s.line s.len v.text)
          | inr e ↦ rw e (v.entries j (ground arith))
        ];
      })
  | inr full ↦
      let l : 32 ≤ s.hist_count = ground arith in
      rw full (record {
        text = v.text;
        cursor_in = v.cursor_in;
        count_in = v.count_in;
        index_in = v.index_in;
        entries = λ j b. elim (Bool-cases (j == 31)) [
          | inl e ↦ rw e (s.len, stored_line-Text (s.history j) s.line s.len v.text)
          | inr e ↦
              let k : j < 31 = (let c = v.count_in in ground arith) in
              let t : ltb j 31 ≡ true = ground arith in
              rw e (rw t (v.entries (j + 1) (omega arith)))
        ];
      })
]

history_store-IsValid : (s : Shell) → IsValid s → IsValid (history_store s)
unfolding history_store store
history_store-IsValid s v = elim (Bool-cases (s.len == 0)) [
  | inl e ↦ rw e v
  | inr e ↦
      elim (Bool-cases
        (ltb 0 s.hist_count && same_text 128 (s.history (s.hist_count - 1)) s.line 0)) [
          | inl g ↦ rw e (rw g v)
          | inr g ↦ rw e (rw g (store-IsValid s v))
        ]
]

move-IsValid : (s : Shell) (m : ℕ) → IsValid s → IsValid (move_left s m) × IsValid (move_right s m)
unfolding move_left move_right
move-IsValid s m v =
    let l1 = skip_left-le true s.line s.cursor in
    let l2 = skip_left-le false s.line (skip_left true s.line s.cursor) in
    let c = skip_right false (s.len - s.cursor) s.line s.cursor in
    let r1 = skip_right-le false (s.len - s.cursor) s.line s.cursor in
    let r2 = skip_right-le true (s.len - c) s.line c in
    elim (Bool-cases (not (bit_and m ctrl_mask == 0))) [
      | inl h ↦ rw h (
        cursor-IsValid s (skip_left false s.line (skip_left true s.line s.cursor)) v
            (omega (arith, v.cursor_in, l1, l2)),
        cursor-IsValid s (skip_right true (s.len - c) s.line c) v
            (omega (arith, v.cursor_in, r1, r2)),
      )
      | inr h ↦ rw h (
        cursor-IsValid s (s.cursor - 1) v (omega (arith, v.cursor_in)),
        elim (Bool-cases (ltb s.cursor s.len)) [
          | inl g ↦ rw g (cursor-IsValid s (s.cursor + 1) v (ground arith))
          | inr g ↦ rw g v
        ],
      )
    ]

history_up-IsValid : (s : Shell) → IsValid s → IsValid (history_up s)
unfolding history_up
history_up-IsValid s v = elim (Bool-cases (ltb 0 s.hist_count)) [
  | inr g ↦ rw g v
  | inl g ↦
      let lines : 0 < s.hist_count = ground arith in
      rw g (
        history_load-IsValid s (older s.hist_index s.hist_count) v
          (older-in s.hist_index s.hist_count lines v.index_in))
]
  where
    older-in : (i : Option ℕ) (n : ℕ) → 0 < n → IndexIn i n → older i n < n
    older-in none n p h = omega arith
    older-in (some i) n p h = omega arith

history_down_from-IsValid :
    (s : Shell) (i : Option ℕ)
    → IsValid s
    → IndexIn i s.hist_count
    → IsValid (history_down_from s i)
unfolding history_down_from
history_down_from-IsValid s none v h = v
history_down_from-IsValid s (some i) v h =
    if_both IsValid (not (ltb 0 s.hist_count)) v (elim (Bool-cases (leb s.hist_count (i + 1))) [
      | inl q ↦ subst IsValid (sym (after i q)) (after_line-IsValid s v)
      | inr q ↦ subst IsValid (sym (loads i q)) (history_load-IsValid s (i + 1) v (ground arith))
    ])
  where
    next_line : ℕ → Shell
    next_line k = history_load (record s { hist_index = some (k + 1) }) (some (k + 1))

    after :
        (k : ℕ)
        → leb s.hist_count (k + 1) ≡ true
        → (if leb s.hist_count (k + 1) then after_line s else next_line k) ≡ after_line s
    after k q = rw q refl

    loads :
        (k : ℕ)
        → leb s.hist_count (k + 1) ≡ false
        → (if leb s.hist_count (k + 1) then after_line s else next_line k) ≡ next_line k
    loads k q = rw q refl

typed-IsValid : (s : Shell) (ch : ℕ) → IsValid s → ch ≢ 0 → IsValid (insert_char s ch)
unfolding insert_char
typed-IsValid s ch v n = elim (Bool-cases (ltb s.len 127)) [
  | inl g ↦ (insert_char-Inserted s ch v n (ground arith)).1
  | inr g ↦ rw g v
]

edit_code-IsValid :
    (c : KeyCode) (s : Shell) (ch m : ℕ)
    → IsValid s
    → (c ≡ char → ch ≢ 0)
    → IsValid (edit_code c s ch m).0
unfolding edit_code history_down
edit_code-IsValid char s ch m v n = typed-IsValid s ch v (n refl)
edit_code-IsValid backspace s ch m v n = (erase-Erased s v).4
edit_code-IsValid delete s ch m v n = (erase-Erased s v).5
edit_code-IsValid left s ch m v n = (move-IsValid s m v).0
edit_code-IsValid right s ch m v n = (move-IsValid s m v).1
edit_code-IsValid home s ch m v n = cursor-IsValid s 0 v (omega arith)
edit_code-IsValid end s ch m v n = cursor-IsValid s s.len v (omega arith)
edit_code-IsValid up s ch m v n = history_up-IsValid s v
edit_code-IsValid down s ch m v n = history_down_from-IsValid s s.hist_index v v.index_in
edit_code-IsValid enter s ch m v n =
    after_line-IsValid (history_store s) (history_store-IsValid s v)
edit_code-IsValid none_key s ch m v n = v
edit_code-IsValid page_up s ch m v n = v
edit_code-IsValid page_down s ch m v n = v
edit_code-IsValid tab s ch m v n = v

simple_code-IsValid :
    (c : KeyCode) (s : Shell) (ch : ℕ)
    → IsValid s
    → (c ≡ char → ch ≢ 0)
    → IsValid (simple_code c s ch).0
unfolding simple_code
simple_code-IsValid char s ch v n = elim (Bool-cases (ltb s.len 127 && s.cursor == s.len)) [
  | inr g ↦ rw g v
  | inl g ↦
      let at_end : s.cursor ≡ s.len = ground arith in
      let room : s.len < 127 = ground arith in
      rw g (
        edited-IsValid s (poke (poke s.line s.cursor ch) (s.cursor + 1) 0) (s.cursor + 1)
          (s.cursor + 1) v
          (record {
            short = omega arith;
            full = λ q l z. (let f = v.text.full q in let c = n refl in ground arith);
            ends = ground arith;
          })
          (omega arith))
]
simple_code-IsValid backspace s ch v n = elim (Bool-cases (ltb 0 s.cursor && s.cursor == s.len)) [
  | inr g ↦ rw g v
  | inl g ↦
      let at_end : s.cursor ≡ s.len = ground arith in
      let some_byte : 0 < s.len = ground arith in
      rw g (
        edited-IsValid s (poke s.line (s.len - 1) 0) (s.len - 1) (s.cursor - 1) v
          (record {
            short = omega (arith, v.text.short);
            full = λ q l z. (let f = v.text.full q in ground arith);
            ends = ground arith;
          })
          (omega arith))
]
simple_code-IsValid enter s ch v n =
    after_line-IsValid (history_store s) (history_store-IsValid s v)
simple_code-IsValid left s ch v n = v
simple_code-IsValid right s ch v n = v
simple_code-IsValid up s ch v n = v
simple_code-IsValid down s ch v n = v
simple_code-IsValid home s ch v n = v
simple_code-IsValid end s ch v n = v
simple_code-IsValid delete s ch v n = v
simple_code-IsValid none_key s ch v n = v
simple_code-IsValid page_up s ch v n = v
simple_code-IsValid page_down s ch v n = v
simple_code-IsValid tab s ch v n = v

-- Every key, a typed character being not NUL, keeps the cursor inside a line of at most 127 bytes that
-- is terminated and without NUL inside, and every history entry in use such a line, in both modes.
pub shell_handle_key-IsValid :
    (s : Shell) (ev : KeyEvent)
    → IsValid s
    → (ev.code ≡ char → ev.ch ≢ 0)
    → IsValid (shell_handle_key s ev).0
unfolding shell_handle_key
shell_handle_key-IsValid s ev v n =
    if_both Left s.simple_mode (simple_code-IsValid ev.code s ev.ch v n) (
      if_both Left (scrolls page_up up ev) v (
        if_both Left (scrolls page_down down ev) v
          (edit_code-IsValid ev.code s ev.ch ev.modifiers v n)))
  where
    Left : Shell × List Output → Type 0
    Left r = IsValid r.0
