-- ===== src/Terminal/Valid.antt =====
-- The well-formed states of kernel/terminal/terminal.c, and the lines that the scrollback ring keeps.
use ronin_os.Base.{
  ℕ, zero, suc, ◌+◌, ◌-◌, ◌^◌, ◌≤◌, ◌<◌, ◌≡◌, refl, ◌∙◌, ap, if_both, if_cases, false, ◌||◌, Option,
  none, some, List, [], ◌∷◌, arith, length, ◌==◌, leb, ltb, if◌then◌else◌,
}
use ronin_os.Terminal.{
  Terminal, Cell, pos, term_width, slot, first_abs_line, clear_line,
  ensure_current_line_initialized, linefeed, store_cell, put_visible, put_output_char,
  parse_ansi_code, write_loop, theme_attr,
}

-- The numbers of lines are the counters' with no wrap-around, the column and the cursor lie inside
-- their lines, and the scroll offset goes back to a line that the ring still has.
pub record IsValid (t : Terminal) : Type 0 where
  pub column : t.current_col < 80
  pub counted : t.total_lines ≡ t.current_line + 1
  pub no_wrap : t.current_line < 2 ^ 31
  pub back : ℕ
  pub offset : t.scroll_offset ≡ pos back
  pub in_ring : back + first_abs_line t ≤ t.current_line
  pub input_fits : t.input_len ≤ 127
  pub cursor_in : t.input_cursor ≤ t.input_len

-- The cells and the attribute are of no account, nor is the column, inside the line.
pub IsValid-cells :
    (t : Terminal) (lines : ℕ → ℕ → Cell) (attr col : ℕ)
    → col < 80
    → IsValid t
    → IsValid (record t { lines = lines; current_attr = attr; current_col = col })
unfolding first_abs_line
IsValid-cells t lines attr col l v = record {
  column = l;
  counted = v.counted;
  no_wrap = v.no_wrap;
  back = v.back;
  offset = v.offset;
  in_ring = v.in_ring;
  input_fits = v.input_fits;
  cursor_in = v.cursor_in;
}

-- At most `n` lines more, and every earlier line that the ring still has as it was.
pub record Advances (n : ℕ) (t t' : Terminal) : Type 0 where
  pub valid : IsValid t'
  pub from : t.current_line ≤ t'.current_line
  pub at_most : t'.current_line ≤ t.current_line + n
  pub kept :
      (a : ℕ) → first_abs_line t' ≤ a → a < t.current_line → t'.lines (slot a) ≡ t.lines (slot a)

pub first_mono :
    (t u : Terminal)
    → IsValid t
    → IsValid u
    → t.current_line ≤ u.current_line
    → first_abs_line t ≤ first_abs_line u
unfolding first_abs_line
first_mono t u v w l = ground (arith, v.counted, w.counted)

pub Advances-trans :
    (n m : ℕ) (t u w : Terminal) → Advances n t u → Advances m u w → Advances (n + m) t w
Advances-trans n m t u w p q = record {
  valid = q.valid;
  from = omega (arith, p.from, q.from);
  at_most = omega (arith, p.at_most, q.at_most);
  kept = λ a l h.
      q.kept a l (omega (arith, p.from))
      ∙ p.kept a (omega (arith, first_mono u w p.valid q.valid q.from)) h;
}

pub Advances-more : (n m : ℕ) (t u : Terminal) → n ≤ m → Advances n t u → Advances m t u
Advances-more n m t u l p = record {
  valid = p.valid;
  from = p.from;
  at_most = omega (arith, p.at_most);
  kept = p.kept;
}

-- The current line shares its place in the ring with no earlier line that the ring has.
slot_ne :
    (t : Terminal) (a : ℕ)
    → IsValid t
    → first_abs_line t ≤ a
    → a < t.current_line
    → (slot a == slot t.current_line) ≡ false
unfolding first_abs_line
slot_ne t a v l h = ground (arith, v.counted)

module _ (t : Terminal) (v : IsValid t) where
  pub Advances-refl : Advances 0 t t
  Advances-refl = record {
    valid = v;
    from = omega arith;
    at_most = omega arith;
    kept = λ a l h. refl;
  }

  column-Advances : (col : ℕ) → col < 80 → Advances 0 t (record t { current_col = col })
  unfolding first_abs_line
  column-Advances col l = record {
    valid = IsValid-cells t t.lines t.current_attr col l v;
    from = omega arith;
    at_most = omega arith;
    kept = λ a l h. refl;
  }

  -- The two ways to write to the current line.
  cleared-Advances : Advances 0 t (clear_line t.current_line t)
  unfolding clear_line first_abs_line
  cleared-Advances = record {
    valid = IsValid-cells t _ t.current_attr t.current_col v.column v;
    from = omega arith;
    at_most = omega arith;
    kept = λ a l h.
        ap
          (λ b.
            if b
            then (λ col. record { ch = b' '; attr = theme_attr t.theme.fg_output t.theme.bg })
            else t.lines (slot a))
          (slot_ne t a v l h);
  }

  stored-Advances : (col : ℕ) (c : Cell) → Advances 0 t (store_cell col c t)
  unfolding store_cell first_abs_line
  stored-Advances col c = record {
    valid = IsValid-cells t _ t.current_attr t.current_col v.column v;
    from = omega arith;
    at_most = omega arith;
    kept = λ a l h.
        ap (λ b. if b then (λ j. if j == col then c else t.lines (slot a) j) else t.lines (slot a))
          (slot_ne t a v l h);
  }

  module _ (room : t.current_line + 1 < 2 ^ 31) where
    linefeed-Advances : Advances 1 t (linefeed t)
    unfolding linefeed clear_line first_abs_line
    linefeed-Advances = record {
      valid = record {
        column = ground (arith, v.column);
        counted = ground (arith, v.no_wrap);
        no_wrap = ground (arith, room);
        back = 0;
        offset = refl;
        in_ring = ground (arith, room);
        input_fits = v.input_fits;
        cursor_in = v.cursor_in;
      };
      from = ground (arith, room);
      at_most = ground (arith, room);
      kept = λ a l h. ground (arith, room, v.counted);
    }

pub attr-Advances :
    (t : Terminal) (attr : ℕ) → IsValid t → Advances 0 t (record t { current_attr = attr })
unfolding first_abs_line
attr-Advances t attr v = record {
  valid = IsValid-cells t t.lines attr t.current_col v.column v;
  from = omega arith;
  at_most = omega arith;
  kept = λ a l h. refl;
}

ensured-Advances : (t : Terminal) → IsValid t → Advances 0 t (ensure_current_line_initialized t)
unfolding ensure_current_line_initialized
ensured-Advances t v =
    if_both (Advances 0 t) (t.current_col == 0) (cleared-Advances t v) (Advances-refl t v)

-- Where a character is shown, the cell before the new column is written last.
stepped-Advances :
    (t : Terminal)
    → IsValid t
    → t.current_line + 1 < 2 ^ 31
    → Advances 1 t (
        if leb term_width (t.current_col + 1)
        then linefeed (record t { current_col = t.current_col + 1 })
        else record t { current_col = t.current_col + 1 })
unfolding linefeed clear_line first_abs_line
stepped-Advances t v room =
    if_cases (Advances 1 t) (leb term_width (t.current_col + 1)) (λ e. linefeed-Advances t v room)
      (λ e.
        Advances-more 0 1 t _ (omega arith)
          (column-Advances t v (t.current_col + 1) (ground arith)))

put_visible-Advances :
    (c : ℕ) (t : Terminal)
    → IsValid t
    → t.current_line + 1 < 2 ^ 31
    → Advances 1 t (put_visible c t)
unfolding put_visible
put_visible-Advances c t v room =
    let t' = ensure_current_line_initialized t in
    let first = ensured-Advances t v in
    let stored = store_cell t'.current_col (record { ch = c; attr = t'.current_attr }) t' in
    let second =
      stored-Advances t' first.valid t'.current_col (record { ch = c; attr = t'.current_attr }) in
    Advances-trans 0 1 t stored _ (Advances-trans 0 0 t t' stored first second)
      (stepped-Advances stored second.valid (omega (arith, second.at_most, first.at_most)))

-- A backspace.
erased-Advances :
    (t : Terminal) (c : Cell)
    → IsValid t
    → Advances 0 t (store_cell (t.current_col - 1) c (record t { current_col = t.current_col - 1 }))
erased-Advances t c v =
    let moved = column-Advances t v (t.current_col - 1) (omega (arith, v.column)) in
    Advances-trans 0 0 t (record t { current_col = t.current_col - 1 }) _ moved
      (stored-Advances (record t { current_col = t.current_col - 1 }) moved.valid
        (t.current_col - 1) c)

pub put_output_char-Advances :
    (c : ℕ) (t : Terminal)
    → IsValid t
    → t.current_line + 1 < 2 ^ 31
    → Advances 1 t (put_output_char c t)
unfolding put_output_char
put_output_char-Advances c t v room =
    let still : Advances 1 t t = Advances-more 0 1 t t (omega arith) (Advances-refl t v) in
    if_both (Advances 1 t) (c == b'\n') (linefeed-Advances t v room) (
      if_both (Advances 1 t) (c == b'\r')
        (Advances-more 0 1 t _ (omega arith) (column-Advances t v 0 (omega arith)))
        (if_both (Advances 1 t) (c == 8)
          (if_both (Advances 1 t) (ltb 0 t.current_col)
            (Advances-more 0 1 t _ (omega arith)
              (erased-Advances t (record { ch = b' '; attr = t.current_attr }) v))
            still)
          (if_both (Advances 1 t) (ltb c 32 || ltb 126 c) still (put_visible-Advances c t v room))))

pub write_loop-Advances :
    (skip : ℕ) (s : List ℕ) (t : Terminal)
    → IsValid t
    → t.current_line + length s < 2 ^ 31
    → Advances (length s) t (write_loop skip s t)
unfolding write_loop
write_loop-Advances skip [] t v room = Advances-refl t v
write_loop-Advances (suc skip) (c ∷ cs) t v room =
    Advances-more (length cs) (suc (length cs)) t _ (omega arith)
      (write_loop-Advances skip cs t v (omega arith))
write_loop-Advances zero (c ∷ cs) t v room =
    by_code (parse_ansi_code t (c ∷ cs)) (λ k u w r. write_loop-Advances k cs u w r)
  where
    go : Option (ℕ × ℕ) → Terminal
    go o = elim o [
      | none ↦ write_loop zero cs (put_output_char c t)
      | some (attr, consumed) ↦ write_loop (consumed - 1) cs (record t { current_attr = attr })
    ]

    by_code :
        (o : Option (ℕ × ℕ))
        → ((k : ℕ) (u : Terminal)
            → IsValid u
            → u.current_line + length cs < 2 ^ 31
            → Advances (length cs) u (write_loop k cs u))
        → Advances (length (c ∷ cs)) t (go o)
    by_code none rec =
        let first = put_output_char-Advances c t v (omega arith) in
        Advances-more (1 + length cs) (suc (length cs)) t _ (omega arith) (
          Advances-trans 1 (length cs) t (put_output_char c t) _ first
            (rec 0 (put_output_char c t) first.valid (omega (arith, first.at_most))))
    by_code (some (attr, consumed)) rec =
        let first = attr-Advances t attr v in
        Advances-more (0 + length cs) (suc (length cs)) t _ (omega arith) (
          Advances-trans 0 (length cs) t (record t { current_attr = attr }) _ first
            (rec (consumed - 1) (record t { current_attr = attr }) first.valid (omega arith)))
