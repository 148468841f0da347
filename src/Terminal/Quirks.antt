-- ===== src/Terminal/Quirks.antt =====
-- Two surprises of kernel/terminal/terminal.c: scrolling past the first line, and the carriage return.
use ronin_os.Base.{
  ℕ, ◌+◌, ◌-◌, ◌*◌, ◌%◌, ◌^◌, ◌≤◌, ◌<◌, ◌≡◌, refl, sym, ◌∙◌, ap, arith, leb, ltb, if◌then◌else◌,
}
use ronin_os.Terminal.{
  Terminal, ℤ, pos, to_int, blank, slot, first_abs_line, vga_entry, clear_line,
  ensure_current_line_initialized, store_cell, put_visible, put_output_char, terminal_render,
  terminal_scroll_lines,
}
use ronin_os.Terminal.Valid.{IsValid}
use ronin_os.Terminal.Screen.{shown_offset_lem, window_top, terminal_render-window}

module _ (t : Terminal) (v : IsValid t) (n : ℕ) where
  -- The offset after a scroll by `n` lines.
  abbrev pub risen : ℕ
  risen =
      if ltb (t.current_line - first_abs_line t) (v.back + n)
      then t.current_line - first_abs_line t
      else v.back + n

  abbrev scrolled : Terminal
  scrolled = record t { scroll_offset = pos risen }

  scrolled-IsValid : IsValid scrolled
  unfolding first_abs_line
  scrolled-IsValid = record {
    column = v.column;
    counted = v.counted;
    no_wrap = v.no_wrap;
    back = risen;
    offset = refl;
    in_ring = ground (arith, v.in_ring);
    input_fits = v.input_fits;
    cursor_in = v.cursor_in;
  }

  terminal_scroll_lines-render : terminal_scroll_lines (pos n) t ≡ terminal_render scrolled
  unfolding terminal_scroll_lines
  terminal_scroll_lines-render =
      let first = first_abs_line t in
      let room : (t.current_line + 2 ^ 32 - first) % 2 ^ 32 ≡ t.current_line - first =
        omega (arith, v.in_ring, v.no_wrap) in
      let max_off : to_int ((t.current_line + 2 ^ 32 - first) % 2 ^ 32)
          ≡ pos (t.current_line - first) =
        rw room (ground (arith, v.no_wrap)) in
      ap (λ (z : ℤ). terminal_render (record t { scroll_offset = z }))
        (rw (max_off, v.offset) (ground arith))

  same_window :
      t.current_line ≤ 22 + v.back + first_abs_line t
      → window_top scrolled risen ≡ window_top t v.back
  unfolding first_abs_line
  same_window top = ground (arith, v.in_ring)

  -- When the first line that the ring has is on the screen of a well-formed terminal already, scrolling
  -- up by any number of lines still raises the offset, as far as the ring has lines, and no cell of the
  -- output rows changes.
  pub terminal_scroll_lines-stuck :
      t.current_line ≤ 22 + v.back + first_abs_line t
      → ((terminal_scroll_lines (pos n) t).scroll_offset ≡ pos risen)
        × ((row col : ℕ)
            → row < 23
            → col < 80
            → (terminal_scroll_lines (pos n) t).vga (row * 80 + col)
              ≡ (terminal_render t).vga (row * 80 + col))
  unfolding terminal_render first_abs_line scrolled-IsValid
  terminal_scroll_lines-stuck top = (
    ap (λ (u : Terminal). u.scroll_offset) terminal_scroll_lines-render
        ∙ shown_offset_lem scrolled scrolled-IsValid,
    λ row col l k.
        ap (λ (u : Terminal). u.vga (row * 80 + col)) terminal_scroll_lines-render
        ∙ terminal_render-window scrolled scrolled-IsValid row col l k
        ∙ ap
            (λ (line : ℕ). vga_entry (
              if leb (line + row) t.current_line then t.lines (slot (line + row)) col else blank t))
            (same_window top)
        ∙ sym (terminal_render-window t v row col l k),
  )

-- A visible character behind a carriage return blanks the rest of the line instead of overwriting one
-- cell: every cell of the current line but the first is blank.
pub put_output_char-blank :
    (t : Terminal) (c j : ℕ)
    → 32 ≤ c
    → c ≤ 126
    → 0 < j
    → (put_output_char c (put_output_char b'\r' t)).lines (slot t.current_line) j ≡ blank t
unfolding put_output_char put_visible ensure_current_line_initialized clear_line store_cell
put_output_char-blank t c j lo hi l = ground arith
