-- ===== src/Terminal/Screen.antt =====
-- What kernel/terminal/terminal.c puts on the screen.
use ronin_os.Base.{ℕ, ◌+◌, ◌-◌, ◌*◌, ◌/◌, ◌%◌, ◌≤◌, ◌<◌, ◌≡◌, arith, leb, ltb, if◌then◌else◌, add32}
use ronin_os.Terminal.{
  Terminal, Cell, pos, vga_entry, blank, slot, first_abs_line, shown_offset, top_line, output_cell,
  terminal_render,
}
use ronin_os.Terminal.Valid.{IsValid}

-- The first line of the window that ends `back` lines before the current one, if the ring has it.
abbrev pub window_top : Terminal → ℕ → ℕ
window_top t back =
    if ltb (t.current_line - (22 + back)) (first_abs_line t)
    then first_abs_line t
    else t.current_line - (22 + back)

-- A cell of the screen: that of its line, blank below the current one.
abbrev pub shown_cell : Terminal → (back row col : ℕ) → Cell
shown_cell t back row col =
    if leb (window_top t back + row) t.current_line
    then t.lines (slot (window_top t back + row)) col
    else blank t

module _ (t : Terminal) (v : IsValid t) where
  pub shown_offset_lem : shown_offset t ≡ pos v.back
  unfolding shown_offset
  shown_offset_lem = rw v.offset (ground (arith, v.in_ring))

  top_line_lem : top_line t ≡ window_top t v.back
  unfolding top_line
  top_line_lem = rw shown_offset_lem (ground (arith, v.in_ring, v.no_wrap))

  window_top-ge : (back : ℕ) → first_abs_line t ≤ window_top t back
  window_top-ge back = ground arith

  window_top-le : (back : ℕ) → window_top t back ≤ t.current_line
  window_top-le back = ground (arith, v.in_ring)

  output_cell_lem : (row col : ℕ) → row < 23 → output_cell t row col ≡ shown_cell t v.back row col
  unfolding output_cell
  output_cell_lem row col l =
      let exact : add32 (top_line t) row ≡ window_top t v.back + row =
        omega (arith, top_line_lem, window_top-le v.back, v.no_wrap) in
      rw exact (ground (arith, window_top-ge v.back))

  -- On a well-formed state, each cell of the 23 output rows shows the cell of its line of the window
  -- that ends where the scroll offset says, but starts no earlier than the ring; it is blank below the
  -- current line.
  pub terminal_render-window :
      (row col : ℕ)
      → row < 23
      → col < 80
      → (terminal_render t).vga (row * 80 + col) ≡ vga_entry (shown_cell t v.back row col)
  unfolding terminal_render
  terminal_render-window row col l k =
      let r : (row * 80 + col) / 80 ≡ row = omega arith in
      let c : (row * 80 + col) % 80 ≡ col = omega arith in
      rw (r, c) (rw (output_cell_lem row col l) (ground arith))
