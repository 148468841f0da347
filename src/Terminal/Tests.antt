-- ===== src/Terminal/Tests.antt =====
-- The theorems about kernel/terminal/terminal.c at the terminal as it starts.
use ronin_os.Base.{ℕ, ◌+◌, ◌*◌, ◌<◌, ◌≡◌, refl, some, List, [], ◌∷◌, arith}
use ronin_os.Terminal.{
  Terminal, pos, negsuc, theme_ronin_dark, first_abs_line, slot, blank, vga_entry, clear_line,
  ensure_current_line_initialized, linefeed, store_cell, put_visible, put_output_char,
  parse_ansi_code, write_loop, terminal_render, terminal_write, terminal_scroll_lines,
}
use ronin_os.Terminal.Valid.{IsValid, Advances}
use ronin_os.Terminal.Screen.{shown_cell, terminal_render-window}
use ronin_os.Terminal.Calls.{run, scroll_lines, run-IsValid, terminal_write-Advances}
use ronin_os.Terminal.Quirks.{risen, terminal_scroll_lines-stuck, put_output_char-blank}

abbrev at_start : Terminal
at_start = record {
  lines = λ i j. record { ch = 0; attr = 0 };
  total_lines = 1;
  current_line = 0;
  current_col = 0;
  scroll_offset = pos 0;
  current_attr = 7;
  theme = theme_ronin_dark;
  prompt = λ i. 0;
  input = λ i. 0;
  input_len = 0;
  input_cursor = 0;
  status = λ i. 0;
  vga = λ i. 0;
  hw_cursor = 0;
}

at_start-IsValid : IsValid at_start
unfolding first_abs_line
at_start-IsValid = record {
  column = omega arith;
  counted = refl;
  no_wrap = omega arith;
  back = 0;
  offset = refl;
  in_ring = omega arith;
  input_fits = omega arith;
  cursor_in = omega arith;
}

-- 600 lines, the newest of which are on the screen.
abbrev later : Terminal
later = record at_start { total_lines = 600; current_line = 599 }

later-IsValid : IsValid later
unfolding first_abs_line
later-IsValid = record {
  column = omega arith;
  counted = refl;
  no_wrap = omega arith;
  back = 0;
  offset = refl;
  in_ring = omega arith;
  input_fits = omega arith;
  cursor_in = omega arith;
}

-- "a", a green "b", a line feed and "c".
abbrev text : List ℕ
text = b'a' ∷ 27 ∷ b'[' ∷ b'3' ∷ b'2' ∷ b'm' ∷ b'b' ∷ 10 ∷ b'c' ∷ []

write_loop_green : (write_loop 0 text at_start).lines 0 1 ≡ record { ch = b'b'; attr = 2 }
unfolding write_loop parse_ansi_code put_output_char put_visible ensure_current_line_initialized
    clear_line store_cell linefeed
write_loop_green = refl

terminal_write-Advances_example : Advances 9 later (terminal_write (some text) later)
terminal_write-Advances_example = terminal_write-Advances text later later-IsValid (omega arith)

run-IsValid_example : IsValid (run (scroll_lines (negsuc 4)) later)
run-IsValid_example = run-IsValid (scroll_lines (negsuc 4)) later later-IsValid (omega arith)

terminal_render-window_example :
    (terminal_render later).vga (3 * 80 + 5) ≡ vga_entry (shown_cell later later-IsValid.back 3 5)
terminal_render-window_example =
    terminal_render-window later later-IsValid 3 5 (omega arith) (omega arith)

terminal_scroll_lines-stuck_instance :
    ((terminal_scroll_lines (pos 3) at_start).scroll_offset
      ≡ pos (risen at_start at_start-IsValid 3))
    × ((row col : ℕ)
        → row < 23
        → col < 80
        → (terminal_scroll_lines (pos 3) at_start).vga (row * 80 + col)
          ≡ (terminal_render at_start).vga (row * 80 + col))
terminal_scroll_lines-stuck_instance =
    terminal_scroll_lines-stuck at_start at_start-IsValid 3 (omega arith)

put_output_char-blank_instance :
    (put_output_char b'x' (put_output_char b'\r' later)).lines (slot 599) 7 ≡ blank later
put_output_char-blank_instance =
    put_output_char-blank later b'x' 7 (omega arith) (omega arith) (omega arith)
