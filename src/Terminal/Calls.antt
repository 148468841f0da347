-- ===== src/Terminal/Calls.antt =====
-- Every call of kernel/terminal/terminal.c on a well-formed terminal.
use ronin_os.Base.{
  ℕ, zero, suc, ◌+◌, ◌-◌, ◌%◌, ◌^◌, ◌≤◌, ◌<◌, ◌≡◌, refl, Option, none, some, List, arith, length,
  ltb, if◌then◌else◌,
}
use ronin_os.Terminal.{
  Terminal, Theme, ℤ, pos, negsuc, ◌+ℤ◌, exceeds, is_negative, to_int, theme_attr, first_abs_line,
  clear_line, clear_rows, start_again, terminal_render, terminal_init, terminal_apply_theme,
  terminal_clear_scrollback, write_loop, terminal_write, terminal_putc, terminal_write_error,
  terminal_set_prompt, terminal_set_input_line, terminal_scroll_lines, terminal_set_status,
}
use ronin_os.Terminal.Valid.{
  IsValid, IsValid-cells, Advances, Advances-trans, Advances-more, attr-Advances,
  put_output_char-Advances, write_loop-Advances,
}
use ronin_os.Terminal.Screen.{shown_offset_lem}

-- The calls from outside, with what they are given.
pub data Call : Type 0 where
  init apply_theme : Option Theme → Call
  clear_scrollback : Call
  write write_error set_prompt set_status : Option (List ℕ) → Call
  putc : ℕ → Call
  set_input_line : Option (ℕ → ℕ) → (len cursor : ℕ) → Call
  scroll_lines : ℤ → Call

pub run : Call → Terminal → Terminal
run (init theme) t = terminal_init theme t
run (apply_theme theme) t = terminal_apply_theme theme t
run clear_scrollback t = terminal_clear_scrollback t
run (write s) t = terminal_write s t
run (write_error s) t = terminal_write_error s t
run (set_prompt s) t = terminal_set_prompt s t
run (set_status s) t = terminal_set_status s t
run (putc c) t = terminal_putc c t
run (set_input_line input len cursor) t = terminal_set_input_line input len cursor t
run (scroll_lines delta) t = terminal_scroll_lines delta t

abbrev text_length : Option (List ℕ) → ℕ
text_length none = 0
text_length (some s) = length s

-- The lines that a call may add.
abbrev pub lines_of : Call → ℕ
lines_of (write s) = text_length s
lines_of (write_error s) = text_length s
lines_of (putc c) = 1
lines_of call = 0

pub terminal_render-Advances : (t : Terminal) → IsValid t → Advances 0 t (terminal_render t)
unfolding terminal_render first_abs_line
terminal_render-Advances t v = record {
  valid = record {
    column = v.column;
    counted = v.counted;
    no_wrap = v.no_wrap;
    back = v.back;
    offset = shown_offset_lem t v;
    in_ring = v.in_ring;
    input_fits = v.input_fits;
    cursor_in = v.cursor_in;
  };
  from = omega arith;
  at_most = omega arith;
  kept = λ a l h. refl;
}

-- The fields of the state that are given anew and are of no account.
IsValid-look :
    (t : Terminal) (theme : Theme) (prompt status : ℕ → ℕ)
    → IsValid t
    → IsValid (record t { theme = theme; prompt = prompt; status = status })
unfolding first_abs_line
IsValid-look t theme prompt status v = record {
  column = v.column;
  counted = v.counted;
  no_wrap = v.no_wrap;
  back = v.back;
  offset = v.offset;
  in_ring = v.in_ring;
  input_fits = v.input_fits;
  cursor_in = v.cursor_in;
}

rendered : (t : Terminal) → IsValid t → IsValid (terminal_render t)
rendered t v = (terminal_render-Advances t v).valid

clear_rows-IsValid : (rounds i : ℕ) (t : Terminal) → IsValid t → IsValid (clear_rows rounds i t)
unfolding clear_rows clear_line
clear_rows-IsValid zero i t v = v
clear_rows-IsValid (suc rounds) i t v =
    clear_rows-IsValid rounds (i + 1) (clear_line i t)
      (IsValid-cells t _ t.current_attr t.current_col v.column v)

start_again-IsValid : (t : Terminal) → IsValid t → IsValid (start_again t)
unfolding start_again first_abs_line
start_again-IsValid t v = rendered _ (
    clear_rows-IsValid 512 0 _ (record {
      column = omega arith;
      counted = refl;
      no_wrap = omega arith;
      back = 0;
      offset = refl;
      in_ring = omega arith;
      input_fits = v.input_fits;
      cursor_in = v.cursor_in;
    }))

-- The offset after a scroll is a number of lines that the ring has.
clamped :
    (z : ℤ) (m : ℕ)
    → (b : ℕ) × (b ≤ m)
      × ((let low = if is_negative z then pos 0 else z in
            if exceeds low (pos m) then pos m else low)
          ≡ pos b)
clamped (pos n) m = (if ltb m n then m else n, ground arith, ground arith)
clamped (negsuc n) m = (0, omega arith, ground arith)

scroll-IsValid : (delta : ℤ) (t : Terminal) → IsValid t → IsValid (terminal_scroll_lines delta t)
unfolding terminal_scroll_lines first_abs_line
scroll-IsValid delta t v =
    let first = first_abs_line t in
    let room : (t.current_line + 2 ^ 32 - first) % 2 ^ 32 ≡ t.current_line - first =
      omega (arith, v.in_ring, v.no_wrap) in
    let max_off : to_int ((t.current_line + 2 ^ 32 - first) % 2 ^ 32)
        ≡ pos (t.current_line - first) =
      rw room (ground (arith, v.no_wrap)) in
    let c = clamped (t.scroll_offset +ℤ delta) (t.current_line - first) in
    rendered _ (record {
      column = v.column;
      counted = v.counted;
      no_wrap = v.no_wrap;
      back = c.0;
      offset = rw max_off c.2;
      in_ring = omega (arith, c.1, v.in_ring);
      input_fits = v.input_fits;
      cursor_in = v.cursor_in;
    })

input-IsValid :
    (input : Option (ℕ → ℕ)) (len cursor : ℕ) (t : Terminal)
    → IsValid t
    → IsValid (terminal_set_input_line input len cursor t)
unfolding terminal_set_input_line first_abs_line
input-IsValid none len cursor t v = rendered _ (record {
  column = v.column;
  counted = v.counted;
  no_wrap = v.no_wrap;
  back = v.back;
  offset = v.offset;
  in_ring = v.in_ring;
  input_fits = omega arith;
  cursor_in = omega arith;
})
input-IsValid (some input) len cursor t v = rendered _ (record {
  column = v.column;
  counted = v.counted;
  no_wrap = v.no_wrap;
  back = v.back;
  offset = v.offset;
  in_ring = v.in_ring;
  input_fits = ground arith;
  cursor_in = ground arith;
})

-- terminal_write of any text to a well-formed terminal, while the line counter stays below 2 ^ 31,
-- leaves it well-formed. The current line moves down by at most as many lines as the text has bytes,
-- and every line before it that the ring still has shows what it showed.
pub terminal_write-Advances :
    (s : List ℕ) (t : Terminal)
    → IsValid t
    → t.current_line + length s < 2 ^ 31
    → Advances (length s) t (terminal_write (some s) t)
unfolding terminal_write
terminal_write-Advances s t v room =
    let w = write_loop-Advances 0 s t v room in
    Advances-more (length s + 0) (length s) t _ (omega arith) (
      Advances-trans (length s) 0 t (write_loop 0 s t) _ w
        (terminal_render-Advances (write_loop 0 s t) w.valid))

write-IsValid :
    (s : Option (List ℕ)) (t : Terminal)
    → IsValid t
    → t.current_line + text_length s < 2 ^ 31
    → IsValid (terminal_write s t)
unfolding terminal_write
write-IsValid none t v room = rendered t v
write-IsValid (some s) t v room = (terminal_write-Advances s t v room).valid

-- Every call on a well-formed terminal leaves it well-formed, while the line counter stays below
-- 2 ^ 31 with a line more for each byte that is written: the column and the input cursor inside their
-- lines, the input of at most 127 bytes, the number of lines one more than the current one's, and the
-- scroll offset a number of lines that the ring has.
pub run-IsValid :
    (c : Call) (t : Terminal) → IsValid t → t.current_line + lines_of c < 2 ^ 31 → IsValid (run c t)
unfolding run terminal_init terminal_apply_theme terminal_clear_scrollback terminal_putc
    terminal_write_error terminal_set_prompt terminal_set_status
run-IsValid (init none) t v room = start_again-IsValid _ (IsValid-look t _ t.prompt t.status v)
run-IsValid (init (some theme)) t v room =
    start_again-IsValid _ (IsValid-look t theme t.prompt t.status v)
run-IsValid (apply_theme none) t v room = v
run-IsValid (apply_theme (some theme)) t v room =
    rendered _
      (attr-Advances _ (theme_attr theme.fg_output theme.bg)
        (IsValid-look t theme t.prompt t.status v)).valid
run-IsValid clear_scrollback t v room = start_again-IsValid t v
run-IsValid (write s) t v room = write-IsValid s t v room
run-IsValid (write_error s) t v room =
    let attr = theme_attr t.theme.fg_error t.theme.bg in
    (attr-Advances _ t.current_attr (write-IsValid s _ (attr-Advances t attr v).valid room)).valid
run-IsValid (set_prompt none) t v room = v
run-IsValid (set_prompt (some s)) t v room = rendered _ (IsValid-look t t.theme _ t.status v)
run-IsValid (set_status none) t v room = v
run-IsValid (set_status (some s)) t v room = rendered _ (IsValid-look t t.theme t.prompt _ v)
run-IsValid (putc c) t v room = rendered _ (put_output_char-Advances c t v room).valid
run-IsValid (set_input_line input len cursor) t v room = input-IsValid input len cursor t v
run-IsValid (scroll_lines delta) t v room = scroll-IsValid delta t v
