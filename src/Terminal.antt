-- ===== src/Terminal.antt =====
-- kernel/terminal/terminal.c and kernel/ui/theme.h: the text terminal with its scrollback ring, the
-- input line and the status line. A `char` is its byte, a text is a list of bytes without the NUL,
-- `none` for NULL; VGA memory is a function from the index to the 16-bit word. The sums of `int` are
-- those of the integers.
pub mod Valid
pub mod Screen
pub mod Calls
pub mod Quirks
mod Tests
use ronin_os.Base.{
  ℕ, zero, suc, ◌+◌, ◌-◌, ◌*◌, ◌/◌, ◌%◌, ◌^◌, Bool, true, false, not, ◌&&◌, ◌||◌, Option, none,
  some, List, [], ◌∷◌, ◌==◌, leb, ltb, if◌then◌else◌, get_or, add32,
}

-- TERM_WIDTH, TERM_SCROLLBACK_LINES and TERM_OUTPUT_ROWS
abbrev pub term_width : ℕ
term_width = 80

abbrev pub term_scrollback_lines : ℕ
term_scrollback_lines = 512

abbrev pub term_output_rows : ℕ
term_output_rows = 23

-- The values of `int`: `negsuc n` is -(n + 1).
pub data ℤ : Type 0 where
  pos : ℕ → ℤ
  negsuc : ℕ → ℤ

infixl 65 ◌+ℤ◌
abbrev pub ◌+ℤ◌ : ℤ → ℤ → ℤ
pos a +ℤ pos b = pos (a + b)
pos a +ℤ negsuc b = if ltb b a then pos (a - b - 1) else negsuc (b - a)
negsuc a +ℤ pos b = if ltb a b then pos (b - a - 1) else negsuc (a - b)
negsuc a +ℤ negsuc b = negsuc (a + b + 1)

-- `a > b`
abbrev pub exceeds : ℤ → ℤ → Bool
exceeds (pos a) (pos b) = ltb b a
exceeds (pos a) (negsuc b) = true
exceeds (negsuc a) (pos b) = false
exceeds (negsuc a) (negsuc b) = ltb a b

abbrev pub is_negative : ℤ → Bool
is_negative (pos n) = false
is_negative (negsuc n) = true

-- `(int)` of a 32-bit number.
abbrev pub to_int : ℕ → ℤ
to_int n = if ltb n (2 ^ 31) then pos n else negsuc (2 ^ 32 - 1 - n)

-- `(uint32_t)` of an `int`.
abbrev pub to_uint : ℤ → ℕ
to_uint (pos n) = n
to_uint (negsuc n) = 2 ^ 32 - 1 - n

pub record Theme : Type 0 where
  pub bg : ℕ
  pub fg_output : ℕ
  pub fg_prompt : ℕ
  pub fg_input : ℕ
  pub fg_error : ℕ
  pub fg_status : ℕ
  pub fg_accent : ℕ

abbrev pub theme_ronin_dark : Theme
theme_ronin_dark = record {
  bg = 0;
  fg_output = 7;
  fg_prompt = 10;
  fg_input = 15;
  fg_error = 12;
  fg_status = 11;
  fg_accent = 14;
}

-- The parts of the byte do not overlap, so that `|` adds them.
abbrev pub theme_attr : (fg bg : ℕ) → ℕ
theme_attr fg bg = (bg * 16 + fg % 16) % 256

pub record Cell : Type 0 where
  pub ch : ℕ
  pub attr : ℕ

pub record Terminal : Type 0 where
  pub lines : ℕ → ℕ → Cell
  pub total_lines : ℕ
  pub current_line : ℕ
  pub current_col : ℕ
  pub scroll_offset : ℤ
  pub current_attr : ℕ
  pub theme : Theme
  pub prompt : ℕ → ℕ
  pub input : ℕ → ℕ
  pub input_len : ℕ
  pub input_cursor : ℕ
  pub status : ℕ → ℕ
  pub vga : ℕ → ℕ
  pub hw_cursor : ℕ

abbrev pub vga_entry : Cell → ℕ
vga_entry c = c.ch % 256 + c.attr * 256

abbrev pub output_attr : Terminal → ℕ
output_attr t = theme_attr t.theme.fg_output t.theme.bg

abbrev pub blank : Terminal → Cell
blank t = record { ch = b' '; attr = output_attr t }

unfoldable pub first_abs_line : Terminal → ℕ
first_abs_line t =
    if ltb term_scrollback_lines t.total_lines then t.total_lines - term_scrollback_lines else 0

abbrev pub slot : ℕ → ℕ
slot abs_line = abs_line % term_scrollback_lines

unfoldable pub clear_line : ℕ → Terminal → Terminal
clear_line abs_line t = record t {
  lines = λ i. if i == slot abs_line then (λ col. blank t) else t.lines i;
}

unfoldable pub ensure_current_line_initialized : Terminal → Terminal
ensure_current_line_initialized t = if t.current_col == 0 then clear_line t.current_line t else t

unfoldable pub linefeed : Terminal → Terminal
linefeed t =
    let next = add32 t.current_line 1 in
    let moved = record t { current_col = 0; current_line = next; total_lines = add32 next 1 } in
    record (clear_line next moved) { scroll_offset = pos 0 }

-- A cell of the current line.
unfoldable pub store_cell : ℕ → Cell → Terminal → Terminal
store_cell col c t = record t {
  lines = λ i.
      if i == slot t.current_line then (λ j. if j == col then c else t.lines i j) else t.lines i;
}

-- The end of put_output_char, for a character that is shown.
unfoldable pub put_visible : ℕ → Terminal → Terminal
put_visible c t =
    let t' = ensure_current_line_initialized t in
    let stored = store_cell t'.current_col (record { ch = c; attr = t'.current_attr }) t' in
    let moved = record stored { current_col = stored.current_col + 1 } in
    if leb term_width moved.current_col then linefeed moved else moved

-- A `char` above 127 is negative, so that the first of the two tests on its range holds.
unfoldable pub put_output_char : ℕ → Terminal → Terminal
put_output_char c t =
    if c == b'\n'
    then linefeed t
    else if c == b'\r'
    then record t { current_col = 0 }
    else if c == 8
    then (if ltb 0 t.current_col
        then store_cell (t.current_col - 1) (record { ch = b' '; attr = t.current_attr })
            (record t { current_col = t.current_col - 1 })
        else t)
    else if ltb c 32 || ltb 126 c
    then t
    else put_visible c t

-- The attribute and the number of bytes. A byte behind the text is read as 0; whatever it is, the
-- code that reads it does not match.
unfoldable pub parse_ansi_code : Terminal → List ℕ → Option (ℕ × ℕ)
parse_ansi_code t s =
    if not (get_or s 0 0 == 27) || not (get_or s 1 0 == b'[')
    then none
    else if get_or s 2 0 == b'0' && get_or s 3 0 == b'm'
    then some (output_attr t, 4)
    else if get_or s 2 0 == b'3' && get_or s 4 0 == b'm'
    then (if get_or s 3 0 == b'1'
        then some (theme_attr 4 t.theme.bg, 5)
        else if get_or s 3 0 == b'2'
        then some (theme_attr 2 t.theme.bg, 5)
        else none)
    else none

-- `while (f[i]) i++`
unfoldable pub text_len : ℕ → (ℕ → ℕ) → ℕ → ℕ
text_len zero f i = i
text_len (suc rounds) f i = let rest = text_len rounds f (i + 1) in if f i == 0 then i else rest

-- The scroll offset as terminal_render corrects it.
unfoldable pub shown_offset : Terminal → ℤ
shown_offset t =
    if is_negative t.scroll_offset
    then pos 0
    else if ltb t.current_line (to_uint t.scroll_offset)
    then to_int t.current_line
    else t.scroll_offset

-- The first line on the screen; both sides of the comparison are 32-bit numbers.
unfoldable pub top_line : Terminal → ℕ
top_line t =
    let hidden = add32 (term_output_rows - 1) (to_uint (shown_offset t)) in
    let top = if leb hidden t.current_line then t.current_line - hidden else 0 in
    if ltb top (first_abs_line t) then first_abs_line t else top

unfoldable pub output_cell : Terminal → (row col : ℕ) → Cell
output_cell t row col =
    let abs_line = add32 (top_line t) row in
    if leb abs_line t.current_line && leb (first_abs_line t) abs_line
    then t.lines (slot abs_line) col
    else blank t

unfoldable pub input_cell : Terminal → ℕ → Cell
input_cell t col =
    let len = text_len 32 t.prompt 0 in
    let input_attr = theme_attr t.theme.fg_input t.theme.bg in
    if ltb col len
    then record { ch = t.prompt col; attr = theme_attr t.theme.fg_prompt t.theme.bg }
    else if ltb (col - len) t.input_len
    then record { ch = t.input (col - len); attr = input_attr }
    else record { ch = b' '; attr = input_attr }

unfoldable pub status_cell : Terminal → ℕ → Cell
status_cell t col = record {
  ch = if t.status col == 0 then b' ' else t.status col;
  attr = theme_attr t.theme.fg_status 1;
}

-- The words of the screen, row by row, and the cursor's place. Every cell is written, those of the
-- input line once more where there is text.
unfoldable pub terminal_render : Terminal → Terminal
terminal_render t =
    let cursor_col = text_len 32 t.prompt 0 + t.input_cursor in
    record t {
      scroll_offset = shown_offset t;
      vga = λ p.
          if ltb (p / term_width) term_output_rows
          then vga_entry (output_cell t (p / term_width) (p % term_width))
          else if p / term_width == term_output_rows
          then vga_entry (input_cell t (p % term_width))
          else if p / term_width == term_output_rows + 1
          then vga_entry (status_cell t (p % term_width))
          else t.vga p;
      hw_cursor =
          term_output_rows * term_width
          + (if leb term_width cursor_col then term_width - 1 else cursor_col);
    }

unfoldable pub clear_rows : ℕ → ℕ → Terminal → Terminal
clear_rows zero i t = t
clear_rows (suc rounds) i t = clear_rows rounds (i + 1) (clear_line i t)

-- From the reset of the attribute on.
unfoldable pub start_again : Terminal → Terminal
start_again t = terminal_render (
    clear_rows term_scrollback_lines 0 (record t {
      current_attr = output_attr t;
      total_lines = 1;
      current_line = 0;
      current_col = 0;
      scroll_offset = pos 0;
    }))

unfoldable pub terminal_init : Option Theme → Terminal → Terminal
terminal_init none t = start_again (record t { theme = theme_ronin_dark })
terminal_init (some theme) t = start_again (record t { theme = theme })

unfoldable pub terminal_apply_theme : Option Theme → Terminal → Terminal
terminal_apply_theme none t = t
terminal_apply_theme (some theme) t =
    terminal_render (record t { theme = theme; current_attr = theme_attr theme.fg_output theme.bg })

unfoldable pub terminal_clear_scrollback : Terminal → Terminal
terminal_clear_scrollback t = start_again t

-- The loop of terminal_write; the first `skip` bytes belong to a code that has been taken.
unfoldable pub write_loop : ℕ → List ℕ → Terminal → Terminal
write_loop skip [] t = t
write_loop (suc skip) (c ∷ cs) t = write_loop skip cs t
write_loop zero (c ∷ cs) t = elim (parse_ansi_code t (c ∷ cs)) [
  | none ↦ write_loop zero cs (put_output_char c t)
  | some (attr, consumed) ↦ write_loop (consumed - 1) cs (record t { current_attr = attr })
]

unfoldable pub terminal_write : Option (List ℕ) → Terminal → Terminal
terminal_write none t = terminal_render t
terminal_write (some s) t = terminal_render (write_loop 0 s t)

unfoldable pub terminal_putc : ℕ → Terminal → Terminal
terminal_putc c t = terminal_render (put_output_char c t)

unfoldable pub terminal_write_error : Option (List ℕ) → Terminal → Terminal
terminal_write_error s t =
    let t' =
      terminal_write s (record t { current_attr = theme_attr t.theme.fg_error t.theme.bg }) in
    record t' { current_attr = t.current_attr }

-- The bytes of the text, up to `cap` of them, and a NUL.
unfoldable pub copy_text : ℕ → List ℕ → ℕ → (ℕ → ℕ) → ℕ → ℕ
copy_text cap [] i f = λ j. if j == i then 0 else f j
copy_text zero (c ∷ cs) i f = λ j. if j == i then 0 else f j
copy_text (suc cap) (c ∷ cs) i f = copy_text cap cs (i + 1) (λ j. if j == i then c else f j)

unfoldable pub terminal_set_prompt : Option (List ℕ) → Terminal → Terminal
terminal_set_prompt none t = t
terminal_set_prompt (some prompt) t =
    terminal_render (record t { prompt = copy_text 31 prompt 0 t.prompt })

unfoldable pub terminal_set_input_line : Option (ℕ → ℕ) → (len cursor : ℕ) → Terminal → Terminal
terminal_set_input_line none len cursor t =
    terminal_render
      (record t { input = λ j. if j == 0 then 0 else t.input j; input_len = 0; input_cursor = 0 })
terminal_set_input_line (some input) len cursor t =
    let kept = if leb 128 len then 127 else len in
    terminal_render (record t {
      input = λ j. if ltb j kept then input j else if j == kept then 0 else t.input j;
      input_len = kept;
      input_cursor = if ltb kept cursor then kept else cursor;
    })

unfoldable pub terminal_scroll_lines : ℤ → Terminal → Terminal
terminal_scroll_lines delta t =
    let max_off = to_int ((t.current_line + 2 ^ 32 - first_abs_line t) % 2 ^ 32) in
    let sum = t.scroll_offset +ℤ delta in
    let low = if is_negative sum then pos 0 else sum in
    terminal_render (record t { scroll_offset = if exceeds low max_off then max_off else low })

-- The bytes of the text, up to 79 of them, and 0 behind.
unfoldable pub terminal_set_status : Option (List ℕ) → Terminal → Terminal
terminal_set_status none t = t
terminal_set_status (some status) t =
    terminal_render (record t { status = λ j. if ltb j 79 then get_or status j 0 else 0 })
