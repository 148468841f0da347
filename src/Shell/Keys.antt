-- ===== src/Shell/Keys.antt =====
-- shell_handle_key of kernel/shell/shell.c.
use Prim.Native.Nat.{bit_and}
use ronin_os.Base.{
  ℕ, ◌+◌, ◌-◌, Bool, true, false, not, ◌&&◌, ◌||◌, Option, none, some, List, [], ◌∷◌, ◌++◌, ◌==◌,
  leb, ltb, if◌then◌else◌,
}
use ronin_os.Keyboard.{
  KeyEvent, KeyCode, char, enter, backspace, delete, left, right, up, down, home, end, page_up,
  page_down, shift_mask, ctrl_mask,
}
use ronin_os.Shell.{
  Shell, Output, console_prompt, scroll_up, scroll_down, terminal_putc, console_putc, execute_line,
  shell_line_max, poke, redraw_input, history_store, history_load, clear_line, shift_up, shift_down,
  skip_left, skip_right,
}

-- Behind `shell_execute_line`.
abbrev pub after_line : Shell → Shell
after_line s = clear_line (record s { hist_index = none })

-- The `switch` of the simple mode.
unfoldable pub simple_code : KeyCode → Shell → ℕ → Shell × List Output
simple_code char s ch =
    if ltb s.len (shell_line_max - 1) && s.cursor == s.len
    then (
      record s {
        line = poke (poke s.line s.cursor ch) (s.cursor + 1) 0;
        len = s.cursor + 1;
        cursor = s.cursor + 1;
      },
      console_putc ch ∷ [],
    )
    else (s, [])
simple_code backspace s ch =
    if ltb 0 s.cursor && s.cursor == s.len
    then (
      record s { line = poke s.line (s.len - 1) 0; len = s.len - 1; cursor = s.cursor - 1 },
      console_putc 8 ∷ console_putc 32 ∷ console_putc 8 ∷ [],
    )
    else (s, [])
simple_code enter s ch = (
  after_line (history_store s),
  console_putc 10 ∷ execute_line (history_store s).line ∷ console_prompt ∷ [],
)
simple_code _ s ch = (s, [])

unfoldable pub insert_char : Shell → ℕ → Shell
insert_char s ch =
    if ltb s.len (shell_line_max - 1)
    then record s {
      line = poke (poke (shift_up (s.len - s.cursor) s.line s.len) s.cursor ch) (s.len + 1) 0;
      len = s.len + 1;
      cursor = s.cursor + 1;
    }
    else s

unfoldable pub erase_before : Shell → Shell
erase_before s =
    if ltb 0 s.cursor
    then record s {
      line = poke (shift_down (s.len - 1 - (s.cursor - 1)) s.line (s.cursor - 1)) (s.len - 1) 0;
      len = s.len - 1;
      cursor = s.cursor - 1;
    }
    else s

unfoldable pub erase_at : Shell → Shell
erase_at s =
    if ltb s.cursor s.len
    then record s {
      line = poke (shift_down (s.len - 1 - s.cursor) s.line s.cursor) (s.len - 1) 0;
      len = s.len - 1;
    }
    else s

unfoldable pub move_left : Shell → ℕ → Shell
move_left s modifiers =
    if not (bit_and modifiers ctrl_mask == 0)
    then record s { cursor = skip_left false s.line (skip_left true s.line s.cursor) }
    else record s { cursor = s.cursor - 1 }

unfoldable pub move_right : Shell → ℕ → Shell
move_right s modifiers =
    if not (bit_and modifiers ctrl_mask == 0)
    then (let c = skip_right false (s.len - s.cursor) s.line s.cursor in
        record s { cursor = skip_right true (s.len - c) s.line c })
    else if ltb s.cursor s.len
    then record s { cursor = s.cursor + 1 }
    else s

-- `g_hist_index` on KEY_UP, of a history that is not empty.
abbrev pub older : Option ℕ → ℕ → ℕ
older none count = count - 1
older (some i) count = i - 1

unfoldable pub history_up : Shell → Shell
history_up s =
    if ltb 0 s.hist_count
    then history_load (record s { hist_index = some (older s.hist_index s.hist_count) })
        (some (older s.hist_index s.hist_count))
    else s

-- KEY_DOWN, by the value of `g_hist_index`.
unfoldable pub history_down_from : Shell → Option ℕ → Shell
history_down_from s none = s
history_down_from s (some i) =
    if not (ltb 0 s.hist_count)
    then s
    else if leb s.hist_count (i + 1)
    then after_line s
    else history_load (record s { hist_index = some (i + 1) }) (some (i + 1))

unfoldable pub history_down : Shell → Shell
history_down s = history_down_from s s.hist_index

-- The second `switch`: the state, and the calls before the redraw.
unfoldable pub edit_code : KeyCode → Shell → (ch modifiers : ℕ) → Shell × List Output
edit_code char s ch modifiers = (insert_char s ch, [])
edit_code backspace s ch modifiers = (erase_before s, [])
edit_code delete s ch modifiers = (erase_at s, [])
edit_code left s ch modifiers = (move_left s modifiers, [])
edit_code right s ch modifiers = (move_right s modifiers, [])
edit_code home s ch modifiers = (record s { cursor = 0 }, [])
edit_code end s ch modifiers = (record s { cursor = s.len }, [])
edit_code up s ch modifiers = (history_up s, [])
edit_code down s ch modifiers = (history_down s, [])
edit_code enter s ch modifiers =
    (after_line (history_store s), terminal_putc 10 ∷ execute_line (history_store s).line ∷ [])
edit_code _ s ch modifiers = (s, [])

-- Whether the event scrolls the terminal up, and whether it scrolls it down.
unfoldable pub scrolls : KeyCode → KeyCode → KeyEvent → Bool
scrolls page arrow ev =
    same_code ev.code page
    || (same_code ev.code arrow && not (bit_and ev.modifiers shift_mask == 0))
  where
    same_code : KeyCode → KeyCode → Bool
    same_code page_up page_up = true
    same_code page_down page_down = true
    same_code up up = true
    same_code down down = true
    same_code _ _ = false

unfoldable pub shell_handle_key : Shell → KeyEvent → Shell × List Output
shell_handle_key s ev =
    if s.simple_mode
    then simple_code ev.code s ev.ch
    else if scrolls page_up up ev
    then (s, scroll_up 8 ∷ [])
    else if scrolls page_down down ev
    then (s, scroll_down 8 ∷ [])
    else let (s', outs) = edit_code ev.code s ev.ch ev.modifiers in (s', outs ++ redraw_input s')
