-- ===== src/Shell.antt =====
-- kernel/shell/shell.c: the line editor and its history. A line buffer is a function from the index
-- to the byte, of which the first 128 are used; the history index -1 is `none`. Handling a key returns
-- the new state and the calls made outside, in order. A `memcpy` is written in closed form.
pub mod Keys
pub mod Run
pub mod Edit
mod Tests
pub mod Valid
use Prim.Native.Nat.{bit_and}
use ronin_os.Base.{
  ℕ, zero, suc, ◌+◌, ◌-◌, Bool, true, false, not, ◌&&◌, ◌||◌, Option, none, some, List, [], ◌∷◌,
  ◌++◌, ◌==◌, leb, ltb, if◌then◌else◌,
}
use ronin_os.Keyboard.{
  KeyEvent, KeyCode, none_key, char, enter, backspace, delete, left, right, up, down, home, end,
  page_up, page_down, tab, shift_mask, ctrl_mask,
}

abbrev pub shell_line_max : ℕ
shell_line_max = 128

abbrev pub shell_history_max : ℕ
shell_history_max = 32

abbrev pub Buffer : Type 0
Buffer = ℕ → ℕ

pub record Shell : Type 0 where
  pub line : Buffer
  pub len : ℕ
  pub cursor : ℕ
  pub history : ℕ → Buffer
  pub hist_count : ℕ
  pub hist_index : Option ℕ
  pub simple_mode : Bool

-- The calls into the terminal, the console and the commands.
pub data Output : Type 0 where
  set_prompt : Output
  console_prompt : Output
  set_input_line : Buffer → (len cursor : ℕ) → Output
  scroll_up : ℕ → Output
  scroll_down : ℕ → Output
  terminal_putc : ℕ → Output
  console_putc : ℕ → Output
  execute_line : Buffer → Output

abbrev pub poke : Buffer → ℕ → ℕ → Buffer
poke b i v = λ q. if q == i then v else b q

pub redraw_input : Shell → List Output
redraw_input s = if s.simple_mode then [] else set_input_line s.line s.len s.cursor ∷ []

-- Whether `strcmp` of the two texts is 0.
pub same_text : ℕ → Buffer → Buffer → ℕ → Bool
same_text zero a b i = false
same_text (suc rounds) a b i =
    let rest = same_text rounds a b (i + 1) in
    if not (a i == b i) then false else if a i == 0 then true else rest

-- `memcpy` of the line into a history entry and the NUL behind it.
abbrev pub stored_line : Buffer → Buffer → ℕ → Buffer
stored_line old line len = λ q. if ltb q len then line q else if q == len then 0 else old q

pub history_store : Shell → Shell
history_store s =
    if s.len == 0
    then s
    else if ltb 0 s.hist_count && same_text shell_line_max (s.history (s.hist_count - 1)) s.line 0
    then s
    else if ltb s.hist_count shell_history_max
    then record s {
      history =
          λ j. if j == s.hist_count then stored_line (s.history j) s.line s.len else s.history j;
      hist_count = s.hist_count + 1;
    }
    else record s {
      history = λ j.
          if j == shell_history_max - 1
          then stored_line (s.history j) s.line s.len
          else if ltb j (shell_history_max - 1)
          then s.history (j + 1)
          else s.history j;
    }

-- The copy loop of history_load: the line and `i`.
pub load_loop : ℕ → Buffer → Buffer → ℕ → Buffer × ℕ
load_loop zero from line i = (line, i)
load_loop (suc rounds) from line i =
    let rest = load_loop rounds from (poke line i (from i)) (i + 1) in
    if from i == 0 then (line, i) else rest

pub history_load : Shell → Option ℕ → Shell
history_load s none = s
history_load s (some index) =
    if leb s.hist_count index
    then s
    else let (line, i) = load_loop (shell_line_max - 1) (s.history index) s.line 0 in
      record s { line = poke line i 0; len = i; cursor = i }

abbrev pub clear_line : Shell → Shell
clear_line s = record s { line = poke s.line 0 0; len = 0; cursor = 0 }

pub shell_init : Shell → Bool → Shell × List Output
shell_init s framebuffer =
    let s1 = record (clear_line s) { simple_mode = framebuffer } in
    (
      s1,
      (if framebuffer then [] else set_prompt ∷ [])
          ++ redraw_input s1
          ++ (if framebuffer then console_prompt ∷ [] else []),
    )

-- `for (i = g_len; i > g_cursor; i--) g_line[i] = g_line[i - 1]`
pub shift_up : ℕ → Buffer → ℕ → Buffer
shift_up zero b i = b
shift_up (suc rounds) b i = shift_up rounds (poke b i (b (i - 1))) (i - 1)

-- `for (; i < g_len - 1; i++) g_line[i] = g_line[i + 1]`
pub shift_down : ℕ → Buffer → ℕ → Buffer
shift_down zero b i = b
shift_down (suc rounds) b i = shift_down rounds (poke b i (b (i + 1))) (i + 1)

-- The cursor moved left while the byte before it is a space, or while it is none.
pub skip_left : Bool → Buffer → ℕ → ℕ
skip_left spaces b zero = zero
skip_left spaces b (suc c) =
    let rest = skip_left spaces b c in
    if (if spaces then b c == 32 else not (b c == 32)) then rest else suc c

pub skip_right : Bool → ℕ → Buffer → ℕ → ℕ
skip_right spaces zero b c = c
skip_right spaces (suc rounds) b c =
    let rest = skip_right spaces rounds b (c + 1) in
    if (if spaces then b c == 32 else not (b c == 32)) then rest else c
