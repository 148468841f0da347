-- ===== src/Keyboard.antt =====
-- kernel/input/keyboard.c and keyboard.h: the scan code decoder behind IRQ 1.
-- The state is the two static bytes. `keyboard_isr` is given the byte that `inb(0x60)` returns, and
-- returns the new state with what it does outside, in order: the events handed to
-- `shell_handle_key` and the end-of-interrupt commands sent to the interrupt controller.
pub mod Modifiers
pub mod Keys
pub mod Events
mod Tests
use Prim.Native.Nat.{bit_and, bit_or}
use ronin_os.Base.{
  ℕ, ◌-◌, Bool, true, false, not, ◌&&◌, ◌||◌, List, [], ◌∷◌, ◌++◌, ◌==◌, leb, if◌then◌else◌, get_or,
}

pub data KeyCode : Type 0 where
  none_key char enter backspace delete left right up down home end page_up page_down tab : KeyCode

-- KEYMOD_SHIFT, KEYMOD_CTRL and KEYMOD_ALT
abbrev pub shift_mask : ℕ
shift_mask = 1

abbrev pub ctrl_mask : ℕ
ctrl_mask = 2

abbrev pub alt_mask : ℕ
alt_mask = 4

pub record KeyEvent : Type 0 where
  pub code : KeyCode
  pub ch : ℕ
  pub modifiers : ℕ

pub record Keyboard : Type 0 where
  pub mods : ℕ
  pub e0 : ℕ

pub data Action : Type 0 where
  emit : KeyEvent → Action
  eoi : ℕ → Action

-- The 56 entries that the source lists; the other entries of `keymap[128]` are 0.
abbrev pub keymap : List ℕ
keymap =
    0 ∷ 27 ∷ b'1' ∷ b'2' ∷ b'3' ∷ b'4' ∷ b'5' ∷ b'6' ∷ b'7' ∷ b'8' ∷ b'9' ∷ b'0' ∷ b'-' ∷ b'=' ∷ 0
    ∷ 9 ∷ b'q' ∷ b'w' ∷ b'e' ∷ b'r' ∷ b't' ∷ b'y' ∷ b'u' ∷ b'i' ∷ b'o' ∷ b'p' ∷ b'[' ∷ b']' ∷ 10 ∷ 0
    ∷ b'a' ∷ b's' ∷ b'd' ∷ b'f' ∷ b'g' ∷ b'h' ∷ b'j' ∷ b'k' ∷ b'l' ∷ b';' ∷ 39 ∷ 96 ∷ 0 ∷ 92 ∷ b'z'
    ∷ b'x' ∷ b'c' ∷ b'v' ∷ b'b' ∷ b'n' ∷ b'm' ∷ b',' ∷ b'.' ∷ b'/' ∷ 0 ∷ b'*' ∷ 0 ∷ 32 ∷ []

abbrev pub keymap_shift : List ℕ
keymap_shift =
    0 ∷ 27 ∷ b'!' ∷ b'@' ∷ b'#' ∷ b'$' ∷ b'%' ∷ b'^' ∷ b'&' ∷ b'*' ∷ b'(' ∷ b')' ∷ b'_' ∷ b'+' ∷ 0
    ∷ 9 ∷ b'Q' ∷ b'W' ∷ b'E' ∷ b'R' ∷ b'T' ∷ b'Y' ∷ b'U' ∷ b'I' ∷ b'O' ∷ b'P' ∷ b'{' ∷ b'}' ∷ 10 ∷ 0
    ∷ b'A' ∷ b'S' ∷ b'D' ∷ b'F' ∷ b'G' ∷ b'H' ∷ b'J' ∷ b'K' ∷ b'L' ∷ b':' ∷ 34 ∷ b'~' ∷ 0 ∷ b'|'
    ∷ b'Z' ∷ b'X' ∷ b'C' ∷ b'V' ∷ b'B' ∷ b'N' ∷ b'M' ∷ b'<' ∷ b'>' ∷ b'?' ∷ 0 ∷ b'*' ∷ 0 ∷ 32 ∷ []

abbrev pub is_down : ℕ → ℕ → Bool
is_down mods mask = not (bit_and mods mask == 0)

pub map_ascii : Keyboard → ℕ → ℕ
map_ascii k sc =
    if leb 128 sc
    then 0
    else if is_down k.mods shift_mask
    then get_or keymap_shift sc 0
    else get_or keymap sc 0

-- The `switch` after an 0xE0 prefix.
pub extended_code : ℕ → KeyCode
extended_code sc =
    if sc == 0x4b
    then left
    else if sc == 0x4d
    then right
    else if sc == 0x48
    then up
    else if sc == 0x50
    then down
    else if sc == 0x47
    then home
    else if sc == 0x4f
    then end
    else if sc == 0x49
    then page_up
    else if sc == 0x51
    then page_down
    else if sc == 0x53
    then delete
    else none_key

-- The `switch` without a prefix.
pub plain_code : ℕ → KeyCode
plain_code sc =
    if sc == 0x1c
    then enter
    else if sc == 0x0e
    then backspace
    else if sc == 0x0f
    then tab
    else if sc == 0x48
    then up
    else if sc == 0x50
    then down
    else if sc == 0x47
    then home
    else if sc == 0x4f
    then end
    else if sc == 0x49
    then page_up
    else if sc == 0x51
    then page_down
    else none_key

abbrev pub is_none_key : KeyCode → Bool
is_none_key none_key = true
is_none_key _ = false

abbrev pub key_event : KeyCode → ℕ → ℕ → KeyEvent
key_event code ch mods = record { code = code; ch = ch; modifiers = mods }

abbrev pub emit_char : ℕ → ℕ → List Action
emit_char c mods = if leb 32 c && leb c 126 then emit (key_event char c mods) ∷ [] else []

pub on_key_press : Keyboard → ℕ → Keyboard × List Action
on_key_press k sc =
    if not (k.e0 == 0)
    then (
      record k { e0 = 0 },
      if is_none_key (extended_code sc)
          then []
          else emit (key_event (extended_code sc) 0 k.mods) ∷ [],
    )
    else if not (is_none_key (plain_code sc))
    then (k, emit (key_event (plain_code sc) 0 k.mods) ∷ [])
    else (k, emit_char (map_ascii k sc) k.mods)

pub keyboard_init : Keyboard
keyboard_init = record { mods = 0; e0 = 0 }

-- `g_mods &= ~mask`, on a byte
abbrev pub clear_mod : ℕ → ℕ → ℕ
clear_mod mods mask = bit_and mods (bit_and (0xffff_ffff - mask) 0xff)

pub release : ℕ → ℕ → ℕ
release mods rel =
    let a = if rel == 0x2a || rel == 0x36 then clear_mod mods shift_mask else mods in
    let b = if rel == 0x1d then clear_mod a ctrl_mask else a in
    if rel == 0x38 then clear_mod b alt_mask else b

pub keyboard_isr : Keyboard → ℕ → Keyboard × List Action
keyboard_isr k sc =
    if sc == 0xe0
    then (record k { e0 = 1 }, eoi 1 ∷ [])
    else if not (bit_and sc 0x80 == 0)
    then (record k { mods = release k.mods (bit_and sc 0x7f) }, eoi 1 ∷ [])
    else if sc == 0x2a || sc == 0x36
    then (record k { mods = bit_or k.mods shift_mask }, eoi 1 ∷ [])
    else if sc == 0x1d
    then (record k { mods = bit_or k.mods ctrl_mask }, eoi 1 ∷ [])
    else if sc == 0x38
    then (record k { mods = bit_or k.mods alt_mask }, eoi 1 ∷ [])
    else let (k', acts) = on_key_press k sc in (k', acts ++ (eoi 1 ∷ []))

-- One interrupt for each byte.
pub run : Keyboard → List ℕ → Keyboard × List Action
run k [] = (k, [])
run k (sc ∷ scs) =
    let (k', acts) = keyboard_isr k sc in let (k'', more) = run k' scs in (k'', acts ++ more)
