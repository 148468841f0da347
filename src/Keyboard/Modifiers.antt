-- ===== src/Keyboard/Modifiers.antt =====
-- The modifier byte of kernel/input/keyboard.c against three switches, which each scan code may turn.
use ronin_os.Base.{
  ℕ, ◌+◌, ◌*◌, ◌<◌, ◌≡◌, refl, ◌∙◌, ap, Bool, true, false, ◌||◌, List, [], ◌∷◌, arith, ◌==◌, ==_iff,
  if◌then◌else◌,
}
use ronin_os.Base.Bits.{passes, passes-at}
use ronin_os.Keyboard.{
  Keyboard, keyboard_isr, run, on_key_press, release, extended_code, plain_code, map_ascii,
}

-- The modifiers that the decoder takes to be down.
pub record Held : Type 0 where
  pub shift : Bool
  pub ctrl : Bool
  pub alt : Bool

abbrev pub as_bit : Bool → ℕ
as_bit true = 1
as_bit false = 0

abbrev pub encode : Held → ℕ
encode h = as_bit h.shift + 2 * as_bit h.ctrl + 4 * as_bit h.alt

-- What a scan code does to a switch, as the code has it: the key's code turns it on and the code plus 128
-- off. One switch stands for the left and the right key.
abbrev hold_key : Bool → Bool → Bool → Bool
hold_key down up was = if down then true else if up then false else was

unfoldable pub hold : Held → ℕ → Held
hold h sc = record {
  shift = hold_key (sc == 0x2a || sc == 0x36) (sc == 0xaa || sc == 0xb6) h.shift;
  ctrl = hold_key (sc == 0x1d) (sc == 0x9d) h.ctrl;
  alt = hold_key (sc == 0x38) (sc == 0xb8) h.alt;
}

unfoldable pub hold_all : Held → List ℕ → Held
hold_all h [] = h
hold_all h (sc ∷ scs) = hold_all (hold h sc) scs

abbrev pub Bytes : List ℕ → Type 0
Bytes [] = Unit
Bytes (x ∷ xs) = (x < 256) × Bytes xs

abbrev held : Bool → Bool → Bool → Held
held s c a = record { shift = s; ctrl = c; alt = a }

mods_of : ℕ → ℕ → ℕ
mods_of mods sc = (keyboard_isr (record { mods = mods; e0 = 0 }) sc).0.mods

-- The prefix state does not touch the modifiers.
keyboard_isr-mods : (k : Keyboard) (sc : ℕ) → (keyboard_isr k sc).0.mods ≡ mods_of k.mods sc
unfolding mods_of keyboard_isr on_key_press
keyboard_isr-mods k sc = ground arith

agrees : Held → ℕ → Bool
agrees h sc = mods_of (encode h) sc == encode (hold h sc)

agrees_table : (s c a : Bool) → passes (agrees (held s c a)) 0 256 ≡ true
unfolding passes agrees mods_of keyboard_isr hold release on_key_press extended_code plain_code
    map_ascii
agrees_table true true true = refl
agrees_table true true false = refl
agrees_table true false true = refl
agrees_table true false false = refl
agrees_table false true true = refl
agrees_table false true false = refl
agrees_table false false true = refl
agrees_table false false false = refl

keyboard_isr-hold :
    (k : Keyboard) (h : Held) (sc : ℕ)
    → k.mods ≡ encode h
    → sc < 256
    → (keyboard_isr k sc).0.mods ≡ encode (hold h sc)
unfolding agrees
keyboard_isr-hold k h sc e l =
    keyboard_isr-mods k sc
    ∙ ap (λ m. mods_of m sc) e
    ∙ (==_iff _ _).0 (
        passes-at (agrees h) 256 0 sc (agrees_table h.shift h.ctrl h.alt) (omega arith)
          (omega arith))

-- Whatever bytes the keyboard sends, the modifier byte that the decoder keeps is the encoding of
-- the switches that they turn, with the prefix state arbitrary.
pub run-hold_all :
    (scs : List ℕ) (k : Keyboard) (h : Held)
    → k.mods ≡ encode h
    → Bytes scs
    → (run k scs).0.mods ≡ encode (hold_all h scs)
unfolding run hold_all
run-hold_all [] k h e b = e
run-hold_all (sc ∷ scs) k h e b =
    run-hold_all scs (keyboard_isr k sc).0 (hold h sc) (keyboard_isr-hold k h sc e b.0) b.1
