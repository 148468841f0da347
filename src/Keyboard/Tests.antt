-- ===== src/Keyboard/Tests.antt =====
-- The scan code decoder at concrete bytes.
use ronin_os.Base.{ℕ, ◌≡◌, refl, ◌≤◌, List, [], ◌∷◌, ◌++◌, map, arith, true, false, length}
use ronin_os.Keyboard.{
  KeyCode, char, emit, eoi, keyboard_init, keyboard_isr, run, on_key_press, release, extended_code,
  plain_code, map_ascii, key_event,
}
use ronin_os.Keyboard.Modifiers.{Held, encode, hold_all, run-hold_all}
use ronin_os.Keyboard.Keys.{
  Keys, Stroke, shift, ctrl, right, down, up, other, bytes_of, after_all, held, run-held,
}
use ronin_os.Keyboard.Events.{events, AllKeys, keyboard_isr-eoi, run-prefix_release}

abbrev none_held : Held
none_held = record { shift = false; ctrl = false; alt = false }

-- left shift down, 'a' down, left shift up, 'a' down
abbrev shift_a : List ℕ
shift_a = 0x2a ∷ 0x1e ∷ 0xaa ∷ 0x1e ∷ []

shift_a_types :
    events (run keyboard_init shift_a).1 ≡ key_event char b'A' 1 ∷ key_event char b'a' 0 ∷ []
unfolding run keyboard_isr keyboard_init on_key_press release extended_code plain_code map_ascii
shift_a_types = refl

-- The left arrow goes down and up, then 'a' twice: the first 'a' is lost.
arrow_then_a :
    events (run keyboard_init (0xe0 ∷ 0x4b ∷ 0xe0 ∷ 0xcb ∷ 0x1e ∷ 0x1e ∷ [])).1
    ≡ key_event KeyCode.left 0 0 ∷ key_event char b'a' 0 ∷ []
unfolding run keyboard_isr keyboard_init on_key_press release extended_code plain_code map_ascii
arrow_then_a = refl

run-hold_all_instance : (run keyboard_init shift_a).0.mods ≡ encode (hold_all none_held shift_a)
unfolding keyboard_init
run-hold_all_instance = run-hold_all shift_a keyboard_init none_held refl (omega arith)

keyboard_isr-eoi_instance :
    ((keyboard_isr keyboard_init 0x1e).1
      ≡ map emit (events (keyboard_isr keyboard_init 0x1e).1) ++ eoi 1 ∷ [])
    × (length (events (keyboard_isr keyboard_init 0x1e).1) ≤ 1)
    × AllKeys (events (keyboard_isr keyboard_init 0x1e).1)
keyboard_isr-eoi_instance = keyboard_isr-eoi keyboard_init 0x1e

run-prefix_release_example :
    (events (run keyboard_init (0xe0 ∷ 0xcb ∷ 0x1e ∷ [])).1 ≡ [])
    × ((run keyboard_init (0xe0 ∷ 0xcb ∷ 0x1e ∷ [])).0.e0 ≡ 0)
unfolding extended_code
run-prefix_release_example =
    run-prefix_release keyboard_init 0xcb 0x1e (omega arith) (omega arith) refl (omega arith)
      (omega arith) (omega arith) (omega arith) refl

abbrev nothing_held : Keys
nothing_held = record {
  shifts = record { at_left = false; at_right = false };
  ctrls = record { at_left = false; at_right = false };
  alts = record { at_left = false; at_right = false };
}

-- Right Ctrl down, the left arrow down and up, right shift down, Ctrl up.
abbrev strokes : List Stroke
strokes =
    down ctrl right ∷ other true 0x4b ∷ other true 0xcb ∷ down shift right ∷ up ctrl right ∷ []

run-held_example :
    (run keyboard_init (bytes_of strokes)).0.mods ≡ encode (held (after_all nothing_held strokes))
unfolding keyboard_init
run-held_example =
    run-held strokes keyboard_init nothing_held
      (record { one_shift = refl; one_ctrl = refl; one_alt = refl }) refl
      (
        refl,
        (
          (omega arith, omega arith, omega arith, omega arith, omega arith),
          ((omega arith, omega arith, omega arith, omega arith, omega arith), (refl, (refl, tt))),
        ),
      )
