-- ===== src/Shell/Tests.antt =====
-- The line editor on a few keys.
use ronin_os.Base.{ℕ, ◌-◌, ◌<◌, ◌≡◌, refl, false, none, arith}
use ronin_os.Keyboard.{KeyEvent, char}
use ronin_os.Shell.{Shell, shift_up}
use ronin_os.Shell.Keys.{shell_handle_key, insert_char, erase_before, erase_at}
use ronin_os.Shell.Valid.{IsValid}
use ronin_os.Shell.Edit.{Inserted, Erased, insert_char-Inserted, erase-Erased}
use ronin_os.Shell.Run.{shell_handle_key-IsValid}

-- The zero-initialised state.
abbrev blank : Shell
blank = record {
  line = λ q. 0;
  len = 0;
  cursor = 0;
  history = λ j q. 0;
  hist_count = 0;
  hist_index = none;
  simple_mode = false;
}

abbrev key : ℕ → KeyEvent
key ch = record { code = char; ch = ch; modifiers = 0 }

blank-IsValid : IsValid blank
blank-IsValid = record {
  text = record { short = omega arith; full = λ q l. absurd (omega arith); ends = refl };
  cursor_in = omega arith;
  count_in = omega arith;
  index_in = tt;
  entries = λ j l. absurd (omega arith);
}

-- "ac" with the cursor before the "c".
before_c : Shell
before_c = record (insert_char (insert_char blank 97) 99) { cursor = 1 }

before_c-IsValid : IsValid before_c
unfolding before_c insert_char
before_c-IsValid =
    let a = insert_char-Inserted blank 97 blank-IsValid (λ q. cc) (omega arith) in
    let c = insert_char-Inserted (insert_char blank 97) 99 a.1 (λ q. cc) (omega arith) in
    record {
      text = c.1.text;
      cursor_in = omega arith;
      count_in = omega arith;
      index_in = tt;
      entries = c.1.entries;
    }

types_b : (insert_char before_c 98).line 1 ≡ 98
unfolding before_c insert_char shift_up
types_b = refl

insert_char-Inserted_example :
    Inserted blank (insert_char blank 97) 97 × IsValid (insert_char blank 97)
insert_char-Inserted_example = insert_char-Inserted blank 97 blank-IsValid (λ q. cc) (omega arith)

erase-Erased_instance :
    (0 < before_c.cursor → Erased before_c (erase_before before_c) (before_c.cursor - 1))
    × (before_c.cursor ≡ 0 → erase_before before_c ≡ before_c)
    × (before_c.cursor < before_c.len → Erased before_c (erase_at before_c) before_c.cursor)
    × (before_c.cursor ≡ before_c.len → erase_at before_c ≡ before_c)
    × IsValid (erase_before before_c)
    × IsValid (erase_at before_c)
erase-Erased_instance = erase-Erased before_c before_c-IsValid

shell_handle_key-IsValid_example : IsValid (shell_handle_key before_c (key 98)).0
shell_handle_key-IsValid_example =
    shell_handle_key-IsValid before_c (key 98) before_c-IsValid (λ q r. cc)
