-- ===== src/Keyboard/Keys.antt =====
-- The modifier byte of kernel/input/keyboard.c against the modifier keys of a keyboard, of which there
-- is a left and a right one for each modifier.
use ronin_os.Base.{
  ℕ, ◌+◌, ◌%◌, ◌<◌, ◌≡◌, ◌≢◌, refl, ◌∙◌, ap, Bool, true, false, ◌&&◌, ◌||◌, List, [], ◌∷◌, ◌++◌,
  arith,
}
use ronin_os.Keyboard.{Keyboard, run}
use ronin_os.Keyboard.Modifiers.{Held, encode, hold, hold_all, Bytes, run-hold_all}

pub data Modifier : Type 0 where
  shift ctrl alt : Modifier

pub data Side : Type 0 where
  left right : Side

pub record Pair : Type 0 where
  pub at_left : Bool
  pub at_right : Bool

-- The keys that are held down.
pub record Keys : Type 0 where
  pub shifts : Pair
  pub ctrls : Pair
  pub alts : Pair

abbrev pub pair_of : Keys → Modifier → Pair
pair_of ks shift = ks.shifts
pair_of ks ctrl = ks.ctrls
pair_of ks alt = ks.alts

abbrev pub key_of : Keys → Modifier → Side → Bool
key_of ks m left = (pair_of ks m).at_left
key_of ks m right = (pair_of ks m).at_right

abbrev pub other_side : Side → Side
other_side left = right
other_side right = left

abbrev put : Side → Bool → Pair → Pair
put left b p = record p { at_left = b }
put right b p = record p { at_right = b }

abbrev pub put_key : Modifier → Side → Bool → Keys → Keys
put_key shift s b ks = record ks { shifts = put s b ks.shifts }
put_key ctrl s b ks = record ks { ctrls = put s b ks.ctrls }
put_key alt s b ks = record ks { alts = put s b ks.alts }

-- A modifier key goes down (again and again while it is held) or up, or the keyboard sends a code of
-- another key, behind the prefix or not.
pub data Stroke : Type 0 where
  down up : Modifier → Side → Stroke
  other : (prefixed : Bool) (code : ℕ) → Stroke

abbrev pub after : Keys → Stroke → Keys
after ks (down m s) = put_key m s true ks
after ks (up m s) = put_key m s false ks
after ks (other p code) = ks

-- Scan code set 1: the right Ctrl and Alt are behind the prefix, the shifts have codes of their own,
-- and the code of a key that goes up is greater by 128.
abbrev pub key_code : Modifier → Side → ℕ
key_code shift left = 0x2a
key_code shift right = 0x36
key_code ctrl s = 0x1d
key_code alt s = 0x38

abbrev pub is_prefixed : Modifier → Side → Bool
is_prefixed shift s = false
is_prefixed m left = false
is_prefixed m right = true

abbrev pub with_prefix : Bool → ℕ → List ℕ
with_prefix false code = code ∷ []
with_prefix true code = 0xe0 ∷ code ∷ []

abbrev pub bytes : Stroke → List ℕ
bytes (down m s) = with_prefix (is_prefixed m s) (key_code m s)
bytes (up m s) = with_prefix (is_prefixed m s) (key_code m s + 128)
bytes (other p code) = with_prefix p code

abbrev pub bytes_of : List Stroke → List ℕ
bytes_of [] = []
bytes_of (x ∷ xs) = bytes x ++ bytes_of xs

abbrev pub after_all : Keys → List Stroke → Keys
after_all ks [] = ks
after_all ks (x ∷ xs) = after_all (after ks x) xs

-- A key goes down only while the other one of its modifier is up, and goes up only if it is down; the
-- other codes are not those of modifier keys.
abbrev pub Allowed : Keys → Stroke → Type 0
Allowed ks (down m s) = key_of ks m (other_side s) ≡ false
Allowed ks (up m s) = key_of ks m s ≡ true
Allowed ks (other p code) =
    (code < 256)
    × (code % 128 ≢ 0x2a)
    × (code % 128 ≢ 0x36)
    × (code % 128 ≢ 0x1d)
    × (code % 128 ≢ 0x38)

abbrev pub AllAllowed : Keys → List Stroke → Type 0
AllAllowed ks [] = Unit
AllAllowed ks (x ∷ xs) = Allowed ks x × AllAllowed (after ks x) xs

-- Of no modifier both keys are held.
pub record OneOfEach (ks : Keys) : Type 0 where
  pub one_shift : ks.shifts.at_left && ks.shifts.at_right ≡ false
  pub one_ctrl : ks.ctrls.at_left && ks.ctrls.at_right ≡ false
  pub one_alt : ks.alts.at_left && ks.alts.at_right ≡ false

abbrev either : Pair → Bool
either p = p.at_left || p.at_right

-- The modifiers of which a key is held.
abbrev pub held : Keys → Held
held ks = record { shift = either ks.shifts; ctrl = either ks.ctrls; alt = either ks.alts }

after-OneOfEach : (ks : Keys) (x : Stroke) → OneOfEach ks → Allowed ks x → OneOfEach (after ks x)
after-OneOfEach ks (down shift left) o a = ground arith
after-OneOfEach ks (down shift right) o a = ground arith
after-OneOfEach ks (down ctrl left) o a = ground arith
after-OneOfEach ks (down ctrl right) o a = ground arith
after-OneOfEach ks (down alt left) o a = ground arith
after-OneOfEach ks (down alt right) o a = ground arith
after-OneOfEach ks (up shift left) o a = ground arith
after-OneOfEach ks (up shift right) o a = ground arith
after-OneOfEach ks (up ctrl left) o a = ground arith
after-OneOfEach ks (up ctrl right) o a = ground arith
after-OneOfEach ks (up alt left) o a = ground arith
after-OneOfEach ks (up alt right) o a = ground arith
after-OneOfEach ks (other p code) o a = o

hold-other :
    (h : Held) (code : ℕ)
    → code % 128 ≢ 0x2a
    → code % 128 ≢ 0x36
    → code % 128 ≢ 0x1d
    → code % 128 ≢ 0x38
    → hold h code ≡ h
unfolding hold
hold-other h code a b c d = ground arith

-- What the bytes of a stroke do to the modifiers.
hold_all-after :
    (ks : Keys) (x : Stroke)
    → OneOfEach ks
    → Allowed ks x
    → hold_all (held ks) (bytes x) ≡ held (after ks x)
unfolding hold_all hold
hold_all-after ks (down shift left) o a = ground arith
hold_all-after ks (down shift right) o a = ground arith
hold_all-after ks (down ctrl left) o a = ground arith
hold_all-after ks (down ctrl right) o a = ground arith
hold_all-after ks (down alt left) o a = ground arith
hold_all-after ks (down alt right) o a = ground arith
hold_all-after ks (up shift left) o a = ground arith
hold_all-after ks (up shift right) o a = ground arith
hold_all-after ks (up ctrl left) o a = ground arith
hold_all-after ks (up ctrl right) o a = ground arith
hold_all-after ks (up alt left) o a = ground arith
hold_all-after ks (up alt right) o a = ground arith
hold_all-after ks (other false code) o (l, a, b, c, d) = hold-other (held ks) code a b c d
hold_all-after ks (other true code) o (l, a, b, c, d) = hold-other (held ks) code a b c d

hold_all-append : (h : Held) (xs ys : List ℕ) → hold_all h (xs ++ ys) ≡ hold_all (hold_all h xs) ys
unfolding hold_all
hold_all-append h [] ys = refl
hold_all-append h (x ∷ xs) ys = hold_all-append (hold h x) xs ys

hold_all-after_all :
    (xs : List Stroke) (ks : Keys)
    → OneOfEach ks
    → AllAllowed ks xs
    → hold_all (held ks) (bytes_of xs) ≡ held (after_all ks xs)
unfolding hold_all
hold_all-after_all [] ks o a = refl
hold_all-after_all (x ∷ xs) ks o a =
    hold_all-append (held ks) (bytes x) (bytes_of xs)
    ∙ ap (λ h. hold_all h (bytes_of xs)) (hold_all-after ks x o a.0)
    ∙ hold_all-after_all xs (after ks x) (after-OneOfEach ks x o a.0) a.1

Bytes-append : (xs ys : List ℕ) → Bytes xs → Bytes ys → Bytes (xs ++ ys)
Bytes-append [] ys a b = b
Bytes-append (x ∷ xs) ys a b = (a.0, Bytes-append xs ys a.1 b)

bytes-Bytes : (ks : Keys) (x : Stroke) → Allowed ks x → Bytes (bytes x)
bytes-Bytes ks (down shift left) a = omega arith
bytes-Bytes ks (down shift right) a = omega arith
bytes-Bytes ks (down ctrl left) a = omega arith
bytes-Bytes ks (down ctrl right) a = omega arith
bytes-Bytes ks (down alt left) a = omega arith
bytes-Bytes ks (down alt right) a = omega arith
bytes-Bytes ks (up shift left) a = omega arith
bytes-Bytes ks (up shift right) a = omega arith
bytes-Bytes ks (up ctrl left) a = omega arith
bytes-Bytes ks (up ctrl right) a = omega arith
bytes-Bytes ks (up alt left) a = omega arith
bytes-Bytes ks (up alt right) a = omega arith
bytes-Bytes ks (other false code) a = (a.0, tt)
bytes-Bytes ks (other true code) a = (omega arith, (a.0, tt))

bytes_of-Bytes : (xs : List Stroke) (ks : Keys) → AllAllowed ks xs → Bytes (bytes_of xs)
bytes_of-Bytes [] ks a = tt
bytes_of-Bytes (x ∷ xs) ks a =
    Bytes-append (bytes x) (bytes_of xs) (bytes-Bytes ks x a.0) (bytes_of-Bytes xs (after ks x) a.1)

-- Whatever is done on a keyboard on which the two keys of a modifier are never held at once, a key goes
-- up only while it is held, and the other keys do not send the codes of modifier keys, the modifier
-- byte of the decoder has exactly the bits of the modifiers of which a key is held, if it does at
-- the start, with the prefix state arbitrary.
pub run-held :
    (xs : List Stroke) (k : Keyboard) (ks : Keys)
    → OneOfEach ks
    → k.mods ≡ encode (held ks)
    → AllAllowed ks xs
    → (run k (bytes_of xs)).0.mods ≡ encode (held (after_all ks xs))
run-held xs k ks o e a =
    run-hold_all (bytes_of xs) k (held ks) e (bytes_of-Bytes xs ks a)
    ∙ ap encode (hold_all-after_all xs ks o a)

-- Of both shift keys held, the release of one clears the bit.
pub run-both_shifts :
    (k : Keyboard) (h : Held)
    → k.mods ≡ encode h
    → (run k (bytes_of (down shift left ∷ down shift right ∷ up shift left ∷ []))).0.mods
      ≡ encode (record h { shift = false })
unfolding hold_all hold
run-both_shifts k h e = run-hold_all _ k h e (omega arith)
