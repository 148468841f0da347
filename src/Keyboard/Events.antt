-- ===== src/Keyboard/Events.antt =====
-- The events that kernel/input/keyboard.c hands to the shell.
use ronin_os.Base.{
  ℕ, ◌≤◌, ◌≡◌, refl, ◌∙◌, ap, ◌≢◌, List, [], ◌∷◌, ◌++◌, map, arith, length, ◌==◌, Bool-cases, inl,
  inr, if◌then◌else◌, if_both, not, leb, ◌&&◌, ◌||◌,
}
use Prim.Native.Nat.{bit_and}
use mathlib.Core.List.{append-nil}
use ronin_os.Keyboard.{
  KeyCode, none_key, char, KeyEvent, Keyboard, Action, emit, eoi, keyboard_isr, run, on_key_press,
  extended_code, plain_code, is_none_key, emit_char, key_event, map_ascii,
}

abbrev pub events : List Action → List KeyEvent
events [] = []
events (emit e ∷ acts) = e ∷ events acts
events (eoi n ∷ acts) = events acts

events-append : (xs ys : List Action) → events (xs ++ ys) ≡ events xs ++ events ys
events-append [] ys = refl
events-append (emit e ∷ xs) ys = ap (λ l. e ∷ l) (events-append xs ys)
events-append (eoi n ∷ xs) ys = events-append xs ys

-- A printable character, or a key that carries none.
pub record IsKey (e : KeyEvent) : Type 0 where
  pub known : e.code ≢ none_key
  pub printable : e.code ≡ char → (32 ≤ e.ch) × (e.ch ≤ 126)
  pub no_char : e.code ≢ char → e.ch ≡ 0

abbrev pub AllKeys : List KeyEvent → Type 0
AllKeys [] = Unit
AllKeys (e ∷ es) = IsKey e × AllKeys es

extended_code-ne_char : (sc : ℕ) → extended_code sc ≢ char
unfolding extended_code
extended_code-ne_char sc = ground arith

plain_code-ne_char : (sc : ℕ) → plain_code sc ≢ char
unfolding plain_code
plain_code-ne_char sc = ground arith

-- Such events and nothing else, at most one of them.
record IsEmission (acts : List Action) : Type 0 where
  only_events : acts ≡ map emit (events acts)
  at_most_one : length (events acts) ≤ 1
  keys : AllKeys (events acts)

none-IsEmission : IsEmission []
none-IsEmission = record { only_events = refl; at_most_one = omega arith; keys = tt }

one-IsEmission : (e : KeyEvent) → IsKey e → IsEmission (emit e ∷ [])
one-IsEmission e k = record { only_events = refl; at_most_one = omega arith; keys = (k, tt) }

IsEmission-code :
    (code : KeyCode) (mods : ℕ)
    → code ≢ char
    → IsEmission (if is_none_key code then [] else emit (key_event code 0 mods) ∷ [])
IsEmission-code none_key mods h = none-IsEmission
IsEmission-code char mods h = absurd (h refl)
IsEmission-code code mods h =
    one-IsEmission _
      (record { known = λ e. cc; printable = λ e. absurd (h e); no_char = λ _. refl })

IsEmission-char : (c mods : ℕ) → IsEmission (emit_char c mods)
IsEmission-char c mods = elim (Bool-cases (leb 32 c && leb c 126)) [
  | inl e ↦ rw e (
      one-IsEmission _
        (record { known = λ q. cc; printable = λ _. ground arith; no_char = λ q. absurd (q refl) }))
  | inr e ↦ rw e none-IsEmission
]

on_key_press-IsEmission : (k : Keyboard) (sc : ℕ) → IsEmission (on_key_press k sc).1
unfolding on_key_press
on_key_press-IsEmission k sc =
    if_both (λ (r : Keyboard × List Action). IsEmission r.1) (not (k.e0 == 0))
      (IsEmission-code (extended_code sc) k.mods (extended_code-ne_char sc))
      (elim (Bool-cases (is_none_key (plain_code sc))) [
        | inl e ↦ rw e (IsEmission-char (map_ascii k sc) k.mods)
        | inr e ↦ rw e (rw e at (IsEmission-code (plain_code sc) k.mods (plain_code-ne_char sc)))
      ])

abbrev Acked : List Action → Type 0
Acked acts =
    (acts ≡ map emit (events acts) ++ eoi 1 ∷ [])
    × (length (events acts) ≤ 1)
    × AllKeys (events acts)

ack : (acts : List Action) → IsEmission acts → Acked (acts ++ eoi 1 ∷ [])
ack acts s =
    let e : events (acts ++ eoi 1 ∷ []) ≡ events acts =
      events-append acts (eoi 1 ∷ []) ∙ append-nil (events acts) in
    rw e (ap (λ l. l ++ eoi 1 ∷ []) s.only_events, s.at_most_one, s.keys)

just_eoi : Acked (eoi 1 ∷ [])
just_eoi = (refl, omega arith, tt)

-- One interrupt hands over at most one event, a key that is known, with a printable character
-- exactly if it is a character key; then it acknowledges IRQ 1 once, as its last action.
pub keyboard_isr-eoi :
    (k : Keyboard) (sc : ℕ)
    → ((keyboard_isr k sc).1 ≡ map emit (events (keyboard_isr k sc).1) ++ eoi 1 ∷ [])
      × (length (events (keyboard_isr k sc).1) ≤ 1)
      × AllKeys (events (keyboard_isr k sc).1)
unfolding keyboard_isr
keyboard_isr-eoi k sc = if_both P (sc == 0xe0) just_eoi (
    if_both P (not (bit_and sc 0x80 == 0)) just_eoi (
      if_both P (sc == 0x2a || sc == 0x36) just_eoi (
        if_both P (sc == 0x1d) just_eoi (
          if_both P (sc == 0x38) just_eoi
            (ack (on_key_press k sc).1 (on_key_press-IsEmission k sc))))))
  where
    P : Keyboard × List Action → Type 0
    P r = Acked r.1

-- A release code behind the prefix leaves the prefix set, so the next ordinary key press is lost.
pub run-prefix_release :
    (k : Keyboard) (rel sc : ℕ)
    → bit_and rel 0x80 ≢ 0
    → rel ≢ 0xe0
    → bit_and sc 0x80 ≡ 0
    → sc ≢ 0x2a
    → sc ≢ 0x36
    → sc ≢ 0x1d
    → sc ≢ 0x38
    → extended_code sc ≡ none_key
    → (events (run k (0xe0 ∷ rel ∷ sc ∷ [])).1 ≡ []) × ((run k (0xe0 ∷ rel ∷ sc ∷ [])).0.e0 ≡ 0)
unfolding run keyboard_isr on_key_press
run-prefix_release k rel sc a b c d e f g h = ground arith
