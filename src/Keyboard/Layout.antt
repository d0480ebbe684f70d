-- ===== src/Keyboard/Layout.antt =====
-- machine/src/keyboard/uefi.rs: the key event of a printable character, typed on a US keyboard, gives
-- that character back.
use bare_metal_blasterball.Base.{
  inl, inr, ◌⊎◌, Bool-cases, ℕ, ◌≤◌, ◌<◌, ◌≡◌, refl, Bool, true, false, ◌||◌, Option, none, some,
  Result, ok, err, ◌==◌, ◌-◌, in_range, ltb, if◌then◌else◌, all_below, all_below_sound, arith,
  dec_lt,
}
use bare_metal_blasterball.Keyboard.Codes.{KeyCode}
use bare_metal_blasterball.Keyboard.EfiCodes.{EfiScanCode}
use bare_metal_blasterball.Keyboard.Decoder.{KeyEvent}
use bare_metal_blasterball.Keyboard.Uefi.{EfiInputKey, try_from, try_from_char, try_from_scancode}

-- What a key of the US layout types with and without shift, and 0 for a key that is no letter and
-- types no printable character.
pub us_plain : KeyCode → Bool → ℕ
us_plain KeyCode.space shifted = if shifted then 32 else 32
us_plain KeyCode.one shifted = if shifted then 33 else 49
us_plain KeyCode.two shifted = if shifted then 64 else 50
us_plain KeyCode.three shifted = if shifted then 35 else 51
us_plain KeyCode.four shifted = if shifted then 36 else 52
us_plain KeyCode.five shifted = if shifted then 37 else 53
us_plain KeyCode.six shifted = if shifted then 94 else 54
us_plain KeyCode.seven shifted = if shifted then 38 else 55
us_plain KeyCode.eight shifted = if shifted then 42 else 56
us_plain KeyCode.nine shifted = if shifted then 40 else 57
us_plain KeyCode.zero shifted = if shifted then 41 else 48
us_plain KeyCode.dash shifted = if shifted then 95 else 45
us_plain KeyCode.equals shifted = if shifted then 43 else 61
us_plain KeyCode.open_bracket shifted = if shifted then 123 else 91
us_plain KeyCode.close_bracket shifted = if shifted then 125 else 93
us_plain KeyCode.back_slash shifted = if shifted then 124 else 92
us_plain KeyCode.semi_colon shifted = if shifted then 58 else 59
us_plain KeyCode.single_quote shifted = if shifted then 34 else 39
us_plain KeyCode.backtick shifted = if shifted then 126 else 96
us_plain KeyCode.comma shifted = if shifted then 60 else 44
us_plain KeyCode.dot shifted = if shifted then 62 else 46
us_plain KeyCode.forward_slash shifted = if shifted then 63 else 47
us_plain _ shifted = 0

-- The lower-case letter of a letter key, and 0 for any other key.
pub us_letter : KeyCode → ℕ
us_letter KeyCode.a = 97
us_letter KeyCode.b = 98
us_letter KeyCode.c = 99
us_letter KeyCode.d = 100
us_letter KeyCode.e = 101
us_letter KeyCode.f = 102
us_letter KeyCode.g = 103
us_letter KeyCode.h = 104
us_letter KeyCode.i = 105
us_letter KeyCode.j = 106
us_letter KeyCode.k = 107
us_letter KeyCode.l = 108
us_letter KeyCode.m = 109
us_letter KeyCode.n = 110
us_letter KeyCode.o = 111
us_letter KeyCode.p = 112
us_letter KeyCode.q = 113
us_letter KeyCode.r = 114
us_letter KeyCode.s = 115
us_letter KeyCode.t = 116
us_letter KeyCode.u = 117
us_letter KeyCode.v = 118
us_letter KeyCode.w = 119
us_letter KeyCode.x = 120
us_letter KeyCode.y = 121
us_letter KeyCode.z = 122
us_letter _ = 0

-- The character that a key event types: a letter is upper-case under caps lock or shift.
pub us_char : KeyEvent → ℕ
unfolding us_plain us_letter
us_char e =
    let letter = us_letter e.keycode in
    let m = e.key_modifiers in
    if letter == 0
    then us_plain e.keycode m.lshift
    else if m.lshift || m.caps_lock
    then letter - 32
    else letter

-- What is typed by the event that `try_from` returns, and 0 where it returns none.
pub typed : Option (Result KeyEvent (Unit {0})) → ℕ
unfolding us_char
typed none = 0
typed (some (err e)) = 0
typed (some (ok e)) = us_char e

abbrev pub char_key : ℕ → EfiInputKey
char_key c = record { scancode = EfiScanCode.null; unicode_char = c }

abbrev types_itself : ℕ → Bool
types_itself c = ltb c 32 || typed (try_from (char_key c)) == c

typed_table : all_below 123 types_itself ≡ true
unfolding typed try_from
typed_table = refl

event_of_typed :
    (r : Option (Result KeyEvent (Unit {0}))) (c : ℕ)
    → 0 < c
    → typed r ≡ c
    → (e : KeyEvent) × (r ≡ some (ok e)) × (us_char e ≡ c)
unfolding typed
event_of_typed none c h e = absurd (omega arith)
event_of_typed (some (err x)) c h e = absurd (omega arith)
event_of_typed (some (ok x)) c h e = (x, refl, e)

-- Every printable character from the space to the letter z becomes a key event, and that event
-- types the same character on a US keyboard.
pub try_from-us_char :
    (c : ℕ)
    → 32 ≤ c
    → c ≤ 122
    → (e : KeyEvent) × (try_from (char_key c) ≡ some (ok e)) × (us_char e ≡ c)
try_from-us_char c lo hi =
    event_of_typed (try_from (char_key c)) c (omega arith)
      (ground (arith, all_below_sound 123 types_itself c typed_table))

-- The characters that UEFI reports and the program knows: the printable ones up to z, backspace,
-- tab, line feed and carriage return.
abbrev pub is_known : ℕ → Bool
is_known c = in_range 32 122 c || c == 8 || c == 9 || c == 10 || c == 13

abbrev has_event : Option (Result KeyEvent (Unit {0})) → Bool
has_event (some (ok e)) = true
has_event _ = false

abbrev is_error : Option (Result KeyEvent (Unit {0})) → Bool
is_error (some (err e)) = true
is_error _ = false

abbrev outcome : ℕ → Bool
outcome c =
    if is_known c then has_event (try_from (char_key c)) else is_error (try_from (char_key c))

outcome_table : all_below 123 outcome ≡ true
unfolding try_from
outcome_table = refl

in_range_above : (lo hi c : ℕ) → hi < c → in_range lo hi c ≡ false
in_range_above lo hi c h = ground arith

try_from_above : (c : ℕ) → 123 ≤ c → try_from (char_key c) ≡ some (err tt)
unfolding try_from try_from_scancode try_from_char
try_from_above c h =
    rw
      (
        in_range_above 32 47 c (omega arith),
        in_range_above 48 57 c (omega arith),
        in_range_above 58 64 c (omega arith),
        in_range_above 65 90 c (omega arith),
        in_range_above 91 96 c (omega arith),
        in_range_above 97 122 c (omega arith),
      )
      (ground arith)

is_known_above : (c : ℕ) → 123 ≤ c → is_known c ≡ false
is_known_above c h = ground arith

outcome_above : (c : ℕ) → 123 ≤ c → outcome c ≡ true
outcome_above c h = rw (is_known_above c h, try_from_above c h)

outcome_all : (c : ℕ) → outcome c ≡ true
outcome_all c = elim (dec_lt c 123) [
  | yes h ↦ all_below_sound 123 outcome c outcome_table h
  | no h ↦ outcome_above c (omega arith)
]

event_of_has_event :
    (r : Option (Result KeyEvent (Unit {0})))
    → has_event r ≡ true
    → (e : KeyEvent) × (r ≡ some (ok e))
event_of_has_event none h = cc
event_of_has_event (some (err x)) h = cc
event_of_has_event (some (ok e)) h = (e, refl)

error_of_is_error :
    (r : Option (Result KeyEvent (Unit {0}))) → is_error r ≡ true → r ≡ some (err tt)
error_of_is_error none h = cc
error_of_is_error (some (err x)) h = refl
error_of_is_error (some (ok e)) h = cc

-- For every 16-bit character, and beyond, `try_from` returns without a panic: a key event for a
-- known character and an error for any other.
pub try_from-is_known :
    (c : ℕ)
    → ((is_known c ≡ true) × (e : KeyEvent) × (try_from (char_key c) ≡ some (ok e)))
      ⊎ ((is_known c ≡ false) × (try_from (char_key c) ≡ some (err tt)))
try_from-is_known c = elim (Bool-cases (is_known c)) [
  | inl h ↦
      let (e, t) = event_of_has_event (try_from (char_key c)) (rw h at (outcome_all c)) in
      inl (h, e, t)
  | inr h ↦ inr (h, error_of_is_error (try_from (char_key c)) (rw h at (outcome_all c)))
]
