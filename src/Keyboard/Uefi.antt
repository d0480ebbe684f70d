-- ===== src/Keyboard/Uefi.antt =====
-- machine/src/keyboard/uefi.rs: UEFI key strokes as key events. A `match` on a character is a table
-- in the source's order; a character that reaches `unreachable!()` is a panic, `none`.
use bare_metal_blasterball.Base.{
  ℕ, ◌-◌, Bool, true, false, ◌||◌, Option, none, some, List, [], ◌∷◌, Result, ok, err, ◌==◌,
  in_range, leb, if◌then◌else◌, ◌>>=◌,
}
use bare_metal_blasterball.Keyboard.Codes.{KeyCode}
use bare_metal_blasterball.Keyboard.EfiCodes.{EfiScanCode}
use bare_metal_blasterball.Keyboard.Scancodes.{match_code}
use bare_metal_blasterball.Keyboard.Decoder.{KeyEvent, key_event, no_modifiers, down}

pub record EfiInputKey : Type 0 where
  pub scancode : EfiScanCode
  pub unicode_char : ℕ

abbrev pub ascii_punctuation_1_keys : List (ℕ × KeyCode)
ascii_punctuation_1_keys =
    (32, KeyCode.space)
    ∷ (33, KeyCode.one)
    ∷ (34, KeyCode.single_quote)
    ∷ (35, KeyCode.three)
    ∷ (36, KeyCode.four)
    ∷ (37, KeyCode.five)
    ∷ (38, KeyCode.seven)
    ∷ (39, KeyCode.single_quote)
    ∷ (40, KeyCode.nine)
    ∷ (41, KeyCode.zero)
    ∷ (42, KeyCode.eight)
    ∷ (43, KeyCode.equals)
    ∷ (44, KeyCode.comma)
    ∷ (45, KeyCode.dash)
    ∷ (46, KeyCode.dot)
    ∷ (47, KeyCode.forward_slash)
    ∷ []

abbrev pub ascii_number_keys : List (ℕ × KeyCode)
ascii_number_keys =
    (48, KeyCode.zero)
    ∷ (49, KeyCode.one)
    ∷ (50, KeyCode.two)
    ∷ (51, KeyCode.three)
    ∷ (52, KeyCode.four)
    ∷ (53, KeyCode.five)
    ∷ (54, KeyCode.six)
    ∷ (55, KeyCode.seven)
    ∷ (56, KeyCode.eight)
    ∷ (57, KeyCode.nine)
    ∷ []

abbrev pub ascii_punctuation_2_keys : List (ℕ × KeyCode)
ascii_punctuation_2_keys =
    (58, KeyCode.semi_colon)
    ∷ (59, KeyCode.semi_colon)
    ∷ (60, KeyCode.comma)
    ∷ (61, KeyCode.equals)
    ∷ (62, KeyCode.dot)
    ∷ (63, KeyCode.forward_slash)
    ∷ (64, KeyCode.two)
    ∷ []

abbrev pub latin_uppercase_alphabet_keys : List (ℕ × KeyCode)
latin_uppercase_alphabet_keys =
    (65, KeyCode.a)
    ∷ (66, KeyCode.b)
    ∷ (67, KeyCode.c)
    ∷ (68, KeyCode.d)
    ∷ (69, KeyCode.e)
    ∷ (70, KeyCode.f)
    ∷ (71, KeyCode.g)
    ∷ (72, KeyCode.h)
    ∷ (73, KeyCode.i)
    ∷ (74, KeyCode.j)
    ∷ (75, KeyCode.k)
    ∷ (76, KeyCode.l)
    ∷ (77, KeyCode.m)
    ∷ (78, KeyCode.n)
    ∷ (79, KeyCode.o)
    ∷ (80, KeyCode.p)
    ∷ (81, KeyCode.q)
    ∷ (82, KeyCode.r)
    ∷ (83, KeyCode.s)
    ∷ (84, KeyCode.t)
    ∷ (85, KeyCode.u)
    ∷ (86, KeyCode.v)
    ∷ (87, KeyCode.w)
    ∷ (88, KeyCode.x)
    ∷ (89, KeyCode.y)
    ∷ (90, KeyCode.z)
    ∷ []

abbrev pub ascii_punctuation_3_keys : List (ℕ × KeyCode)
ascii_punctuation_3_keys =
    (91, KeyCode.open_bracket)
    ∷ (92, KeyCode.back_slash)
    ∷ (93, KeyCode.close_bracket)
    ∷ (94, KeyCode.six)
    ∷ (95, KeyCode.dash)
    ∷ (96, KeyCode.backtick)
    ∷ []

unfoldable pub map_ascii_punctuation_1 : ℕ → Option (Bool × KeyCode)
unfolding match_code
map_ascii_punctuation_1 c = do
  let shift_is_down = in_range 33 38 c || in_range 40 43 c
  key ← match_code c ascii_punctuation_1_keys
  some (shift_is_down, key)

unfoldable pub map_ascii_number : ℕ → Option KeyCode
unfolding match_code
map_ascii_number c = match_code c ascii_number_keys

unfoldable pub map_ascii_punctuation_2 : ℕ → Option (Bool × KeyCode)
unfolding match_code
map_ascii_punctuation_2 c = do
  let shift_is_down = c == 58 || c == 60 || in_range 62 64 c
  key ← match_code c ascii_punctuation_2_keys
  some (shift_is_down, key)

unfoldable pub map_latin_uppercase_alphabet : ℕ → Option KeyCode
unfolding match_code
map_latin_uppercase_alphabet c = match_code c latin_uppercase_alphabet_keys

unfoldable pub map_ascii_punctuation_3 : ℕ → Option (Bool × KeyCode)
unfolding match_code
map_ascii_punctuation_3 c = do
  let shift_is_down = c == 94 || c == 95
  key ← match_code c ascii_punctuation_3_keys
  some (shift_is_down, key)

unfoldable pub map_latin_lowercase_alphabet : ℕ → Option KeyCode
unfolding map_latin_uppercase_alphabet
map_latin_lowercase_alphabet c = map_latin_uppercase_alphabet (c - (97 - 65))

-- `none` is `Err(())` in this function and the next.
unfoldable pub map_efi_scancode : EfiScanCode → Option KeyCode
map_efi_scancode EfiScanCode.cursor_up = some KeyCode.arrow_up
map_efi_scancode EfiScanCode.cursor_down = some KeyCode.arrow_down
map_efi_scancode EfiScanCode.cursor_left = some KeyCode.arrow_left
map_efi_scancode EfiScanCode.cursor_right = some KeyCode.arrow_right
map_efi_scancode EfiScanCode.home = some KeyCode.home
map_efi_scancode EfiScanCode.end = some KeyCode.end
map_efi_scancode EfiScanCode.insert = some KeyCode.insert
map_efi_scancode EfiScanCode.delete = some KeyCode.delete
map_efi_scancode EfiScanCode.page_up = some KeyCode.page_up
map_efi_scancode EfiScanCode.page_down = some KeyCode.page_down
map_efi_scancode EfiScanCode.escape = some KeyCode.escape
map_efi_scancode _ = none

unfoldable pub map_control_char : ℕ → Option KeyCode
unfolding match_code
map_control_char c =
    match_code c
      ((8, KeyCode.backspace) ∷ (9, KeyCode.tab) ∷ (10, KeyCode.enter) ∷ (13, KeyCode.enter) ∷ [])

-- The event that is returned: `caps` is the flag set for an upper-case letter, `shift_down` the one
-- read off a punctuation character.
abbrev pub event_of : Bool → Bool → KeyCode → Result KeyEvent (Unit {0})
event_of caps shift_down key =
    ok (key_event key (record no_modifiers { caps_lock = caps; lshift = shift_down }) down)

-- `map_…(…)?`
abbrev pub or_error : Option KeyCode → Result KeyEvent (Unit {0})
or_error none = err tt
or_error (some key) = event_of false false key

-- The branches for `EFIScanCode::Null`.
unfoldable pub try_from_char : ℕ → Option (Result KeyEvent (Unit {0}))
unfolding map_ascii_punctuation_1 map_ascii_number map_ascii_punctuation_2
    map_latin_uppercase_alphabet map_ascii_punctuation_3 map_latin_lowercase_alphabet
    map_control_char
try_from_char c =
    if in_range 32 47 c
    then (do (s, key) ← map_ascii_punctuation_1 c; some (event_of false s key))
    else if in_range 48 57 c
    then (do key ← map_ascii_number c; some (event_of false false key))
    else if in_range 58 64 c
    then (do (s, key) ← map_ascii_punctuation_2 c; some (event_of false s key))
    else if in_range 65 90 c
    then (do key ← map_latin_uppercase_alphabet c; some (event_of true false key))
    else if in_range 91 96 c
    then (do (s, key) ← map_ascii_punctuation_3 c; some (event_of false s key))
    else if in_range 97 122 c
    then (do key ← map_latin_lowercase_alphabet c; some (event_of false false key))
    else if leb c 31
    then some (or_error (map_control_char c))
    else some (err tt)

unfoldable pub try_from_scancode : EfiScanCode → ℕ → Option (Result KeyEvent (Unit {0}))
unfolding try_from_char map_efi_scancode
try_from_scancode EfiScanCode.null c = try_from_char c
try_from_scancode code c = some (or_error (map_efi_scancode code))

-- `KeyEvent::try_from(EFIInputKey)`; the outer `none` is a panic.
unfoldable pub try_from : EfiInputKey → Option (Result KeyEvent (Unit {0}))
unfolding try_from_scancode
try_from key = try_from_scancode key.scancode key.unicode_char
