-- ===== src/Keyboard/Decoder.antt =====
-- machine/src/keyboard/mod.rs: `Keyboard` and `process_byte`.
use bare_metal_blasterball.Base.{
  ℕ, ◌-◌, Bool, true, false, ◌||◌, Option, none, some, Result, ok, err, ◌==◌, in_range,
  if◌then◌else◌, ◌>>=◌,
}
use bare_metal_blasterball.Keyboard.Codes.{KeyCode}
use bare_metal_blasterball.Keyboard.Scancodes.{map_scancode, map_extended_scancode}

abbrev pub extended_key_code : ℕ
extended_key_code = 0xe0

pub data KeyboardState : Type 0 where
  start extended : KeyboardState

pub data KeyDirection : Type 0 where
  down up : KeyDirection

pub data KeyError : Type 0 where
  unknown_scancode : KeyError

pub record KeyModifiers : Type 0 where
  pub lctrl : Bool
  pub rctrl : Bool
  pub alt : Bool
  pub alt_gr : Bool
  pub lshift : Bool
  pub rshift : Bool
  pub caps_lock : Bool

-- `KeyModifiers::new`
abbrev pub no_modifiers : KeyModifiers
no_modifiers = record {
  lctrl = false;
  rctrl = false;
  alt = false;
  alt_gr = false;
  lshift = false;
  rshift = false;
  caps_lock = false;
}

unfoldable pub shift : KeyModifiers → Bool
shift m = m.lshift || m.rshift

pub record KeyEvent : Type 0 where
  pub keycode : KeyCode
  pub key_modifiers : KeyModifiers
  pub direction : KeyDirection

abbrev pub key_event : KeyCode → KeyModifiers → KeyDirection → KeyEvent
key_event key m dir = record { keycode = key; key_modifiers = m; direction = dir }

pub record Keyboard : Type 0 where
  pub state : KeyboardState
  pub modifiers : KeyModifiers

-- `Keyboard::new`
abbrev pub fresh_keyboard : Keyboard
fresh_keyboard = record { state = start; modifiers = no_modifiers }

abbrev pub Reply : Type 0
Reply = Result (Option KeyEvent) KeyError

-- `KeyCode::is_modifier`
unfoldable pub is_modifier : KeyCode → Bool
is_modifier KeyCode.left_ctrl = true
is_modifier KeyCode.right_ctrl = true
is_modifier KeyCode.left_shift = true
is_modifier KeyCode.right_shift = true
is_modifier KeyCode.left_alt = true
is_modifier KeyCode.alt_gr = true
is_modifier KeyCode.caps_lock = true
is_modifier _ = false

-- What `toggle_modifier!` writes to the flag.
abbrev pub is_down : KeyDirection → Bool
is_down down = true
is_down up = false

-- A panic, `none`, for a key that is no modifier.
unfoldable pub transition_modifier : KeyCode → KeyDirection → KeyModifiers → Option KeyModifiers
transition_modifier KeyCode.left_ctrl dir m = some (record m { lctrl = is_down dir })
transition_modifier KeyCode.right_ctrl dir m = some (record m { rctrl = is_down dir })
transition_modifier KeyCode.left_shift dir m = some (record m { lshift = is_down dir })
transition_modifier KeyCode.right_shift dir m = some (record m { rshift = is_down dir })
transition_modifier KeyCode.left_alt dir m = some (record m { alt = is_down dir })
transition_modifier KeyCode.alt_gr dir m = some (record m { alt_gr = is_down dir })
transition_modifier KeyCode.caps_lock dir m = some (record m { caps_lock = is_down dir })
transition_modifier _ dir m = none

-- What the four branches of `process_byte` do with a key: `none` is an unknown scancode, at which
-- `?` returns early.
unfoldable pub handle_key : Keyboard → Option KeyCode → KeyDirection → Option (Keyboard × Reply)
handle_key k none dir = some (k, err unknown_scancode)
handle_key k (some key) dir =
    if is_modifier key
    then (do
      m ← transition_modifier key dir k.modifiers
      some (record k { modifiers = m }, ok none))
    else some
        (k, ok (some (record { keycode = key; key_modifiers = k.modifiers; direction = dir })))

-- The ranges keep `byte - 0x80` above 0, here and in `process_extended`.
unfoldable pub process_start : Keyboard → ℕ → Option (Keyboard × Reply)
unfolding handle_key
process_start k byte =
    if byte == extended_key_code
    then some (record k { state = extended }, ok none)
    else if in_range 0x01 0x58 byte
    then handle_key k (map_scancode byte) down
    else if in_range 0x81 0xd8 byte
    then handle_key k (map_scancode (byte - 0x80)) up
    else some (k, err unknown_scancode)

unfoldable pub process_extended : Keyboard → ℕ → Option (Keyboard × Reply)
unfolding handle_key
process_extended k byte =
    if in_range 0x10 0x90 byte
    then handle_key k (map_extended_scancode byte) down
    else if in_range 0x99 0xed byte
    then handle_key k (map_extended_scancode (byte - 0x80)) up
    else some (k, err unknown_scancode)

-- The outer `match self.state`; the extended branch resets the state before anything else.
unfoldable pub process_in : KeyboardState → Keyboard → ℕ → Option (Keyboard × Reply)
unfolding process_start process_extended
process_in start k byte = process_start k byte
process_in extended k byte = process_extended (record k { state = start }) byte

-- `Keyboard::process_byte`: the new keyboard and what it returns; `none` is a panic.
unfoldable pub process_byte : Keyboard → ℕ → Option (Keyboard × Reply)
unfolding process_in
process_byte k byte = process_in k.state k byte
