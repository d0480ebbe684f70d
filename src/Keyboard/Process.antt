-- ===== src/Keyboard/Process.antt =====
-- machine/src/keyboard/mod.rs: what `process_byte` keeps and returns on every byte.
use bare_metal_blasterball.Base.{
  ℕ, ◌≡◌, refl, Bool, true, false, Option, none, some, List, [], ◌∷◌, ok, err, ◌==◌, if◌then◌else◌,
  inl, inr, Bool-cases, in_range, ◌-◌, set,
}
use bare_metal_blasterball.Keyboard.Codes.{KeyCode}
use bare_metal_blasterball.Keyboard.Scancodes.{map_scancode, map_extended_scancode}
use bare_metal_blasterball.Keyboard.Decoder.{
  Keyboard, KeyboardState, start, extended, KeyDirection, down, up, KeyModifiers, key_event, Reply,
  unknown_scancode, is_modifier, is_down, transition_modifier, handle_key, process_start,
  process_extended, process_in, process_byte, extended_key_code,
}

-- The flags in the order of the record's fields, and the place of a key's flag among them.
abbrev pub flags : KeyModifiers → List Bool
flags m = m.lctrl ∷ m.rctrl ∷ m.alt ∷ m.alt_gr ∷ m.lshift ∷ m.rshift ∷ m.caps_lock ∷ []

pub flag_index : KeyCode → ℕ
flag_index KeyCode.left_ctrl = 0
flag_index KeyCode.right_ctrl = 1
flag_index KeyCode.left_alt = 2
flag_index KeyCode.alt_gr = 3
flag_index KeyCode.left_shift = 4
flag_index KeyCode.right_shift = 5
flag_index KeyCode.caps_lock = 6
flag_index _ = 7

-- A modifier key sets its own flag on a press, clears it on a release, and leaves the others.
pub transition_modifier-set :
    (key : KeyCode) (dir : KeyDirection) (m : KeyModifiers)
    → is_modifier key ≡ true
    → (m' : KeyModifiers) × (transition_modifier key dir m ≡ some m')
      × (flags m' ≡ set (flags m) (flag_index key) (is_down dir))
unfolding is_modifier transition_modifier flag_index
transition_modifier-set KeyCode.left_ctrl dir m h = (_, refl, refl)
transition_modifier-set KeyCode.right_ctrl dir m h = (_, refl, refl)
transition_modifier-set KeyCode.left_shift dir m h = (_, refl, refl)
transition_modifier-set KeyCode.right_shift dir m h = (_, refl, refl)
transition_modifier-set KeyCode.left_alt dir m h = (_, refl, refl)
transition_modifier-set KeyCode.alt_gr dir m h = (_, refl, refl)
transition_modifier-set KeyCode.caps_lock dir m h = (_, refl, refl)
transition_modifier-set _ dir m h = cc

pub handle_key_modifier :
    (k : Keyboard) (key : KeyCode) (dir : KeyDirection)
    → is_modifier key ≡ true
    → (k' : Keyboard) × (handle_key k (some key) dir ≡ some (k', ok none))
      × (k'.state ≡ k.state)
      × (flags k'.modifiers ≡ set (flags k.modifiers) (flag_index key) (is_down dir))
unfolding handle_key
handle_key_modifier k key dir h =
    let (m, e, f) = transition_modifier-set key dir k.modifiers h in
    (record k { modifiers = m }, rw (h, e), refl, f)

pub handle_key_plain :
    (k : Keyboard) (key : KeyCode) (dir : KeyDirection)
    → is_modifier key ≡ false
    → handle_key k (some key) dir
      ≡ some (k, ok (some (record { keycode = key; key_modifiers = k.modifiers; direction = dir })))
unfolding handle_key
handle_key_plain k key dir h = rw h

-- No key makes `handle_key` panic, and it leaves the decoder's state as it is.
pub handle_key_total :
    (k : Keyboard) (key : Option KeyCode) (dir : KeyDirection)
    → (k' : Keyboard) × (r : Reply) × (handle_key k key dir ≡ some (k', r)) × (k'.state ≡ k.state)
unfolding handle_key
handle_key_total k none dir = (k, err unknown_scancode, refl, refl)
handle_key_total k (some key) dir = elim (Bool-cases (is_modifier key)) [
  | inl h ↦ let (k', e, s, _) = handle_key_modifier k key dir h in (k', ok none, e, s)
  | inr h ↦ (k, ok (some (key_event key k.modifiers dir)), rw h, refl)
]

process_start_total :
    (k : Keyboard) (byte : ℕ)
    → k.state ≡ start
    → (k' : Keyboard) × (r : Reply) × (process_start k byte ≡ some (k', r))
      × (k'.state ≡ (if byte == extended_key_code then extended else start))
unfolding process_start
process_start_total k byte h = elim (Bool-cases (byte == extended_key_code)) [
  | inl e ↦ (record k { state = extended }, ok none, rw e, rw e)
  | inr e ↦ elim (Bool-cases (in_range 0x01 0x58 byte)) [
    | inl p ↦
        let (k', r, q, s) = handle_key_total k (map_scancode byte) down in
        (k', r, rw (e, p, q), rw (e, s, h))
    | inr p ↦ elim (Bool-cases (in_range 0x81 0xd8 byte)) [
      | inl u ↦
          let (k', r, q, s) = handle_key_total k (map_scancode (byte - 0x80)) up in
          (k', r, rw (e, p, u, q), rw (e, s, h))
      | inr u ↦ (k, err unknown_scancode, rw (e, p, u), rw (e, h))
    ]
  ]
]

process_extended_total :
    (k : Keyboard) (byte : ℕ)
    → (k' : Keyboard) × (r : Reply) × (process_extended k byte ≡ some (k', r))
      × (k'.state ≡ k.state)
unfolding process_extended
process_extended_total k byte = elim (Bool-cases (in_range 0x10 0x90 byte)) [
  | inl p ↦
      let (k', r, q, s) = handle_key_total k (map_extended_scancode byte) down in
      (k', r, rw (p, q), s)
  | inr p ↦ elim (Bool-cases (in_range 0x99 0xed byte)) [
    | inl u ↦
        let (k', r, q, s) = handle_key_total k (map_extended_scancode (byte - 0x80)) up in
        (k', r, rw (p, u, q), s)
    | inr u ↦ (k, err unknown_scancode, rw (p, u), refl)
  ]
]

-- The decoder's states: only the prefix byte 0xe0, met in the start state, leads to the extended
-- state, and every byte leads back from there.
abbrev pub next_state : KeyboardState → ℕ → KeyboardState
next_state start byte = if byte == extended_key_code then extended else start
next_state extended byte = start

process_in_total :
    (s : KeyboardState) (k : Keyboard) (byte : ℕ)
    → k.state ≡ s
    → (k' : Keyboard) × (r : Reply) × (process_in s k byte ≡ some (k', r))
      × (k'.state ≡ next_state s byte)
unfolding process_in
process_in_total start k byte h = process_start_total k byte h
process_in_total extended k byte h = process_extended_total (record k { state = start }) byte

-- On every byte and in every state `process_byte` returns without a panic, and the state that it
-- leaves is the start state, unless the byte is the prefix 0xe0 met in the start state.
pub process_byte_total :
    (k : Keyboard) (byte : ℕ)
    → (k' : Keyboard) × (r : Reply) × (process_byte k byte ≡ some (k', r))
      × (k'.state ≡ next_state k.state byte)
unfolding process_byte
process_byte_total k byte = process_in_total k.state k byte refl
