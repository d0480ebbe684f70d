-- ===== src/Keyboard/Tests.antt =====
-- machine/src/keyboard: the theorems at concrete keys, and the tests of the source.
use bare_metal_blasterball.Base.{
  ◌+◌, ◌≡◌, ◌⊎◌, refl, true, false, none, some, [], ◌∷◌, ok, err, run, set, arith,
}
use bare_metal_blasterball.Keyboard.Codes.{KeyCode}
use bare_metal_blasterball.Keyboard.Scancodes.{map_scancode, map_extended_scancode, match_code}
use bare_metal_blasterball.Keyboard.Decoder.{
  Keyboard, KeyModifiers, KeyEvent, Reply, no_modifiers, fresh_keyboard, key_event, down, up,
  is_modifier, process_byte, extended_key_code,
}
use bare_metal_blasterball.Keyboard.Process.{process_byte_total, next_state, flags, flag_index}
use bare_metal_blasterball.Keyboard.Pairs.{
  idle, press_release, extended_press_release, modifier_press_release,
}
use bare_metal_blasterball.Keyboard.Uefi.{try_from}
use bare_metal_blasterball.Keyboard.Layout.{
  us_char, char_key, is_known, try_from-us_char, try_from-is_known,
}

-- The letter A goes down and up.
press_release_example :
    run process_byte (0x1e ∷ (0x1e + 0x80) ∷ []) (idle no_modifiers)
    ≡ some (
      idle no_modifiers,
      ok (some (key_event KeyCode.a no_modifiers down))
          ∷ ok (some (key_event KeyCode.a no_modifiers up))
          ∷ [],
    )
unfolding map_scancode match_code is_modifier
press_release_example = press_release no_modifiers 0x1e refl refl

-- The key home goes down and up.
extended_press_release_example :
    run process_byte
      (extended_key_code ∷ 0x47 ∷ extended_key_code ∷ (0x47 + 0x80) ∷ [])
      (idle no_modifiers)
    ≡ some (
      idle no_modifiers,
      ok none
          ∷ ok (some (key_event KeyCode.home no_modifiers down))
          ∷ ok none
          ∷ ok (some (key_event KeyCode.home no_modifiers up))
          ∷ [],
    )
unfolding map_extended_scancode match_code is_modifier
extended_press_release_example = extended_press_release no_modifiers 0x47 refl (omega arith) refl

-- The left shift goes down and up.
modifier_press_release_example :
    (m₁ : KeyModifiers) × (m₂ : KeyModifiers) × (process_byte (idle no_modifiers) 0x2a
      ≡ some (idle m₁, ok none))
    × (flags m₁ ≡ set (flags no_modifiers) (flag_index KeyCode.left_shift) true)
    × (process_byte (idle m₁) (0x2a + 0x80) ≡ some (idle m₂, ok none))
    × (flags m₂ ≡ set (flags m₁) (flag_index KeyCode.left_shift) false)
unfolding map_scancode match_code is_modifier
modifier_press_release_example = modifier_press_release no_modifiers 0x2a refl refl

-- The prefix byte, in the start state.
process_byte_total_example :
    (k' : Keyboard) × (r : Reply) × (process_byte fresh_keyboard 0xe0 ≡ some (k', r))
    × (k'.state ≡ next_state fresh_keyboard.state 0xe0)
process_byte_total_example = process_byte_total fresh_keyboard 0xe0

-- The capital letter A.
try_from-us_char_example :
    (e : KeyEvent) × (try_from (char_key 65) ≡ some (ok e)) × (us_char e ≡ 65)
try_from-us_char_example = try_from-us_char 65 (omega arith) (omega arith)

-- The tilde is not known.
try_from-is_known_example :
    ((is_known 126 ≡ true) × (e : KeyEvent) × (try_from (char_key 126) ≡ some (ok e)))
    ⊎ ((is_known 126 ≡ false) × (try_from (char_key 126) ≡ some (err tt)))
try_from-is_known_example = try_from-is_known 126
