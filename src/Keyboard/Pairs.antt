-- ===== src/Keyboard/Pairs.antt =====
-- machine/src/keyboard/mod.rs: a key's press code and its release code, the same plus 0x80, decode
-- to the same key.
use bare_metal_blasterball.Base.{
  ℕ, ◌+◌, ◌-◌, ◌≤◌, ◌≡◌, refl, ◌≢◌, Bool, true, false, ◌&&◌, ◌||◌, subst, ap, ◌∙◌, none, some, List,
  [], ◌∷◌, arith, ok, err, ◌==◌, inl, inr, Bool-cases, in_range, set, run, run-step, run_nil, leb,
  &&-eq_true, leb→le,
}
use bare_metal_blasterball.Keyboard.Codes.{KeyCode}
use bare_metal_blasterball.Keyboard.Scancodes.{
  map_scancode, map_extended_scancode, match_code, scancodes, extended_scancodes,
}
use bare_metal_blasterball.Keyboard.Decoder.{
  Keyboard, start, extended, KeyDirection, down, up, KeyModifiers, key_event, unknown_scancode,
  is_modifier, is_down, handle_key, process_start, process_extended, process_byte,
  extended_key_code,
}
use bare_metal_blasterball.Keyboard.Process.{
  flags, flag_index, transition_modifier-set, handle_key_plain,
}

-- The decoder between two keys, with the modifiers `m`.
abbrev pub idle : KeyModifiers → Keyboard
idle m = record { state = start; modifiers = m }

all_codes : (ℕ → Bool) → List (ℕ × KeyCode) → Bool
all_codes p [] = true
all_codes p ((code, key) ∷ rows) = p code && all_codes p rows

match_code-all_codes :
    (p : ℕ → Bool) (byte : ℕ) (rows : List (ℕ × KeyCode)) {key : KeyCode}
    → all_codes p rows ≡ true
    → match_code byte rows ≡ some key
    → p byte ≡ true
unfolding match_code all_codes
match_code-all_codes p byte [] a h = cc
match_code-all_codes p byte ((code, key) ∷ rows) a h =
    let (here, later) = &&-eq_true (p code) (all_codes p rows) a in
    elim (Bool-cases (code == byte)) [
      | inl e ↦ subst (λ c. p c ≡ true) (ground arith) here
      | inr e ↦ match_code-all_codes p byte rows later (rw e at h)
    ]

pub map_scancode_bounds :
    (c : ℕ) {key : KeyCode} → map_scancode c ≡ some key → (0x01 ≤ c) × (c ≤ 0x58)
unfolding map_scancode all_codes
map_scancode_bounds c h =
    let (lo, hi) =
      &&-eq_true (leb 0x01 c) (leb c 0x58)
        (match_code-all_codes (in_range 0x01 0x58) c scancodes refl h) in
    (leb→le _ _ lo, leb→le _ _ hi)

pub map_extended_scancode_bounds :
    (c : ℕ) {key : KeyCode}
    → map_extended_scancode c ≡ some key
    → c ≢ 0x10
    → (0x19 ≤ c) × (c ≤ 0x6d)
unfolding map_extended_scancode all_codes
map_extended_scancode_bounds c h ne = ground (
  arith,
  match_code-all_codes (λ b. b == 0x10 || in_range 0x19 0x6d b) c extended_scancodes refl h,
)

-- In the start state the press code of a key reaches `handle_key` with that key, going down.
press_lem :
    (m : KeyModifiers) (c : ℕ) {key : KeyCode}
    → map_scancode c ≡ some key
    → process_byte (idle m) c ≡ handle_key (idle m) (some key) down
unfolding process_byte process_start
press_lem m c h = ground (arith, map_scancode_bounds c h)

release_lem :
    (m : KeyModifiers) (c : ℕ) {key : KeyCode}
    → map_scancode c ≡ some key
    → process_byte (idle m) (c + 0x80) ≡ handle_key (idle m) (some key) up
unfolding process_byte process_start
release_lem m c h =
    let back : c + 0x80 - 0x80 ≡ c = omega arith in
    ground (arith, map_scancode_bounds c h, back, ap map_scancode back)

extended_press_lem :
    (m : KeyModifiers) (c : ℕ) {key : KeyCode}
    → map_extended_scancode c ≡ some key
    → c ≢ 0x10
    → process_byte (record (idle m) { state = extended }) c ≡ handle_key (idle m) (some key) down
unfolding process_byte process_extended
extended_press_lem m c h ne = ground (arith, map_extended_scancode_bounds c h ne)

extended_release_lem :
    (m : KeyModifiers) (c : ℕ) {key : KeyCode}
    → map_extended_scancode c ≡ some key
    → c ≢ 0x10
    → process_byte (record (idle m) { state = extended }) (c + 0x80)
      ≡ handle_key (idle m) (some key) up
unfolding process_byte process_extended
extended_release_lem m c h ne =
    let back : c + 0x80 - 0x80 ≡ c = omega arith in
    ground (arith, map_extended_scancode_bounds c h ne, ap map_extended_scancode back)

prefix_lem :
    (m : KeyModifiers)
    → process_byte (idle m) extended_key_code ≡ some (record (idle m) { state = extended }, ok none)
unfolding process_byte process_start
prefix_lem m = refl

handle_key-idle :
    (m : KeyModifiers) (key : KeyCode) (dir : KeyDirection)
    → is_modifier key ≡ true
    → (m' : KeyModifiers) × (handle_key (idle m) (some key) dir ≡ some (idle m', ok none))
      × (flags m' ≡ set (flags m) (flag_index key) (is_down dir))
unfolding handle_key
handle_key-idle m key dir h =
    let (m', e, f) = transition_modifier-set key dir m h in (m', rw (h, e), f)

-- Of a key of the regular set that is no modifier, the press code and then the release code, met
-- between two keys, return a down event and an up event of that key with the modifiers held, and
-- leave the keyboard as it was.
pub press_release :
    (m : KeyModifiers) (c : ℕ) {key : KeyCode}
    → map_scancode c ≡ some key
    → is_modifier key ≡ false
    → run process_byte (c ∷ (c + 0x80) ∷ []) (idle m)
      ≡ some (idle m, ok (some (key_event key m down)) ∷ ok (some (key_event key m up)) ∷ [])
press_release m c {key} h plain =
    let pressed = press_lem m c h ∙ handle_key_plain (idle m) key down plain in
    let released = release_lem m c h ∙ handle_key_plain (idle m) key up plain in
    run-step process_byte _ pressed (run-step process_byte _ released (run_nil process_byte _))

-- Of a key of the extended set that is no modifier and whose code is not 0x10, the press code and
-- then the release code, each behind the prefix byte and met between two keys, return a down event
-- and an up event of that key with the modifiers held, and leave the keyboard as it was. The prefix
-- bytes return no event.
pub extended_press_release :
    (m : KeyModifiers) (c : ℕ) {key : KeyCode}
    → map_extended_scancode c ≡ some key
    → c ≢ 0x10
    → is_modifier key ≡ false
    → run process_byte (extended_key_code ∷ c ∷ extended_key_code ∷ (c + 0x80) ∷ []) (idle m)
      ≡ some (
        idle m,
        ok none ∷ ok (some (key_event key m down)) ∷ ok none ∷ ok (some (key_event key m up)) ∷ [],
      )
extended_press_release m c {key} h ne plain =
    let pressed = extended_press_lem m c h ne ∙ handle_key_plain (idle m) key down plain in
    let released = extended_release_lem m c h ne ∙ handle_key_plain (idle m) key up plain in
    run-step process_byte _ (prefix_lem m) (
      run-step process_byte _ pressed (
        run-step process_byte _ (prefix_lem m)
          (run-step process_byte _ released (run_nil process_byte _))))

-- Of a modifier of the regular set, the press code and then the release code, met between two keys,
-- return no event and leave the decoder between two keys; the
-- press sets the key's own flag, the release clears it, and no other flag changes.
pub modifier_press_release :
    (m : KeyModifiers) (c : ℕ) {key : KeyCode}
    → map_scancode c ≡ some key
    → is_modifier key ≡ true
    → (m₁ : KeyModifiers) × (m₂ : KeyModifiers) × (process_byte (idle m) c
        ≡ some (idle m₁, ok none))
      × (flags m₁ ≡ set (flags m) (flag_index key) true)
      × (process_byte (idle m₁) (c + 0x80) ≡ some (idle m₂, ok none))
      × (flags m₂ ≡ set (flags m₁) (flag_index key) false)
modifier_press_release m c {key} h mod_key =
    let (m₁, e₁, f₁) = handle_key-idle m key down mod_key in
    let (m₂, e₂, f₂) = handle_key-idle m₁ key up mod_key in
    (m₁, m₂, press_lem m c h ∙ e₁, f₁, release_lem m₁ c h ∙ e₂, f₂)

-- The key with the extended code 0x10 (previous track) is the exception: its release code 0x90 lies
-- in the range that the decoder takes for presses, so the release returns `UnknownScancode` in place
-- of an up event, whatever modifiers are held.
pub prev_track_release :
    (m : KeyModifiers)
    → run process_byte (extended_key_code ∷ 0x10 ∷ extended_key_code ∷ (0x10 + 0x80) ∷ []) (idle m)
      ≡ some (
        idle m,
        ok none
            ∷ ok (some (key_event KeyCode.prev_track m down))
            ∷ ok none
            ∷ err unknown_scancode
            ∷ [],
      )
unfolding process_byte process_start process_extended map_extended_scancode is_modifier run
prev_track_release m = refl
