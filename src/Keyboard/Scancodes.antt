-- ===== src/Keyboard/Scancodes.antt =====
-- machine/src/keyboard/mod.rs: `map_scancode` and `map_extended_scancode`. The arms of each `match`
-- are the rows of a table, in the source's order, and the first row that fits is taken.
use bare_metal_blasterball.Base.{ℕ, List, [], ◌∷◌, Option, none, some, ◌==◌, if◌then◌else◌}
use bare_metal_blasterball.Keyboard.Codes.{KeyCode}

unfoldable pub match_code : ℕ → List (ℕ × KeyCode) → Option KeyCode
match_code byte [] = none
match_code byte ((code, key) ∷ rows) = if code == byte then some key else match_code byte rows

abbrev pub scancodes : List (ℕ × KeyCode)
scancodes =
    (0x01, KeyCode.escape)
    ∷ (0x02, KeyCode.one)
    ∷ (0x03, KeyCode.two)
    ∷ (0x04, KeyCode.three)
    ∷ (0x05, KeyCode.four)
    ∷ (0x06, KeyCode.five)
    ∷ (0x07, KeyCode.six)
    ∷ (0x08, KeyCode.seven)
    ∷ (0x09, KeyCode.eight)
    ∷ (0x0a, KeyCode.nine)
    ∷ (0x0b, KeyCode.zero)
    ∷ (0x0c, KeyCode.dash)
    ∷ (0x0d, KeyCode.equals)
    ∷ (0x0e, KeyCode.backspace)
    ∷ (0x0f, KeyCode.tab)
    ∷ (0x10, KeyCode.q)
    ∷ (0x11, KeyCode.w)
    ∷ (0x12, KeyCode.e)
    ∷ (0x13, KeyCode.r)
    ∷ (0x14, KeyCode.t)
    ∷ (0x15, KeyCode.y)
    ∷ (0x16, KeyCode.u)
    ∷ (0x17, KeyCode.i)
    ∷ (0x18, KeyCode.o)
    ∷ (0x19, KeyCode.p)
    ∷ (0x1a, KeyCode.open_bracket)
    ∷ (0x1b, KeyCode.close_bracket)
    ∷ (0x1c, KeyCode.enter)
    ∷ (0x1d, KeyCode.left_ctrl)
    ∷ (0x1e, KeyCode.a)
    ∷ (0x1f, KeyCode.s)
    ∷ (0x20, KeyCode.d)
    ∷ (0x21, KeyCode.f)
    ∷ (0x22, KeyCode.g)
    ∷ (0x23, KeyCode.h)
    ∷ (0x24, KeyCode.j)
    ∷ (0x25, KeyCode.k)
    ∷ (0x26, KeyCode.l)
    ∷ (0x27, KeyCode.semi_colon)
    ∷ (0x28, KeyCode.single_quote)
    ∷ (0x29, KeyCode.backtick)
    ∷ (0x2a, KeyCode.left_shift)
    ∷ (0x2b, KeyCode.back_slash)
    ∷ (0x2c, KeyCode.z)
    ∷ (0x2d, KeyCode.x)
    ∷ (0x2e, KeyCode.c)
    ∷ (0x2f, KeyCode.v)
    ∷ (0x30, KeyCode.b)
    ∷ (0x31, KeyCode.n)
    ∷ (0x32, KeyCode.m)
    ∷ (0x33, KeyCode.comma)
    ∷ (0x34, KeyCode.dot)
    ∷ (0x35, KeyCode.forward_slash)
    ∷ (0x36, KeyCode.right_shift)
    ∷ (0x37, KeyCode.keypad_star)
    ∷ (0x38, KeyCode.left_alt)
    ∷ (0x39, KeyCode.space)
    ∷ (0x3a, KeyCode.caps_lock)
    ∷ (0x3b, KeyCode.f1)
    ∷ (0x3c, KeyCode.f2)
    ∷ (0x3d, KeyCode.f3)
    ∷ (0x3e, KeyCode.f4)
    ∷ (0x3f, KeyCode.f5)
    ∷ (0x40, KeyCode.f6)
    ∷ (0x41, KeyCode.f7)
    ∷ (0x42, KeyCode.f8)
    ∷ (0x43, KeyCode.f9)
    ∷ (0x44, KeyCode.f10)
    ∷ (0x57, KeyCode.f11)
    ∷ (0x58, KeyCode.f12)
    ∷ (0x45, KeyCode.num_lock)
    ∷ (0x46, KeyCode.scroll_lock)
    ∷ (0x47, KeyCode.keypad_seven)
    ∷ (0x48, KeyCode.keypad_eight)
    ∷ (0x49, KeyCode.keypad_nine)
    ∷ (0x4a, KeyCode.keypad_dash)
    ∷ (0x4b, KeyCode.keypad_four)
    ∷ (0x4c, KeyCode.keypad_five)
    ∷ (0x4d, KeyCode.keypad_six)
    ∷ (0x4e, KeyCode.keypad_plus)
    ∷ (0x4f, KeyCode.keypad_one)
    ∷ (0x50, KeyCode.keypad_two)
    ∷ (0x51, KeyCode.keypad_three)
    ∷ (0x52, KeyCode.keypad_zero)
    ∷ (0x53, KeyCode.keypad_dot)
    ∷ []

abbrev pub extended_scancodes : List (ℕ × KeyCode)
extended_scancodes =
    (0x10, KeyCode.prev_track)
    ∷ (0x19, KeyCode.next_track)
    ∷ (0x1c, KeyCode.keypad_enter)
    ∷ (0x1d, KeyCode.right_ctrl)
    ∷ (0x20, KeyCode.mute)
    ∷ (0x21, KeyCode.calculator)
    ∷ (0x22, KeyCode.play)
    ∷ (0x24, KeyCode.stop)
    ∷ (0x2e, KeyCode.volume_down)
    ∷ (0x30, KeyCode.volume_up)
    ∷ (0x32, KeyCode.www_home)
    ∷ (0x35, KeyCode.keypad_forward_slash)
    ∷ (0x38, KeyCode.alt_gr)
    ∷ (0x47, KeyCode.home)
    ∷ (0x48, KeyCode.arrow_up)
    ∷ (0x49, KeyCode.page_up)
    ∷ (0x4b, KeyCode.arrow_left)
    ∷ (0x4d, KeyCode.arrow_right)
    ∷ (0x4f, KeyCode.end)
    ∷ (0x50, KeyCode.arrow_down)
    ∷ (0x51, KeyCode.page_down)
    ∷ (0x52, KeyCode.insert)
    ∷ (0x53, KeyCode.delete)
    ∷ (0x5b, KeyCode.left_gui)
    ∷ (0x5c, KeyCode.right_gui)
    ∷ (0x5d, KeyCode.apps)
    ∷ (0x5e, KeyCode.acpi_power)
    ∷ (0x5f, KeyCode.acpi_sleep)
    ∷ (0x63, KeyCode.acpi_wake)
    ∷ (0x65, KeyCode.www_search)
    ∷ (0x66, KeyCode.www_favorites)
    ∷ (0x67, KeyCode.www_refresh)
    ∷ (0x68, KeyCode.www_stop)
    ∷ (0x69, KeyCode.www_forward)
    ∷ (0x6a, KeyCode.www_back)
    ∷ (0x6b, KeyCode.my_computer)
    ∷ (0x6c, KeyCode.email)
    ∷ (0x6d, KeyCode.media_select)
    ∷ []

-- `none` is `Err(KeyError::UnknownScancode)`.
unfoldable pub map_scancode : ℕ → Option KeyCode
unfolding match_code
map_scancode byte = match_code byte scancodes

unfoldable pub map_extended_scancode : ℕ → Option KeyCode
unfolding match_code
map_extended_scancode byte = match_code byte extended_scancodes
