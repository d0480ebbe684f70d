-- ===== src/Keyboard/Codes.antt =====
-- machine/src/keyboard/mod.rs: the keys of scancode set 1.
pub data KeyCode : Type 0 where
  escape one two three four five six seven eight nine zero dash equals backspace tab q : KeyCode
  w e r t y u i o p open_bracket close_bracket enter left_ctrl a s d f g h j k l : KeyCode
  semi_colon single_quote backtick left_shift back_slash z x c v b n m comma dot : KeyCode
  forward_slash right_shift keypad_star left_alt space caps_lock f1 f2 f3 f4 f5 f6 f7 : KeyCode
  f8 f9 f10 f11 f12 num_lock scroll_lock keypad_seven keypad_eight keypad_nine : KeyCode
  keypad_dash keypad_four keypad_five keypad_six keypad_one keypad_two keypad_three : KeyCode
  keypad_plus keypad_zero keypad_dot prev_track next_track keypad_enter right_ctrl : KeyCode
  mute calculator play stop volume_down volume_up www_home keypad_forward_slash alt_gr : KeyCode
  home arrow_up arrow_down arrow_left arrow_right page_up end page_down insert delete : KeyCode
  left_gui right_gui apps acpi_power acpi_sleep acpi_wake www_search www_favorites : KeyCode
  www_refresh www_stop www_forward www_back my_computer email media_select : KeyCode
