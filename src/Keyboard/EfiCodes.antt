-- ===== src/Keyboard/EfiCodes.antt =====
-- machine/src/keyboard/uefi.rs: the scancodes of UEFI's simple text protocol.
pub data EfiScanCode : Type 0 where
  null cursor_up cursor_down cursor_right cursor_left home end insert delete : EfiScanCode
  page_up page_down f1 f2 f3 f4 f5 f6 f7 f8 f9 f10 escape f11 f12 f13 f14 f15 f16 : EfiScanCode
  f17 f18 f19 f20 f21 f22 f23 f24 mute volume_up volume_down brightness_up : EfiScanCode
  brightness_down suspend hibernate toggle_display recovery eject : EfiScanCode
