-- ===== src/Sound/Verbs.antt =====
-- sound/src/lib.rs: `HDANodeCommandVerb` and `HDANodeCommand`, words of 20 and of 32 bits that are
-- filled by ranges of bits. `none` is a panic: of a value that does not fit its range.
use bare_metal_blasterball.Base.{ℕ, Option, ◌>>=◌}
use bare_metal_blasterball.Num.Words.{included, excluded, set_bits, get_bits}

-- `n.set_bits(start..end, value)` and `n.get_bits(start..end)` of a `u32`
abbrev pub put : ℕ → ℕ → ℕ → ℕ → Option ℕ
put start end value n = set_bits 32 (included start) (excluded end) value n

abbrev pub field : ℕ → ℕ → ℕ → Option ℕ
field start end n = get_bits 32 (included start) (excluded end) n

-- The verb ids
abbrev pub get_parameter_id : ℕ
get_parameter_id = 0xf00

abbrev pub get_conn_list_entry_id : ℕ
get_conn_list_entry_id = 0xf02

abbrev pub config_default_id : ℕ
config_default_id = 0xf1c

abbrev pub set_pin_widget_control_id : ℕ
set_pin_widget_control_id = 0x707

abbrev pub set_converter_control_id : ℕ
set_converter_control_id = 0x706

abbrev pub set_power_state_id : ℕ
set_power_state_id = 0x705

abbrev pub set_amp_gain_id : ℕ
set_amp_gain_id = 0x3

abbrev pub set_conn_select_ctrl_id : ℕ
set_conn_select_ctrl_id = 0x701

abbrev pub set_beep_gen_id : ℕ
set_beep_gen_id = 0x70a

abbrev pub set_converter_format_id : ℕ
set_converter_format_id = 0x02

abbrev pub get_converter_control_id : ℕ
get_converter_control_id = 0xf0d

abbrev pub set_converter_control1_id : ℕ
set_converter_control1_id = 0x70d

abbrev pub set_converter_control2_id : ℕ
set_converter_control2_id = 0x70e

abbrev pub set_converter_control3_id : ℕ
set_converter_control3_id = 0x73e

abbrev pub set_converter_control4_id : ℕ
set_converter_control4_id = 0x73f

abbrev pub set_eapd_enable_id : ℕ
set_eapd_enable_id = 0x70c

abbrev pub get_eapd_enable_id : ℕ
get_eapd_enable_id = 0xf0c

abbrev pub get_conn_sel_ctrl_id : ℕ
get_conn_sel_ctrl_id = 0xf01

abbrev pub set_conn_sel_ctrl_id : ℕ
set_conn_sel_ctrl_id = 0x701

-- A verb of a 12-bit id and an 8-bit payload: the lines that most verbs have.
unfoldable pub long_verb : ℕ → ℕ → Option ℕ
long_verb id payload = do val ← put 0 8 payload 0; put 8 20 id val

-- A verb of a 4-bit id and a 16-bit payload
unfoldable pub short_verb : ℕ → ℕ → Option ℕ
short_verb id payload = do val ← put 0 16 payload 0; put 16 20 id val

-- A verb of an id alone
unfoldable pub bare_verb : ℕ → Option ℕ
bare_verb id = put 8 20 id 0

abbrev pub get_parameter_verb : ℕ → Option ℕ
get_parameter_verb param_id = long_verb get_parameter_id param_id

abbrev pub get_conn_list_entry_verb : ℕ → Option ℕ
get_conn_list_entry_verb entry_index = long_verb get_conn_list_entry_id entry_index

abbrev pub set_pin_widget_control_verb : ℕ → Option ℕ
set_pin_widget_control_verb pin_ctrl = long_verb set_pin_widget_control_id pin_ctrl

abbrev pub set_converter_control_verb : ℕ → Option ℕ
set_converter_control_verb ctrl = long_verb set_converter_control_id ctrl

abbrev pub set_conn_select_ctrl_verb : ℕ → Option ℕ
set_conn_select_ctrl_verb conn_idx = long_verb set_conn_select_ctrl_id conn_idx

abbrev pub set_beep_gen_verb : ℕ → Option ℕ
set_beep_gen_verb divider = long_verb set_beep_gen_id divider

abbrev pub set_digital_converter_ctrl1_verb : ℕ → Option ℕ
set_digital_converter_ctrl1_verb bits = long_verb set_converter_control1_id bits

abbrev pub set_digital_converter_ctrl2_verb : ℕ → Option ℕ
set_digital_converter_ctrl2_verb bits = long_verb set_converter_control2_id bits

abbrev pub set_digital_converter_ctrl3_verb : ℕ → Option ℕ
set_digital_converter_ctrl3_verb bits = long_verb set_converter_control3_id bits

abbrev pub set_digital_converter_ctrl4_verb : ℕ → Option ℕ
set_digital_converter_ctrl4_verb bits = long_verb set_converter_control4_id bits

abbrev pub set_eapd_enable_verb : ℕ → Option ℕ
set_eapd_enable_verb eapd = long_verb set_eapd_enable_id eapd

abbrev pub set_conn_sel_ctrl_verb : ℕ → Option ℕ
set_conn_sel_ctrl_verb idx = long_verb set_conn_sel_ctrl_id idx

abbrev pub get_pin_config_defaults_verb : Option ℕ
get_pin_config_defaults_verb = bare_verb config_default_id

abbrev pub get_digital_converter_ctrl_verb : Option ℕ
get_digital_converter_ctrl_verb = bare_verb get_converter_control_id

abbrev pub get_eapd_enable_verb : Option ℕ
get_eapd_enable_verb = bare_verb get_eapd_enable_id

abbrev pub get_conn_sel_ctrl_verb : Option ℕ
get_conn_sel_ctrl_verb = bare_verb get_conn_sel_ctrl_id

abbrev pub set_amp_gain_verb : ℕ → Option ℕ
set_amp_gain_verb gain = short_verb set_amp_gain_id gain

abbrev pub set_converter_format_verb : ℕ → Option ℕ
set_converter_format_verb format = short_verb set_converter_format_id format

-- The payload of a power state is put in 4 bits.
unfoldable pub set_power_state_verb : ℕ → Option ℕ
set_power_state_verb state = do val ← put 0 4 state 0; put 8 20 set_power_state_id val
