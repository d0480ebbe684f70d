-- ===== src/Sound/Commands.antt =====
-- sound/src/lib.rs: `HDANodeCommand`, a word of a codec's address, a node's id and a verb, and what a
-- codec reads from it.
use bare_metal_blasterball.Base.{ℕ, ◌^◌, Option, none, some, List, [], ◌∷◌, ◌>>=◌, ◌%◌}
use bare_metal_blasterball.Sound.Verbs.{
  put, field, long_verb, get_parameter_verb, get_conn_list_entry_verb, set_pin_widget_control_verb,
  set_converter_control_verb, set_conn_select_ctrl_verb, set_beep_gen_verb,
  set_digital_converter_ctrl1_verb, set_digital_converter_ctrl2_verb,
  set_digital_converter_ctrl3_verb, set_digital_converter_ctrl4_verb, set_eapd_enable_verb,
  set_conn_sel_ctrl_verb, get_pin_config_defaults_verb, get_digital_converter_ctrl_verb,
  get_eapd_enable_verb, get_conn_sel_ctrl_verb, set_amp_gain_verb, set_converter_format_verb,
  set_power_state_verb,
}

pub record NodeAddr : Type 0 where
  pub codec_addr : ℕ
  pub node_id : ℕ

-- `HDANodeCommand::command`, of a verb that may have panicked
unfoldable pub command : ℕ → ℕ → Option ℕ → Option ℕ
command codec_addr node_id verb = do
  bits ← verb
  val ← put 0 20 bits 0
  val' ← put 20 28 node_id val
  put 28 32 codec_addr val'

abbrev pub parameter_node_count : ℕ
parameter_node_count = 0x04

abbrev pub parameter_func_group_type : ℕ
parameter_func_group_type = 0x05

abbrev pub parameter_afg_widget_capabilities : ℕ
parameter_afg_widget_capabilities = 0x09

abbrev pub parameter_conn_list_len : ℕ
parameter_conn_list_len = 0x0e

abbrev pub parameter_output_amp_capabilities : ℕ
parameter_output_amp_capabilities = 0x12

abbrev pub parameter_pin_capabilities : ℕ
parameter_pin_capabilities = 0x0c

abbrev pub parameter_afg_capabilities : ℕ
parameter_afg_capabilities = 0x08

abbrev pub get_parameter : ℕ → ℕ → ℕ → Option ℕ
get_parameter codec_addr node_id param_id = command codec_addr node_id (get_parameter_verb param_id)

abbrev pub get_node_count : ℕ → ℕ → Option ℕ
get_node_count codec_addr node_id = get_parameter codec_addr node_id parameter_node_count

abbrev pub function_group_type : ℕ → ℕ → Option ℕ
function_group_type codec_addr node_id = get_parameter codec_addr node_id parameter_func_group_type

abbrev pub afg_capabilities : ℕ → ℕ → Option ℕ
afg_capabilities codec_addr node_id = get_parameter codec_addr node_id parameter_afg_capabilities

abbrev pub afg_widget_capabilities : ℕ → ℕ → Option ℕ
afg_widget_capabilities codec_addr node_id =
    get_parameter codec_addr node_id parameter_afg_widget_capabilities

abbrev pub get_conn_list_len : ℕ → ℕ → Option ℕ
get_conn_list_len codec_addr node_id = get_parameter codec_addr node_id parameter_conn_list_len

abbrev pub get_out_amp_capabilities : ℕ → ℕ → Option ℕ
get_out_amp_capabilities codec_addr node_id =
    get_parameter codec_addr node_id parameter_output_amp_capabilities

abbrev pub get_pin_capabilities : ℕ → ℕ → Option ℕ
get_pin_capabilities codec_addr node_id =
    get_parameter codec_addr node_id parameter_pin_capabilities

abbrev pub get_conn_list_entry : ℕ → ℕ → ℕ → Option ℕ
get_conn_list_entry codec_addr node_id entry_index =
    command codec_addr node_id (get_conn_list_entry_verb entry_index)

abbrev pub set_pin_widget_control : ℕ → ℕ → ℕ → Option ℕ
set_pin_widget_control codec_addr node_id val =
    command codec_addr node_id (set_pin_widget_control_verb val)

abbrev pub set_converter_control : ℕ → ℕ → ℕ → Option ℕ
set_converter_control codec_addr node_id val =
    command codec_addr node_id (set_converter_control_verb val)

abbrev pub set_amp_gain : ℕ → ℕ → ℕ → Option ℕ
set_amp_gain codec_addr node_id amp_gain = command codec_addr node_id (set_amp_gain_verb amp_gain)

abbrev pub set_conn_select_ctrl : ℕ → ℕ → ℕ → Option ℕ
set_conn_select_ctrl codec_addr node_id conn_idx =
    command codec_addr node_id (set_conn_select_ctrl_verb conn_idx)

abbrev pub set_beep_gen : ℕ → ℕ → ℕ → Option ℕ
set_beep_gen codec_addr node_id divider = command codec_addr node_id (set_beep_gen_verb divider)

abbrev pub get_pin_config_defaults : ℕ → ℕ → Option ℕ
get_pin_config_defaults codec_addr node_id = command codec_addr node_id get_pin_config_defaults_verb

pub data PowerState : Type 0 where
  d0 : PowerState
  other : PowerState

-- `Into<u32>`: only one state is implemented.
abbrev pub power_state_bits : PowerState → Option ℕ
power_state_bits PowerState.d0 = some 0
power_state_bits other = none

abbrev pub set_power_state : ℕ → ℕ → PowerState → Option ℕ
set_power_state codec_addr node_id val =
    command codec_addr node_id (power_state_bits val >>= set_power_state_verb)

unfoldable pub get_amp_gain : ℕ → ℕ → Option ℕ
get_amp_gain codec_addr node_id = do
  a ← put 16 20 0xb 0
  b ← put 0 16 0b1010000000000000 a
  c ← put 20 28 node_id b
  put 28 32 codec_addr c

abbrev pub set_converter_format : NodeAddr → ℕ → Option ℕ
set_converter_format a format = command a.codec_addr a.node_id (set_converter_format_verb format)

abbrev pub set_eapd_enable : NodeAddr → ℕ → Option ℕ
set_eapd_enable a val = command a.codec_addr a.node_id (set_eapd_enable_verb val)

abbrev pub set_conn_sel_ctrl : NodeAddr → ℕ → Option ℕ
set_conn_sel_ctrl a idx = command a.codec_addr a.node_id (set_conn_sel_ctrl_verb idx)

abbrev pub get_digital_converter_ctrl : NodeAddr → Option ℕ
get_digital_converter_ctrl a = command a.codec_addr a.node_id get_digital_converter_ctrl_verb

abbrev pub eapd_enable : NodeAddr → Option ℕ
eapd_enable a = command a.codec_addr a.node_id get_eapd_enable_verb

abbrev pub get_conn_sel_ctrl : NodeAddr → Option ℕ
get_conn_sel_ctrl a = command a.codec_addr a.node_id get_conn_sel_ctrl_verb

-- One byte of the control word in each of the four commands
unfoldable pub set_digital_converter_ctrl : NodeAddr → ℕ → Option (List ℕ)
unfolding command long_verb
set_digital_converter_ctrl a digi_ctrl = do
  bits1 ← field 0 8 digi_ctrl
  bits2 ← field 8 16 digi_ctrl
  bits3 ← field 16 24 digi_ctrl
  bits4 ← field 24 32 digi_ctrl
  c1 ← command a.codec_addr a.node_id (set_digital_converter_ctrl1_verb (bits1 % 2 ^ 8))
  c2 ← command a.codec_addr a.node_id (set_digital_converter_ctrl2_verb (bits2 % 2 ^ 8))
  c3 ← command a.codec_addr a.node_id (set_digital_converter_ctrl3_verb (bits3 % 2 ^ 8))
  c4 ← command a.codec_addr a.node_id (set_digital_converter_ctrl4_verb (bits4 % 2 ^ 8))
  some (c1 ∷ c2 ∷ c3 ∷ c4 ∷ [])
