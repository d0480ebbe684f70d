-- ===== src/Sound/Responses.antt =====
-- sound/src/lib.rs: what the driver reads from the words that codecs respond with.
use bare_metal_blasterball.Base.{
  ℕ, zero, suc, ◌+◌, ◌%◌, ◌^◌, Bool, true, false, not, Option, none, some, ◌>>=◌, ◌==◌, ltb, leb,
  in_range, ◌&&◌, if◌then◌else◌, List, [], ◌∷◌, get_or,
}
use bare_metal_blasterball.Num.Words.{shr}
use bare_metal_blasterball.Sound.Access.{bit_is_set, bit_is_unset, byte_of}

-- A response of 0 is an error of most commands; otherwise it is the word that is read.
abbrev pub nonzero : ℕ → Option ℕ
nonzero response = if response == 0 then none else some response

-- `ResponseInfo`
abbrev pub codec : ℕ → Option ℕ
codec info = byte_of 32 0 4 info

abbrev pub solicited : ℕ → Option Bool
solicited info = bit_is_unset 32 4 info

-- `HDANodeResponseNodeCount`
abbrev pub start_node_number : ℕ → Option ℕ
start_node_number resp = byte_of 32 16 24 resp

abbrev pub number_of_nodes : ℕ → Option ℕ
number_of_nodes resp = byte_of 32 0 8 resp

pub data FunctionGroupType : Type 0 where
  afg : FunctionGroupType
  mfg : FunctionGroupType
  other : FunctionGroupType

unfoldable pub group_of : ℕ → Option FunctionGroupType
group_of n =
    if n == 1
    then some afg
    else if n == 2
    then some mfg
    else if in_range 0x80 0xff n
    then some FunctionGroupType.other
    else none

-- `HDANodeResponseFunctionGroupType`; an unexpected type is a panic.
unfoldable pub node_type : ℕ → Option FunctionGroupType
unfolding group_of
node_type resp = byte_of 32 0 8 resp >>= group_of

abbrev pub capable_of_unsolicited_responses : ℕ → Option Bool
capable_of_unsolicited_responses resp = bit_is_set 32 8 resp

-- `HDANodeResponseAFGWidgetCap`
abbrev pub connection_list_present : ℕ → Option Bool
connection_list_present resp = bit_is_set 32 8 resp

abbrev pub power_ctrl_supported : ℕ → Option Bool
power_ctrl_supported resp = bit_is_set 32 10 resp

-- `HDANodeResponseGetConnListLen`
abbrev pub long_form : ℕ → Option Bool
long_form resp = bit_is_set 32 7 resp

abbrev pub conn_list_len : ℕ → Option ℕ
conn_list_len resp = byte_of 32 0 7 resp

-- `HDANodeResponseAmpCapabilities`
abbrev pub offset : ℕ → Option ℕ
offset resp = byte_of 32 0 7 resp

abbrev pub step_size : ℕ → Option ℕ
step_size resp = byte_of 32 16 23 resp

abbrev pub num_of_steps : ℕ → Option ℕ
num_of_steps resp = byte_of 32 8 15 resp

-- `HDANodeResponsePinCapabilities`
abbrev pub eapd_capable : ℕ → Option Bool
eapd_capable resp = bit_is_set 32 16 resp

abbrev pub input_capable : ℕ → Option Bool
input_capable resp = bit_is_set 32 5 resp

abbrev pub output_capable : ℕ → Option Bool
output_capable resp = bit_is_set 32 4 resp

-- `AFGCapResp`
abbrev pub has_beep_gen : ℕ → Option Bool
has_beep_gen resp = bit_is_set 32 16 resp

abbrev pub input_delay : ℕ → Option ℕ
input_delay resp = byte_of 32 8 12 resp

abbrev pub output_delay : ℕ → Option ℕ
output_delay resp = byte_of 32 0 4 resp

-- `GetConnSelCtrlResp`
abbrev pub active_idx : ℕ → Option ℕ
active_idx resp = byte_of 32 0 8 resp

pub data PortConnectivity : Type 0 where
  jack : PortConnectivity
  fixed_func_device : PortConnectivity
  jack_and_internal_device : PortConnectivity
  no_connection : PortConnectivity

abbrev pub port_of : ℕ → Option PortConnectivity
port_of n =
    if n == 0b00
    then some jack
    else if n == 0b01
    then some no_connection
    else if n == 0b10
    then some fixed_func_device
    else if n == 0b11
    then some jack_and_internal_device
    else none

-- `HDANodeResponsePinConfigDefaults`
abbrev pub port_connectivity : ℕ → Option PortConnectivity
port_connectivity resp = byte_of 32 30 32 resp >>= port_of

-- `ConnListEntryIter`
pub record ConnListEntryIter : Type 0 where
  pub entries : ℕ
  pub long : Bool
  pub curr_index : ℕ

abbrev pub entry_words : Bool → ℕ → List ℕ
entry_words true entries = entries % 2 ^ 16 ∷ shr entries 16 % 2 ^ 16 ∷ 0 ∷ 0 ∷ []
entry_words false entries =
    entries % 2 ^ 8 ∷ shr entries 8 % 2 ^ 8 ∷ shr entries 16 % 2 ^ 8 ∷ shr entries 24 % 2 ^ 8 ∷ []

unfoldable pub next_entry : ConnListEntryIter → Option ℕ × ConnListEntryIter
next_entry it =
    if it.long && leb 2 it.curr_index
    then (none, it)
    else if not it.long && leb 4 it.curr_index
    then (none, it)
    else (
      nonzero (get_or (entry_words it.long it.entries) it.curr_index 0),
      record it { curr_index = it.curr_index + 1 },
    )

-- A `for` loop over the iterator, with fuel: the items up to the first `None`.
unfoldable pub entries_of : ℕ → ConnListEntryIter → List ℕ
unfolding next_entry
entries_of zero it = []
entries_of (suc fuel) it =
    let (item, it') = next_entry it in
    let rest = entries_of fuel it' in elim item [ none ↦ [] | some x ↦ x ∷ rest ]

-- `NodeIter`, and `FuncGroupIter`, which differs in what it wraps a node in
pub record NodeIter : Type 0 where
  pub start_node : ℕ
  pub num_of_nodes : ℕ
  pub index : ℕ

-- The id of the next node; `none` outside is a panic, of an id that overflows.
unfoldable pub next_node : NodeIter → Option (Option ℕ × NodeIter)
next_node it =
    if leb it.num_of_nodes it.index
    then some (none, it)
    else if ltb (it.start_node + it.index) (2 ^ 8)
    then some (some (it.start_node + it.index), record it { index = it.index + 1 })
    else none

-- A `for` loop over the nodes, with fuel.
unfoldable pub node_ids : ℕ → NodeIter → Option (List ℕ)
unfolding next_node
node_ids zero it = some []
node_ids (suc fuel) it = do
  (item, it') ← next_node it
  elim item [ none ↦ some [] | some x ↦ (do rest ← node_ids fuel it'; some (x ∷ rest)) ]
