-- ===== src/Sound/Tests.antt =====
-- sound/src/lib.rs: the theorems at concrete words, and tests of the source.
use bare_metal_blasterball.Base.{
  replicate, length-replicate, ◌≢◌, ◌⊎◌, ℕ, ◌≡◌, refl, some, false, arith, [], ◌∷◌,
}
use bare_metal_blasterball.Num.Words.{set_bits, to_range, shl, shr}
use bare_metal_blasterball.Sound.Verbs.{field, long_verb, get_parameter_id}
use bare_metal_blasterball.Sound.Commands.{command, get_node_count}
use bare_metal_blasterball.Sound.Decode.{long_command-fields}
use bare_metal_blasterball.Sound.Responses.{entries_of, next_entry, node_ids, next_node}
use bare_metal_blasterball.Sound.Buffers.{Entry, data_bytes_len, new_list, sum_lens}
use bare_metal_blasterball.Sound.Format.{
  set_format, output_stream_format, sample_base_rate, sample_base_rate_multiple,
  sample_base_rate_divisor, bits_per_sample, number_of_channels,
}
use bare_metal_blasterball.Sound.Access.{bit_is_set}
use bare_metal_blasterball.Num.Words.{get_bit, get_bits}
use bare_metal_blasterball.Sound.Registers.Rings.{two, corb_write_pointer, read_pointer}
use bare_metal_blasterball.Sound.Rings.{Corb, add_command, waits, ready}
use bare_metal_blasterball.Sound.RingLaws.{IsCorb, IsPlaced, add_command_lem}
use bare_metal_blasterball.Sound.FormatLaws.{set_format_lem}

-- The count of nodes of node 1, of the codec at address 2
test_command : get_node_count 2 1 ≡ some 0x201f0004
unfolding command long_verb set_bits to_range shl shr
test_command = refl

test_entries :
    entries_of 5 (record { entries = 0x00050403; long = false; curr_index = 0 }) ≡ 3 ∷ 4 ∷ 5 ∷ []
unfolding entries_of next_entry shr
test_entries = refl

test_nodes :
    node_ids 4 (record { start_node = 2; num_of_nodes = 3; index = 0 }) ≡ some (2 ∷ 3 ∷ 4 ∷ [])
unfolding node_ids next_node
test_nodes = refl

long_command-fields_example :
    (c : ℕ) × (command 2 1 (long_verb get_parameter_id 4) ≡ some c)
    × (field 28 32 c ≡ some 2)
    × (field 20 28 c ≡ some 1)
    × (field 8 20 c ≡ some get_parameter_id)
    × (field 0 8 c ≡ some 4)
long_command-fields_example =
    long_command-fields 2 1 get_parameter_id 4 (omega arith) (omega arith) (omega arith)
      (omega arith)

set_format_lem_example :
    (y : ℕ) × (set_format output_stream_format 0xffff ≡ some y)
    × (sample_base_rate y ≡ some output_stream_format.rate)
    × (sample_base_rate_multiple y ≡ some output_stream_format.rate_multiple)
    × (sample_base_rate_divisor y ≡ some output_stream_format.rate_divisor)
    × (bits_per_sample y ≡ some output_stream_format.sample_bits)
    × (number_of_channels y ≡ some output_stream_format.channel_count)
set_format_lem_example = set_format_lem output_stream_format 0xffff (omega arith)

abbrev drum : Entry
drum = record { addr = 4096; len = 1000; interrupt_on_completion = 1 }

no_bytes : data_bytes_len new_list ≡ some 0
unfolding data_bytes_len sum_lens new_list
no_bytes = refl

-- A ring of two cells, whose engine runs
abbrev small_ring : Corb
small_ring = record {
  commands = replicate 256 0;
  write_pointer = 1;
  size = two;
  regs = record {
    corb_lower_base_addr = 0;
    corb_upper_base_addr = 0;
    corbwp = 1;
    corbrp = 1;
    control = 2;
    status = 0;
    size = 0;
  };
}

small_ring-IsCorb : IsCorb small_ring
unfolding corb_write_pointer bit_is_set get_bit shr
small_ring-IsCorb = record {
  full_length = length-replicate {A = ℕ} 256 0;
  in_ring = omega arith;
  told = refl;
  word = omega arith;
  enabled = refl;
}

small_ring_read : read_pointer 1 ≡ some 1
unfolding read_pointer get_bits to_range shl shr
small_ring_read = refl

-- The command goes round to the cell 0.
add_command_lem_example :
    ((small_ring.write_pointer ≡ 1)
      × ((corb' : Corb) × (add_command 0x201f0004 small_ring ≡ some (ready corb'))
          × IsPlaced 0x201f0004 1 small_ring corb'))
    ⊎ ((small_ring.write_pointer ≢ 1) × (add_command 0x201f0004 small_ring ≡ some waits))
add_command_lem_example = add_command_lem 0x201f0004 1 small_ring small_ring-IsCorb small_ring_read
