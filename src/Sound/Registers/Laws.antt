-- ===== src/Sound/Registers/Laws.antt =====
-- sound/src/lib.rs: what the registers read back after writes.
use bare_metal_blasterball.Base.{
  ℕ, ◌+◌, ◌*◌, ◌%◌, ◌^◌, ◌<◌, ◌≤◌, ◌≡◌, ◌⊎◌, none, some, arith, refl, inl, inr, Bool, true, false,
  not, lt→ltb, ltb-false, dec_lt,
}
use bare_metal_blasterball.Num.Digits.{bit}
use bare_metal_blasterball.Num.Masks.{IsRange}
use bare_metal_blasterball.Num.Fields.{store}
use bare_metal_blasterball.Num.Single.{put_bit, put_bit-IsStored}
use bare_metal_blasterball.Sound.Access.{bit_is_set_lem}
use bare_metal_blasterball.Sound.Registers.Global.{
  output_stream_descriptor_offset, num_of_output_streams, num_of_input_streams,
}
use bare_metal_blasterball.Sound.Registers.Rings.{
  RingBufferSize, two, sixteen, two_fifty_six, size_bits, size_of_bits, corb_size, set_corb_size,
  response_overrun_interrupt_control, set_response_overrun_interrupt_control,
}
use bare_metal_blasterball.Sound.Registers.Pci.{with_interrupt_line, interrupt_line_of}

size_bits_lt : (s : RingBufferSize) → size_bits s < 2 ^ 2
size_bits_lt two = omega arith
size_bits_lt sixteen = omega arith
size_bits_lt two_fifty_six = omega arith

size_of_bits-size_bits : (s : RingBufferSize) → size_of_bits (size_bits s) ≡ some s
unfolding size_of_bits
size_of_bits-size_bits two = refl
size_of_bits-size_bits sixteen = refl
size_of_bits-size_bits two_fifty_six = refl

-- The size that was written to the register of the ring of commands is read back, whatever the register
-- held.
pub corb_size-set_corb_size :
    (s : RingBufferSize) (n : ℕ)
    → n < 2 ^ 8
    → (y : ℕ) × (set_corb_size s n ≡ some y) × (corb_size y ≡ some s)
unfolding corb_size set_corb_size
corb_size-set_corb_size s n h =
    let r : IsRange 8 0 2 = record {
      word = omega arith;
      order = omega arith;
      bound = omega arith;
    } in
    let (y, e, t) = store (size_bits s) n r (size_bits_lt s) h in
    (y, e, rw t.same (size_of_bits-size_bits s))

-- The interrupt of a response overrun is set to the opposite of what is asked for: the bit reads back as
-- the negation of the argument.
pub response_overrun_inverted :
    (set : Bool) (n : ℕ)
    → n < 2 ^ 8
    → (y : ℕ) × (set_response_overrun_interrupt_control set n ≡ some y)
      × (response_overrun_interrupt_control y ≡ some (not set))
unfolding set_response_overrun_interrupt_control put_bit
response_overrun_inverted true n h =
    let (y, e, g, t) = put_bit-IsStored false n (omega arith) (omega arith) h in
    (y, e, bit_is_set_lem 8 2 y false g)
response_overrun_inverted false n h =
    let (y, e, g, t) = put_bit-IsStored true n (omega arith) (omega arith) h in
    (y, e, bit_is_set_lem 8 2 y true g)

-- The offset of a stream's registers is refused above 15 and above the count of output streams, and in
-- no other case; so the number that equals the count is not refused, and has the offset that lies
-- behind the registers of the last output stream.
pub output_stream_descriptor_offset_lem :
    (capabilities n : ℕ)
    → ((n ≤ 15)
        × (n ≤ num_of_output_streams capabilities)
        × (output_stream_descriptor_offset capabilities n
            ≡ some (0x80 + num_of_input_streams capabilities * 0x20 + n * 0x20)))
      ⊎ (((15 < n) ⊎ (num_of_output_streams capabilities < n))
          × (output_stream_descriptor_offset capabilities n ≡ none))
unfolding output_stream_descriptor_offset
output_stream_descriptor_offset_lem capabilities n = elim (dec_lt 15 n) [
  | yes a ↦ inr (inl a, rw (lt→ltb 15 n a))
  | no a ↦ elim (dec_lt (num_of_output_streams capabilities) n) [
    | yes b ↦
        inr (
          inr b,
          rw (ltb-false 15 n (omega arith), lt→ltb (num_of_output_streams capabilities) n b),
        )
    | no b ↦ inl (
      omega arith,
      omega arith,
      rw (
        ltb-false 15 n (omega arith),
        ltb-false (num_of_output_streams capabilities) n (omega arith),
      ),
    )
  ]
]

-- The low 8 bits of a number are its remainder.
pub low_byte : (a b : ℕ) → ((i : ℕ) → i < 8 → bit a i ≡ bit b i) → a % 2 ^ 8 ≡ b % 2 ^ 8
unfolding bit
low_byte a b same = omega (
  arith,
  same 0 (omega arith),
  same 1 (omega arith),
  same 2 (omega arith),
  same 3 (omega arith),
  same 4 (omega arith),
  same 5 (omega arith),
  same 6 (omega arith),
  same 7 (omega arith),
)

-- The write of an interrupt line to a word of the PCI configuration leaves the line that is read from the
-- word as it was, whatever the line.
pub interrupt_line_kept :
    (line val : ℕ)
    → val < 2 ^ 32
    → (y : ℕ) × (with_interrupt_line line val ≡ some y)
      × (interrupt_line_of y ≡ interrupt_line_of val)
unfolding with_interrupt_line interrupt_line_of
interrupt_line_kept line val h =
    let r : IsRange 32 8 16 = record {
      word = omega arith;
      order = omega arith;
      bound = omega arith;
    } in
    let (y, e, t) = store (line % 2 ^ 8) val r (omega arith) h in
    (y, e, low_byte y val (λ i l. t.outside i (omega arith) (inl l)))
