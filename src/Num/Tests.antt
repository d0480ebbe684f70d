-- ===== src/Num/Tests.antt =====
-- num/src/lib.rs: the examples of the documentation, and the theorems at concrete words.
use bare_metal_blasterball.Base.{ℕ, ◌≡◌, refl, some, none, arith}
use bare_metal_blasterball.Num.Words.{
  included, excluded, unbounded, set_bits, get_bits, set_bit, unset_bit, get_bit, set, to_range,
  shr, shl,
}
use bare_metal_blasterball.Num.Masks.{IsRange}
use bare_metal_blasterball.Num.Ranges.{IsMerged, set_bits_lem}
use bare_metal_blasterball.Num.Fields.{get_bits-set_bits}

documented_set_bit : set_bit 32 1 0 ≡ some 2
unfolding set_bit shl
documented_set_bit = refl

documented_unset_bit : unset_bit 64 4 0b101010111 ≡ some 0b101000111
unfolding unset_bit set_bits to_range shl shr
documented_unset_bit = refl

documented_get_bit : get_bit 32 3 0b1101101 ≡ some set
unfolding get_bit shr
documented_get_bit = refl

documented_set_bits : set_bits 64 (included 2) (excluded 5) 0b111 0 ≡ some 0b11100
unfolding set_bits to_range shl shr
documented_set_bits = refl

documented_get_bits : get_bits 64 (included 3) (excluded 6) 0b1011011 ≡ some 0b011
unfolding get_bits to_range shl shr
documented_get_bits = refl

-- A value that is too large for the range is refused.
refused_set_bits : set_bits 8 (included 0) (excluded 2) 4 0 ≡ none
unfolding set_bits to_range shl shr
refused_set_bits = refl

-- A range without an end stops before the highest bit.
open_range : get_bits 8 (included 4) unbounded 0xff ≡ some 0b111
unfolding get_bits to_range shl shr
open_range = refl

middle : IsRange 8 2 5
middle = record { word = omega arith; order = omega arith; bound = omega arith }

high : IsRange 8 5 8
high = record { word = omega arith; order = omega arith; bound = omega arith }

set_bits_lem_example :
    (y : ℕ) × (set_bits 8 (included 2) (excluded 5) 6 0xf0 ≡ some y) × IsMerged 8 2 5 6 0xf0 y
set_bits_lem_example = set_bits_lem middle 6 0xf0 (omega arith) (omega arith)

get_bits-set_bits_example :
    (y : ℕ) × (set_bits 8 (included 2) (excluded 5) 6 0xf0 ≡ some y)
    × (get_bits 8 (included 2) (excluded 5) y ≡ some 6)
get_bits-set_bits_example = get_bits-set_bits middle 6 0xf0 (omega arith) (omega arith)
