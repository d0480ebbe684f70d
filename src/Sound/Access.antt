-- ===== src/Sound/Access.antt =====
-- The accesses to bits that sound/src/lib.rs repeats.
use bare_metal_blasterball.Base.{ℕ, Bool, true, false, Option, some, ◌>>=◌, ◌≡◌, not}
use bare_metal_blasterball.Num.Words.{BitState, set, unset, get_bit, included, excluded, get_bits}
use bare_metal_blasterball.Num.Single.{state_of}

abbrev pub is_set : BitState → Bool
is_set set = true
is_set unset = false

-- `n.get_bit(i) == BitState::Set`
unfoldable pub bit_is_set : ℕ → ℕ → ℕ → Option Bool
bit_is_set w i n = do s ← get_bit w i n; some (is_set s)

-- `n.get_bit(i) == BitState::Unset`
unfoldable pub bit_is_unset : ℕ → ℕ → ℕ → Option Bool
bit_is_unset w i n = do s ← get_bit w i n; some (not (is_set s))

-- `n.get_bits(start..end).as_u8()` of a range of 8 bits at most
unfoldable pub byte_of : ℕ → ℕ → ℕ → ℕ → Option ℕ
byte_of w start end n = get_bits w (included start) (excluded end) n

pub bit_is_set_lem :
    (w i n : ℕ) (b : Bool) → get_bit w i n ≡ some (state_of b) → bit_is_set w i n ≡ some b
unfolding bit_is_set
bit_is_set_lem w i n true h = rw h
bit_is_set_lem w i n false h = rw h
