-- ===== src/Sound/RingLaws.antt =====
-- sound/src/lib.rs: what the rings promise.
use bare_metal_blasterball.Base.{
  ℕ, ◌+◌, ◌-◌, ◌%◌, ◌^◌, ◌<◌, ◌≤◌, ◌≡◌, ◌≢◌, ◌⊎◌, inl, inr, true, some, length, set, get_elem?,
  length-set, get_elem?-set_self, get_elem?-set_ne, arith, refl, ap, ◌∙◌, sym, lt→ltb, ==_false,
  ==_true, ℕ_discrete,
}
use bare_metal_blasterball.Num.Digits.{bit}
use bare_metal_blasterball.Num.Masks.{IsRange}
use bare_metal_blasterball.Num.Ranges.{set_bits_lem}
use bare_metal_blasterball.Sound.Registers.Laws.{low_byte}
use bare_metal_blasterball.Sound.Registers.Rings.{
  RingBufferSize, two, sixteen, two_fifty_six, entries_as_u16, corb_write_pointer,
  set_corb_write_pointer, read_pointer, corb_dma_engine_enabled, rirb_dma_engine_enabled,
  rirb_write_pointer,
}
use bare_metal_blasterball.Sound.Rings.{
  waits, ready, Corb, place_command, add_command, Rirb, take_response, read_next_response,
}

-- The pointer that is written is read back.
set_corb_write_pointer_lem :
    (wp n : ℕ)
    → wp < 2 ^ 8
    → n < 2 ^ 16
    → (y : ℕ) × (set_corb_write_pointer wp n ≡ some y) × (y < 2 ^ 16) × (corb_write_pointer y ≡ wp)
unfolding set_corb_write_pointer corb_write_pointer
set_corb_write_pointer_lem wp n l h =
    let r : IsRange 16 0 8 = record {
      word = omega arith;
      order = omega arith;
      bound = omega arith;
    } in
    let (y, e, m) = set_bits_lem r wp n l h in
    let same : (i : ℕ) → i < 8 → bit y i ≡ bit wp i =
      λ i k. let back : i - 0 ≡ i = omega arith in m.inside i (omega arith) k ∙ ap (bit wp) back in
    (y, e, m.small, low_byte y wp same ∙ omega arith)

pointer_lt : (s : RingBufferSize) (n : ℕ) → n % entries_as_u16 s < entries_as_u16 s
pointer_lt two n = omega arith
pointer_lt sixteen n = omega arith
pointer_lt two_fifty_six n = omega arith

entries_le : (s : RingBufferSize) → entries_as_u16 s ≤ 256
entries_le two = omega arith
entries_le sixteen = omega arith
entries_le two_fifty_six = omega arith

-- A ring of commands that works: the register holds the driver's write pointer.
pub record IsCorb (corb : Corb) : Type 0 where
  pub full_length : length corb.commands ≡ 256
  pub in_ring : corb.write_pointer < entries_as_u16 corb.size
  pub told : corb_write_pointer corb.regs.corbwp ≡ corb.write_pointer
  pub word : corb.regs.corbwp < 2 ^ 16
  pub enabled : corb_dma_engine_enabled corb.regs.control ≡ some true

-- The command stands behind the one at `rp`, and the register points at it.
pub record IsPlaced (command rp : ℕ) (corb corb' : Corb) : Type 0 where
  pub is_corb : IsCorb corb'
  pub same_size : corb'.size ≡ corb.size
  pub one_on : corb'.write_pointer ≡ (rp + 1) % entries_as_u16 corb.size
  pub there : get_elem? corb'.commands corb'.write_pointer ≡ some command
  pub others :
      (i : ℕ) → i ≢ corb'.write_pointer → get_elem? corb'.commands i ≡ get_elem? corb.commands i

place_command_lem :
    (command : ℕ) (corb : Corb)
    → IsCorb corb
    → (corb' : Corb) × (place_command command corb ≡ some corb')
      × IsPlaced command corb.write_pointer corb corb'
unfolding place_command
place_command_lem command corb c =
    let next_pointer = (corb.write_pointer + 1) % entries_as_u16 corb.size in
    let below = pointer_lt corb.size (corb.write_pointer + 1) in
    let small : next_pointer < 256 = omega (arith, entries_le corb.size, below) in
    let inside : next_pointer < length corb.commands = omega (arith, c.full_length) in
    let byte : next_pointer % 2 ^ 8 ≡ next_pointer = omega arith in
    let (y, e, l, back) = set_corb_write_pointer_lem next_pointer corb.regs.corbwp small c.word in
    (
      record corb {
        commands = set corb.commands next_pointer command;
        write_pointer = next_pointer;
        regs = record corb.regs { corbwp = y };
      },
      rw (lt→ltb next_pointer (length corb.commands) inside, byte, e),
      record {
        is_corb = record {
          full_length = length-set corb.commands next_pointer command ∙ c.full_length;
          in_ring = below;
          told = back;
          word = l;
          enabled = c.enabled;
        };
        same_size = refl;
        one_on = refl;
        there = get_elem?-set_self corb.commands next_pointer command inside;
        others = λ i ne. get_elem?-set_ne corb.commands command (λ e. ne (sym e));
      },
    )

-- A call of `add_command` waits as long as the controller has read less than the ring holds. Once it has
-- read up to the write pointer, the call places the command in the cell behind the last one that was read, going
-- round at the end of the ring, changes no other cell, and points the register at it; the ring stays
-- one that works. No call panics.
pub add_command_lem :
    (command rp : ℕ) (corb : Corb)
    → IsCorb corb
    → read_pointer corb.regs.corbrp ≡ some rp
    → ((corb.write_pointer ≡ rp)
        × ((corb' : Corb) × (add_command command corb ≡ some (ready corb'))
            × IsPlaced command rp corb corb'))
      ⊎ ((corb.write_pointer ≢ rp) × (add_command command corb ≡ some waits))
unfolding add_command
add_command_lem command rp corb c h = elim (ℕ_discrete corb.write_pointer rp) [
  | yes e ↦
      (let (corb', p, placed) = place_command_lem command corb c in
        inl (
          e,
          (corb', rw (c.enabled, h, c.told, ==_true corb.write_pointer rp e, p), rw (sym e) placed),
        ))
  | no ne ↦ inr (ne, rw (c.enabled, h, c.told, ==_false corb.write_pointer rp ne))
]

-- Once the last cell of the ring has been read, and the controller's pointer stands at 0 as after a reset,
-- the next call does not wait for a response: it returns what the first cell holds.
pub read_next_response_stale {ℓ} :
    {T : Type ℓ} (r : T) (rirb : Rirb T)
    → rirb_dma_engine_enabled rirb.regs.control ≡ some true
    → rirb.size ≡ two_fifty_six
    → rirb.read_pointer ≡ 255
    → rirb_write_pointer rirb.regs.rirbwp ≡ 0
    → get_elem? rirb.responses 0 ≡ some r
    → read_next_response rirb ≡ some (ready (r, record rirb { read_pointer = 0 }))
unfolding read_next_response take_response
read_next_response_stale r rirb on size last wp first = rw (on, wp, last, size, first) refl
