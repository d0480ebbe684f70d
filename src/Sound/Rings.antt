-- ===== src/Sound/Rings.antt =====
-- sound/src/lib.rs: the rings of commands (`CORB`) and of responses (`RIRB`), which the driver shares with
-- the controller. The controller may change registers between any two calls, so that a wait for it is
-- cut into its rounds: a call looks at the registers once, and does its work or `waits`. `none` is a
-- panic.
use bare_metal_blasterball.Base.{
  ℕ, ◌+◌, ◌-◌, ◌%◌, ◌^◌, true, false, Option, some, ◌>>=◌, ◌>>◌, ◌==◌, ltb, assert, if◌then◌else◌,
  List, length, replicate, set, get_elem?,
}
use bare_metal_blasterball.Num.Words.{shr}
use bare_metal_blasterball.Sound.Registers.Rings.{
  RingBufferSize, entries_as_u16, choose_size, corb_write_pointer, set_corb_write_pointer,
  read_pointer, corb_dma_engine_enabled, rirb_dma_engine_enabled, enable_rirb_dma_engine,
  set_rirb_size, reset_write_pointer, rirb_write_pointer, set_response_interrupt_count,
}

-- One look at the registers
pub data Round {ℓ} (A : Type ℓ) : Type ℓ where
  waits : Round A
  ready : A → Round A

pub record CorbRegs : Type 0 where
  pub corb_lower_base_addr : ℕ
  pub corb_upper_base_addr : ℕ
  pub corbwp : ℕ
  pub corbrp : ℕ
  pub control : ℕ
  pub status : ℕ
  pub size : ℕ

unfoldable pub set_corb_addr : ℕ → CorbRegs → CorbRegs
set_corb_addr addr regs = record regs {
  corb_lower_base_addr = addr % 2 ^ 32;
  corb_upper_base_addr = shr addr 32 % 2 ^ 32;
}

pub record Corb : Type 0 where
  pub commands : List ℕ
  pub write_pointer : ℕ
  pub size : RingBufferSize
  pub regs : CorbRegs

unfoldable pub new_corb : CorbRegs → Option Corb
unfolding choose_size
new_corb regs = do
  size ← choose_size regs.size
  some (record { commands = replicate 256 0; write_pointer = 0; size = size; regs = regs })

-- The lines of `add_command` behind the wait
unfoldable pub place_command : ℕ → Corb → Option Corb
place_command command corb =
    let write_pointer = (corb.write_pointer + 1) % entries_as_u16 corb.size in
    do
      assert (ltb write_pointer (length corb.commands))
      corbwp ← set_corb_write_pointer (write_pointer % 2 ^ 8) corb.regs.corbwp
      some (record corb {
        commands = set corb.commands write_pointer command;
        write_pointer = write_pointer;
        regs = record corb.regs { corbwp = corbwp };
      })

unfoldable pub add_command : ℕ → Corb → Option (Round Corb)
unfolding place_command
add_command command corb = do
  enabled ← corb_dma_engine_enabled corb.regs.control
  assert enabled
  rp ← read_pointer corb.regs.corbrp
  if corb_write_pointer corb.regs.corbwp == rp
      then (do placed ← place_command command corb; some (ready placed))
      else some waits

pub record RirbRegs : Type 0 where
  pub rirb_lower_base_addr : ℕ
  pub rirb_upper_base_addr : ℕ
  pub rirbwp : ℕ
  pub response_interrupt_count : ℕ
  pub control : ℕ
  pub status : ℕ
  pub size : ℕ

unfoldable pub set_rirb_addr : ℕ → RirbRegs → RirbRegs
set_rirb_addr addr regs = record regs {
  rirb_lower_base_addr = addr % 2 ^ 32;
  rirb_upper_base_addr = shr addr 32 % 2 ^ 32;
}

pub record Rirb {ℓ} (T : Type ℓ) : Type ℓ where
  pub responses : List T
  pub read_pointer : ℕ
  pub size : RingBufferSize
  pub regs : RirbRegs

module _ {ℓ} {T : Type ℓ} where
  -- `HDANodeResponse::null()` is an argument.
  unfoldable pub new_rirb : T → RirbRegs → Option (Rirb T)
  unfolding choose_size
  new_rirb null regs = do
    size ← choose_size regs.size
    some (record { responses = replicate 256 null; read_pointer = 0; size = size; regs = regs })

  -- The lines of `read_next_response` behind the wait
  unfoldable pub take_response : Rirb T → Option (T × Rirb T)
  take_response rirb =
      let next_pointer = (rirb.read_pointer + 1) % entries_as_u16 rirb.size in
      do
        rirbwp ←
            if next_pointer == entries_as_u16 rirb.size - 1
            then reset_write_pointer rirb.regs.rirbwp
            else some rirb.regs.rirbwp
        response ← get_elem? rirb.responses next_pointer
        some (
          response,
          record rirb { read_pointer = next_pointer; regs = record rirb.regs { rirbwp = rirbwp } },
        )

  unfoldable pub read_next_response : Rirb T → Option (Round (T × Rirb T))
  unfolding take_response
  read_next_response rirb = do
    enabled ← rirb_dma_engine_enabled rirb.regs.control
    assert enabled
    if rirb_write_pointer rirb.regs.rirbwp == rirb.read_pointer % 2 ^ 8
        then some waits
        else (do taken ← take_response rirb; some (ready taken))

  -- `init`, where the responses stand at `addr`
  unfoldable pub init_rirb : ℕ → Rirb T → Option (Rirb T)
  unfolding set_rirb_addr
  init_rirb addr rirb = do
    enabled ← rirb_dma_engine_enabled rirb.regs.control
    stopped ←
        if enabled then enable_rirb_dma_engine false rirb.regs.control else some rirb.regs.control
    size ← set_rirb_size rirb.size rirb.regs.size
    rirbwp ← reset_write_pointer rirb.regs.rirbwp
    count ← set_response_interrupt_count 255 rirb.regs.response_interrupt_count
    started ← enable_rirb_dma_engine true stopped
    some (record rirb {
      regs = record (set_rirb_addr addr rirb.regs) {
        rirbwp = rirbwp;
        response_interrupt_count = count;
        control = started;
        size = size;
      };
    })
