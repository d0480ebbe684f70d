-- ===== src/Machine/Pic.antt =====
-- machine/src/pic8259.rs: what the driver of the two interrupt controllers writes to their ports, as the list
-- of the writes in order. A wait is a write to the wait port.
use bare_metal_blasterball.Base.{
  ℕ, ◌+◌, ◌<◌, ◌≤◌, ◌≡◌, ◌⊎◌, Bool, ◌&&◌, ltb, leb, if◌then◌else◌, List, [], ◌∷◌, arith,
}

pub record Write : Type 0 where
  pub port : ℕ
  pub value : ℕ

abbrev pub end_of_interrupt_command : ℕ
end_of_interrupt_command = 0x20

abbrev pub cmd_init : ℕ
cmd_init = 0x11

abbrev pub mode_8086 : ℕ
mode_8086 = 0x01

pub record Pic : Type 0 where
  pub offset : ℕ
  pub command : ℕ
  pub interrupt_mask : ℕ

pub record Pics : Type 0 where
  pub primary : Pic
  pub secondary : Pic

unfoldable pub new_pics : Pics
new_pics = record {
  primary = record { offset = 32; command = 0x20; interrupt_mask = 0x21 };
  secondary = record { offset = 32 + 8; command = 0xa0; interrupt_mask = 0xa1 };
}

unfoldable pub handles_interrupt : ℕ → Pic → Bool
handles_interrupt irq pic = leb pic.offset irq && ltb irq (pic.offset + 8)

abbrev pub write_to : ℕ → ℕ → Write
write_to port value = record { port = port; value = value }

unfoldable pub end_of_interrupt : ℕ → Pics → List Write
unfolding handles_interrupt
end_of_interrupt irq pics =
    if handles_interrupt irq pics.primary
    then write_to pics.primary.command end_of_interrupt_command ∷ []
    else if handles_interrupt irq pics.secondary
    then write_to pics.secondary.command end_of_interrupt_command
      ∷ write_to pics.primary.command end_of_interrupt_command
      ∷ []
    else []

unfoldable pub write_masks : ℕ → ℕ → Pics → List Write
write_masks primary_mask secondary_mask pics =
    write_to pics.primary.interrupt_mask primary_mask
    ∷ write_to pics.secondary.interrupt_mask secondary_mask
    ∷ []

-- `init`, with the number of the wait port
unfoldable pub init_pics : ℕ → Pics → List Write
unfolding write_masks
init_pics wait_port pics =
    let wait = write_to wait_port 0 in
    write_to pics.primary.command cmd_init
    ∷ wait
    ∷ write_to pics.secondary.command cmd_init
    ∷ wait
    ∷ write_to pics.primary.interrupt_mask pics.primary.offset
    ∷ wait
    ∷ write_to pics.secondary.interrupt_mask pics.secondary.offset
    ∷ wait
    ∷ write_to pics.primary.interrupt_mask 4
    ∷ wait
    ∷ write_to pics.secondary.interrupt_mask 2
    ∷ wait
    ∷ write_to pics.primary.interrupt_mask mode_8086
    ∷ wait
    ∷ write_to pics.secondary.interrupt_mask mode_8086
    ∷ wait
    ∷ write_masks 0b11111000 0b11110111 pics

-- Of the interrupts that the tables of the game have behind the exceptions, each below 40 is acknowledged
-- to the first controller alone, each from 40 on to the second and then to the first; below 32 and
-- from 48 on none is.
pub end_of_interrupt_lem :
    (irq : ℕ)
    → ((32 ≤ irq) × (irq < 40) × (end_of_interrupt irq new_pics ≡ write_to 0x20 0x20 ∷ []))
      ⊎ ((40 ≤ irq)
          × (irq < 48)
          × (end_of_interrupt irq new_pics ≡ write_to 0xa0 0x20 ∷ write_to 0x20 0x20 ∷ []))
      ⊎ (((irq < 32) ⊎ (48 ≤ irq)) × (end_of_interrupt irq new_pics ≡ []))
unfolding end_of_interrupt handles_interrupt new_pics
end_of_interrupt_lem irq = ground arith
