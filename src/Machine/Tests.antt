-- ===== src/Machine/Tests.antt =====
-- machine/src/pic8259.rs: the theorem at the interrupt of the sound device.
use bare_metal_blasterball.Base.{◌<◌, ◌≤◌, ◌≡◌, ◌⊎◌, [], ◌∷◌}
use bare_metal_blasterball.Machine.Pic.{new_pics, end_of_interrupt, write_to, end_of_interrupt_lem}

end_of_interrupt_lem_example :
    ((32 ≤ 43) × (43 < 40) × (end_of_interrupt 43 new_pics ≡ write_to 0x20 0x20 ∷ []))
    ⊎ ((40 ≤ 43)
        × (43 < 48)
        × (end_of_interrupt 43 new_pics ≡ write_to 0xa0 0x20 ∷ write_to 0x20 0x20 ∷ []))
    ⊎ (((43 < 32) ⊎ (48 ≤ 43)) × (end_of_interrupt 43 new_pics ≡ []))
end_of_interrupt_lem_example = end_of_interrupt_lem 43
