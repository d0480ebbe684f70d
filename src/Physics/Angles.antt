-- ===== src/Physics/Angles.antt =====
-- num/src/lib.rs: `sinf32` and `cosf32`, the steps of an object that moves at an angle. The floats that
-- they return are whole numbers. An angle is its value `as u64`. The last arm calls the function
-- again on the remainder by 360: `fuel` bounds that, and `none` is running out of it.
use bare_metal_blasterball.Base.{
  ℕ, zero, suc, ◌%◌, Option, none, some, List, [], ◌∷◌, if◌then◌else◌, in_range, ℤ, pos, negsuc,
}

abbrev pub sin_arms : List (ℕ × ℕ × ℤ)
sin_arms =
    (0, 0, pos 0)
    ∷ (1, 15, pos 1)
    ∷ (16, 30, pos 1)
    ∷ (31, 44, pos 1)
    ∷ (45, 45, pos 1)
    ∷ (46, 59, pos 2)
    ∷ (60, 60, pos 2)
    ∷ (61, 74, pos 2)
    ∷ (75, 89, pos 3)
    ∷ (90, 90, pos 1)
    ∷ (91, 105, pos 3)
    ∷ (106, 119, pos 2)
    ∷ (120, 120, pos 2)
    ∷ (121, 134, pos 2)
    ∷ (135, 135, pos 1)
    ∷ (136, 150, pos 1)
    ∷ (151, 165, pos 1)
    ∷ (166, 179, pos 1)
    ∷ (180, 180, pos 0)
    ∷ (181, 194, negsuc 0)
    ∷ (195, 209, negsuc 0)
    ∷ (210, 224, negsuc 0)
    ∷ (225, 225, negsuc 0)
    ∷ (226, 239, negsuc 0)
    ∷ (240, 254, negsuc 1)
    ∷ (255, 269, negsuc 2)
    ∷ (270, 270, negsuc 0)
    ∷ (271, 285, negsuc 2)
    ∷ (286, 300, negsuc 1)
    ∷ (301, 314, negsuc 1)
    ∷ (315, 315, negsuc 0)
    ∷ (316, 329, negsuc 0)
    ∷ (330, 344, negsuc 0)
    ∷ (345, 359, negsuc 0)
    ∷ (360, 360, pos 0)
    ∷ []

abbrev pub cos_arms : List (ℕ × ℕ × ℤ)
cos_arms =
    (0, 0, pos 1)
    ∷ (1, 15, pos 3)
    ∷ (16, 30, pos 2)
    ∷ (31, 44, pos 2)
    ∷ (45, 45, pos 1)
    ∷ (46, 60, pos 1)
    ∷ (61, 75, pos 1)
    ∷ (76, 89, pos 1)
    ∷ (90, 90, pos 0)
    ∷ (91, 105, negsuc 0)
    ∷ (106, 120, negsuc 0)
    ∷ (121, 135, negsuc 0)
    ∷ (136, 150, negsuc 1)
    ∷ (151, 164, negsuc 1)
    ∷ (165, 179, negsuc 2)
    ∷ (180, 180, negsuc 0)
    ∷ (181, 195, negsuc 2)
    ∷ (196, 210, negsuc 1)
    ∷ (211, 224, negsuc 1)
    ∷ (225, 225, negsuc 0)
    ∷ (226, 240, negsuc 0)
    ∷ (241, 255, negsuc 0)
    ∷ (256, 269, negsuc 0)
    ∷ (270, 270, pos 0)
    ∷ (271, 285, pos 1)
    ∷ (286, 300, pos 1)
    ∷ (301, 314, pos 1)
    ∷ (315, 315, pos 1)
    ∷ (316, 330, pos 2)
    ∷ (331, 344, pos 2)
    ∷ (345, 359, pos 3)
    ∷ (360, 360, pos 1)
    ∷ []

-- The first arm whose range holds the angle.
unfoldable pub match_angle : List (ℕ × ℕ × ℤ) → ℕ → Option ℤ
match_angle [] n = none
match_angle ((lo, hi, v) ∷ arms) n = if in_range lo hi n then some v else match_angle arms n

unfoldable pub sinf32 : ℕ → ℕ → Option ℤ
sinf32 zero n = none
sinf32 (suc fuel) n =
    let big_int = sinf32 fuel (n % 360) in
    elim (match_angle sin_arms n) [ some v ↦ some v | none ↦ big_int ]

unfoldable pub cosf32 : ℕ → ℕ → Option ℤ
cosf32 zero n = none
cosf32 (suc fuel) n =
    let big_int = cosf32 fuel (n % 360) in
    elim (match_angle cos_arms n) [ some v ↦ some v | none ↦ big_int ]
