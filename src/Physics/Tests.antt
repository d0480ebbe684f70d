-- ===== src/Physics/Tests.antt =====
-- physics/src/lib.rs and num/src/lib.rs: the theorems at concrete velocities and angles.
use bare_metal_blasterball.Base.{◌≤◌, ◌≡◌, ◌-◌, ◌⊎◌, true, refl, some, arith, ℤ, negsuc, neg}
use bare_metal_blasterball.Physics.Angles.{sinf32, match_angle}
use bare_metal_blasterball.Physics.Tables.{is_askew}
use bare_metal_blasterball.Physics.Velocity.{
  Velocity, horizontal_component, vertical_component, reflect_about_y_axis, reflect_about_x_axis,
  reflect_about_y_axis_lem, reflect_about_x_axis_lem,
}

abbrev slow : Velocity
slow = record { direction = 30; speed = 5 }

reflect_about_y_axis_lem_example :
    (v' : Velocity) × (c : ℤ) × (reflect_about_y_axis slow ≡ some v')
    × (v'.direction ≤ 360)
    × (v'.speed ≡ slow.speed)
    × (horizontal_component 1 slow ≡ some c)
    × (horizontal_component 1 v' ≡ some (neg c))
reflect_about_y_axis_lem_example = reflect_about_y_axis_lem slow 0 (omega arith) (omega arith)

reflect_about_x_axis_lem_example :
    (v' : Velocity) × (reflect_about_x_axis slow ≡ some v')
    × (v'.direction ≡ 360 - 30)
    × (v'.speed ≡ 5)
    × (reflect_about_x_axis v' ≡ some slow)
    × (horizontal_component 1 v' ≡ horizontal_component 1 slow)
    × ((is_askew 30 ≡ true)
        ⊎ ((c : ℤ) × (vertical_component 1 slow ≡ some c)
            × (vertical_component 1 v' ≡ some (neg c))))
reflect_about_x_axis_lem_example = reflect_about_x_axis_lem slow 0 (omega arith) (omega arith)

-- The last line of `test_cast`
sinf32_645 : sinf32 2 645 ≡ some (negsuc 2)
unfolding sinf32 match_angle
sinf32_645 = refl
