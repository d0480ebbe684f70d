-- ===== src/Game/Direction.antt =====
-- blasterball/src/lib.rs: the directions that the ball takes.
use bare_metal_blasterball.Base.{
  ℕ, ◌+◌, ◌-◌, ◌%◌, ◌<◌, ◌≤◌, ◌≡◌, ◌≢◌, Bool, true, false, not, Option, none, some, ◌==◌,
  if◌then◌else◌, ℤ, pos, negsuc, arith, refl, ap, ◌∙◌, all_below, all_below_sound, ==_false,
  leb-true, leb-false, dec_le,
}
use bare_metal_blasterball.Physics.Angles.{sinf32, match_angle}
use bare_metal_blasterball.Physics.Velocity.{Velocity, reflect_about_x_axis, reflect_about_y_axis}
use bare_metal_blasterball.Game.Defs.{RtcTime, sum_of_fields, generate_direction}
use bare_metal_blasterball.Game.Collisions.{CollidedFrom, top, bottom, collided_from}

-- A direction that is neither to the left nor to the right, of one turn.
pub record IsAimed (direction : ℕ) : Type 0 where
  pub some_turn : 0 < direction
  pub one_turn : direction < 360
  pub not_left : direction ≢ 180

-- The first direction points up and to neither side: it lies between 181 and 359 degrees, and is not
-- 270, whatever the time.
pub generate_direction_lem :
    (time : RtcTime)
    → (181 ≤ generate_direction time)
      × (generate_direction time < 360)
      × (generate_direction time ≢ 270)
unfolding generate_direction sum_of_fields
generate_direction_lem time = cases (sum_of_fields time % 180 + 180) (omega arith) (omega arith)
  where
    turned : ℕ → ℕ
    turned d = if d == 180 then d + 10 else if d == 270 then d + 10 else d

    cases : (d : ℕ) → 180 ≤ d → d < 360 → (181 ≤ turned d) × (turned d < 360) × (turned d ≢ 270)
    cases d p q = ground arith

pub generate_direction-IsAimed : (time : RtcTime) → IsAimed (generate_direction time)
generate_direction-IsAimed time =
    let (a, b, c) = generate_direction_lem time in
    record { some_turn = omega arith; one_turn = b; not_left = λ e. omega (arith, a, e) }

pub reflect_about_y_axis-IsAimed :
    (v : Velocity)
    → IsAimed v.direction
    → (u : Velocity) × (reflect_about_y_axis v ≡ some u) × IsAimed u.direction
unfolding reflect_about_y_axis
reflect_about_y_axis-IsAimed v a = elim (dec_le v.direction 180) [
  | yes h ↦ (
    record v { direction = 180 - v.direction },
    rw (leb-true v.direction 180 h),
    record {
      some_turn = omega (arith, a.not_left);
      one_turn = omega arith;
      not_left = λ e. omega (arith, e, a.some_turn);
    },
  )
  | no h ↦ (
    record v { direction = 540 - v.direction },
    rw (
      leb-false v.direction 180 (omega arith),
      leb-true v.direction 360 (omega (arith, a.one_turn)),
    ),
    record {
      some_turn = omega (arith, a.one_turn);
      one_turn = omega arith;
      not_left = λ e. omega (arith, e, a.one_turn);
    },
  )
]

pub reflect_about_x_axis-IsAimed :
    (v : Velocity)
    → IsAimed v.direction
    → (u : Velocity) × (reflect_about_x_axis v ≡ some u) × IsAimed u.direction
unfolding reflect_about_x_axis
reflect_about_x_axis-IsAimed v a = (
  record v { direction = 360 - v.direction },
  rw (leb-true v.direction 360 (omega (arith, a.one_turn))),
  record {
    some_turn = omega (arith, a.one_turn);
    one_turn = omega (arith, a.some_turn);
    not_left = λ e. a.not_left (omega (arith, e, a.one_turn));
  },
)

-- What a direction that is aimed is used for
abbrev is_some_nonzero : Option ℤ → Bool
is_some_nonzero none = false
is_some_nonzero (some (pos n)) = not (n == 0)
is_some_nonzero (some (negsuc n)) = true

abbrev aimed_test : ℕ → Bool
aimed_test d =
    if d == 0 then true else if d == 180 then true else is_some_nonzero (sinf32 2 (180 + d))

aimed_table : all_below 360 aimed_test ≡ true
unfolding sinf32 match_angle
aimed_table = refl

nonzero_sin : (o : Option ℤ) → is_some_nonzero o ≡ true → (s : ℤ) × (o ≡ some s) × (s ≢ pos 0)
nonzero_sin none h = absurd cc
nonzero_sin (some (pos n)) h =
    (pos n, refl, λ e. let f = ap (λ s. is_some_nonzero (some s)) e in absurd cc)
nonzero_sin (some (negsuc n)) h = (negsuc n, refl, λ e. let f = ap sign e in absurd cc)
  where
    sign : ℤ → Bool
    sign (pos n) = true
    sign (negsuc n) = false

-- For a direction that is aimed, `collided_with` does not reach its `unreachable!`, and the divisor that
-- `ball_passed_through_paddle` uses is there and is not 0.
pub aimed_safe :
    (direction : ℕ)
    → IsAimed direction
    → ((from : CollidedFrom) × (collided_from direction ≡ some from))
      × ((s : ℤ) × (sinf32 2 (180 + direction) ≡ some s) × (s ≢ pos 0))
unfolding collided_from
aimed_safe direction a = (
  elim (dec_le direction 180) [
    | yes h ↦ (bottom, rw (leb-true 0 direction (omega arith), leb-true direction 180 h))
    | no h ↦ (
      top,
      rw (
        leb-true 0 direction (omega arith),
        leb-false direction 180 (omega arith),
        leb-true 181 direction (omega arith),
        leb-true direction 360 (omega (arith, a.one_turn)),
      ),
    )
  ],
  nonzero_sin (sinf32 2 (180 + direction))
      (tested ∙ all_below_sound 360 aimed_test direction aimed_table a.one_turn),
)
  where
    tested : is_some_nonzero (sinf32 2 (180 + direction)) ≡ aimed_test direction
    tested = rw (
      ==_false direction 0 (λ e. omega (arith, e, a.some_turn)),
      ==_false direction 180 a.not_left,
    )
