-- ===== src/Game/Collisions.antt =====
-- blasterball/src/lib.rs: the tests for collisions. `none` is a panic.
use bare_metal_blasterball.Base.{
  ℕ, ◌+◌, Bool, false, not, Option, none, some, ◌>>=◌, if◌then◌else◌, pos, in_range,
}
use bare_metal_blasterball.Physics.Angles.{sinf32, cosf32}
use bare_metal_blasterball.Physics.Velocity.{as_i16, mul_i16}
use bare_metal_blasterball.Physics.Object.{Point}
use bare_metal_blasterball.Game.Defs.{
  Character, screen_width, screen_height, lez, and_then, add_i16, sub_i16, div_i16, x_of, y_of,
}

unfoldable pub ball_collided_with_left_wall : Character → Bool
ball_collided_with_left_wall ball_char = lez (x_of ball_char) (pos 0)

unfoldable pub ball_collided_with_right_wall : Character → Option Bool
ball_collided_with_right_wall ball_char = do
  wall ← sub_i16 (as_i16 screen_width) (as_i16 ball_char.width)
  some (lez wall (x_of ball_char))

unfoldable pub ball_collided_with_ceiling : Character → Bool
ball_collided_with_ceiling ball_char = lez (y_of ball_char) (pos 5)

unfoldable pub ball_is_off_screen : Character → Bool
ball_is_off_screen ball_char = lez (as_i16 screen_height) (y_of ball_char)

unfoldable pub paddle_collided_with_right_wall : Character → Option Bool
paddle_collided_with_right_wall paddle_char = do
  right ← add_i16 (x_of paddle_char) (as_i16 paddle_char.width)
  some (lez (pos 632) right)

unfoldable pub paddle_collided_with_left_wall : Character → Bool
paddle_collided_with_left_wall paddle_char = lez (x_of paddle_char) (pos 5)

pub data CollidedFrom : Type 0 where
  top : CollidedFrom
  bottom : CollidedFrom

unfoldable pub collided_from : ℕ → Option CollidedFrom
collided_from direction =
    if in_range 0 180 direction
    then some bottom
    else if in_range 181 360 direction
    then some top
    else none

unfoldable pub overlaps_char : Character → Character → Option Bool
overlaps_char c other_char = and_then (lez (y_of other_char) (y_of c)) (do
  low ← add_i16 (y_of other_char) (as_i16 other_char.height)
  and_then (lez (y_of c) low) (
      and_then (lez (x_of other_char) (x_of c)) (do
        right ← add_i16 (x_of other_char) (as_i16 other_char.width)
        some (lez (x_of c) right))))

unfoldable pub collided_with : Character → Character → Option (Bool × CollidedFrom)
unfolding overlaps_char collided_from
collided_with c other_char = do
  collided ← overlaps_char c other_char
  from ← collided_from c.object.velocity.direction
  some (collided, from)

-- The lines below the first test of `ball_passed_through_paddle`.
unfoldable pub crossing : ℕ → Point → ℕ → Character → Option (Bool × Point)
unfolding div_i16
crossing fuel old_pos direction paddle_char = do
  y_distance ← sub_i16 (y_of paddle_char) old_pos.y
  cos ← cosf32 fuel (180 + direction)
  product ← mul_i16 y_distance cos
  sin ← sinf32 fuel (180 + direction)
  x_distance ← div_i16 product sin
  x ← sub_i16 old_pos.x x_distance
  inside ← and_then (lez (x_of paddle_char) x) (do
    right ← add_i16 (x_of paddle_char) (as_i16 paddle_char.width)
    last ← sub_i16 right (pos 1)
    some (lez x last))
  some (inside, record { x = x; y = y_of paddle_char })

unfoldable pub ball_passed_through_paddle :
    ℕ → Point → Point → ℕ → Character → Option (Bool × Option Point)
unfolding crossing
ball_passed_through_paddle fuel old_pos new_pos direction paddle_char =
    if not (lez (y_of paddle_char) new_pos.y) then some (false, none) else (do
      (inside, point) ← crossing fuel old_pos direction paddle_char
      some (inside, some point))
