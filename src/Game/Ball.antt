-- ===== src/Game/Ball.antt =====
-- blasterball/src/lib.rs: the ball stays aimed.
use bare_metal_blasterball.Base.{
  ℕ, ◌≡◌, Option, some, ◌>>=◌, if◌then◌else◌, List, [], ◌∷◌, refl, sym, subst, Returns,
  Returns-bind, Returns-then, Returns-if,
}
use bare_metal_blasterball.Physics.Velocity.{
  Velocity, horizontal_component, vertical_component, mul_i16, as_i16, reflect_about_x_axis,
  reflect_about_y_axis,
}
use bare_metal_blasterball.Physics.Object.{Point, Object, update_pos, add_point}
use bare_metal_blasterball.Game.Defs.{Character, Game, Output}
use bare_metal_blasterball.Game.Collisions.{
  ball_collided_with_left_wall, ball_collided_with_right_wall, ball_collided_with_ceiling,
  ball_is_off_screen, collided_with, ball_passed_through_paddle,
}
use bare_metal_blasterball.Game.Loop.{reflect_ball, bounce, hit_block, advance}
use bare_metal_blasterball.Game.Direction.{
  IsAimed, reflect_about_x_axis-IsAimed, reflect_about_y_axis-IsAimed,
}

abbrev pub Aimed : Character → Type 0
Aimed c = IsAimed c.object.velocity.direction

reflect_ball-Aimed :
    (reflect : Velocity → Option Velocity) (c : Character)
    → ((v : Velocity)
        → IsAimed v.direction
        → (u : Velocity) × (reflect v ≡ some u) × IsAimed u.direction)
    → Aimed c
    → Returns Aimed (reflect_ball reflect c)
unfolding reflect_ball
reflect_ball-Aimed reflect c keeps a = let (u, f, b) = keeps c.object.velocity a in rw f b

abbrev pub FirstAimed : Character × List Character × List Output → Type 0
FirstAimed (c, blocks, out) = Aimed c

pub hit_block-Aimed :
    (ball : Character) (blocks : List Character)
    → Aimed ball
    → Returns FirstAimed (hit_block ball blocks)
unfolding hit_block
hit_block-Aimed ball [] a = a
hit_block-Aimed ball (block ∷ blocks) a =
    Returns-then FirstAimed (collided_with ball block) _ (λ (collided, from).
      Returns-if FirstAimed collided _ _
        (Returns-bind Aimed FirstAimed (reflect_ball reflect_about_x_axis ball) _
          (reflect_ball-Aimed reflect_about_x_axis ball reflect_about_x_axis-IsAimed a) (λ c b. b))
        (Returns-bind FirstAimed FirstAimed (hit_block ball blocks) _
          (hit_block-Aimed ball blocks a) (λ (c, rest, out) b. b)))

pub bounce-Aimed : (g : Game) → Aimed g.ball_char → Returns (Returns Aimed) (bounce g)
unfolding bounce
bounce-Aimed g a =
    Returns-if (Returns Aimed) (ball_collided_with_left_wall g.ball_char) _ _
      (turned reflect_about_y_axis reflect_about_y_axis-IsAimed)
      (Returns-then (Returns Aimed) (ball_collided_with_right_wall g.ball_char) _ (λ right_wall.
        Returns-if (Returns Aimed) right_wall _ _
          (turned reflect_about_y_axis reflect_about_y_axis-IsAimed)
          (Returns-if (Returns Aimed) (ball_collided_with_ceiling g.ball_char) _ _
            (turned reflect_about_x_axis reflect_about_x_axis-IsAimed)
            (Returns-then (Returns Aimed) (collided_with g.ball_char g.paddle_char) _
              (λ (collided, from).
                Returns-if (Returns Aimed) collided _ _
                  (turned reflect_about_x_axis reflect_about_x_axis-IsAimed)
                  (Returns-if (Returns Aimed) (ball_is_off_screen g.ball_char) _ _ tt a))))))
  where
    turned :
        (reflect : Velocity → Option Velocity)
        → ((v : Velocity)
            → IsAimed v.direction
            → (u : Velocity) × (reflect v ≡ some u) × IsAimed u.direction)
        → Returns (Returns Aimed) (reflect_ball reflect g.ball_char >>= λ ball. some (some ball))
    turned reflect keeps =
        Returns-bind Aimed (Returns Aimed) (reflect_ball reflect g.ball_char) _
          (reflect_ball-Aimed reflect g.ball_char keeps a) (λ c b. b)

abbrev SameVelocity : Object → Point × Object → Type 0
SameVelocity o (old_pos, object) = object.velocity ≡ o.velocity

update_pos-SameVelocity :
    (fuel : ℕ) (o : Object) (time x y : ℕ) → Returns (SameVelocity o) (update_pos fuel o time x y)
unfolding update_pos
update_pos-SameVelocity fuel o time x y = any (horizontal_component fuel o.velocity) _ (λ h.
    any (mul_i16 h (as_i16 time)) _ (λ dx. any (vertical_component fuel o.velocity) _ (λ v.
      any (mul_i16 v (as_i16 time)) _ (λ dy. any (mul_i16 dx (as_i16 x)) _ (λ step_x.
        any (mul_i16 dy (as_i16 y)) _ (λ step_y.
          any (add_point o.position (record { x = step_x; y = step_y })) _ (λ position. refl)))))))
  where
    any :
        {A : Type 0} (m : Option A) (k : A → Option (Point × Object))
        → ((a : A) → Returns (SameVelocity o) (k a))
        → Returns (SameVelocity o) (m >>= k)
    any m k f = Returns-then (SameVelocity o) m k f

abbrev pub BallAimed : Character × List Output → Type 0
BallAimed (c, out) = Aimed c

pub advance-Aimed :
    (fuel : ℕ) (ball paddle : Character) → Aimed ball → Returns BallAimed (advance fuel ball paddle)
unfolding advance
advance-Aimed fuel ball paddle a =
    Returns-bind (SameVelocity ball.object) BallAimed (update_pos fuel ball.object 1 _ _) _
      (update_pos-SameVelocity fuel ball.object 1 _ _)
      (λ (old_pos, object) same.
        Returns-then BallAimed (ball_passed_through_paddle fuel old_pos object.position _ paddle) _
          (λ (passed, point).
            Returns-then BallAimed (if passed then point else some object.position) _
              (λ position. subst (λ v. IsAimed v.direction) (sym same) a)))
