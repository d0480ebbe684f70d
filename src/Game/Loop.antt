-- ===== src/Game/Loop.antt =====
-- blasterball/src/lib.rs: the handlers that `main_loop` hooks, of key events and of timer ticks. Each
-- returns the state that it leaves and what it drew, wrote and played, in order. `none` is a panic.
use bare_metal_blasterball.Base.{
  ℕ, Bool, true, false, not, ◌&&◌, Option, none, some, ◌>>=◌, ◌==◌, if◌then◌else◌, pos, negsuc,
  List, [], ◌∷◌, ◌++◌, length,
}
use bare_metal_blasterball.Keyboard.Codes.{KeyCode}
use bare_metal_blasterball.Keyboard.Decoder.{KeyDirection}
use bare_metal_blasterball.Physics.Velocity.{Velocity, reflect_about_x_axis, reflect_about_y_axis}
use bare_metal_blasterball.Physics.Object.{Point, add_point, update_pos}
use bare_metal_blasterball.Game.Defs.{
  Character, Game, Output, press_enter, draw_game, paused_message, shut_down_message, you_win,
  game_over, erase_block, move_ball, move_paddle, play_drum, play_music, x_scale, y_scale, RtcTime,
  generate_direction,
}
use bare_metal_blasterball.Game.Collisions.{
  ball_collided_with_left_wall, ball_collided_with_right_wall, ball_collided_with_ceiling,
  ball_is_off_screen, paddle_collided_with_left_wall, paddle_collided_with_right_wall,
  collided_with, ball_passed_through_paddle,
}

pub data PaddleDirection : Type 0 where
  left : PaddleDirection
  right : PaddleDirection

abbrev pub paddle_diff : PaddleDirection → Point
paddle_diff left = record { x = negsuc 9; y = pos 0 }
paddle_diff right = record { x = pos 10; y = pos 0 }

unfoldable pub move_paddle_in_double_buffer : PaddleDirection → Game → Option (Game × List Output)
move_paddle_in_double_buffer d g = do
  position ← add_point g.paddle_char.object.position (paddle_diff d)
  some (
    record g {
      paddle_char = record g.paddle_char {
        object = record g.paddle_char.object { position = position };
      };
    },
    move_paddle g.paddle_char.object.position position ∷ [],
  )

unfoldable pub start_game : RtcTime → Game → Game × List Output
start_game now g = (
  record g {
    ball_char = record g.ball_char {
      object = record g.ball_char.object {
        velocity = record { direction = generate_direction now; speed = 5 };
      };
    };
    has_started = true;
  },
  play_drum ∷ [],
)

unfoldable pub is_at_wall : PaddleDirection → Character → Option Bool
is_at_wall right paddle_char = paddle_collided_with_right_wall paddle_char
is_at_wall left paddle_char = some (paddle_collided_with_left_wall paddle_char)

unfoldable pub on_arrow : PaddleDirection → Game → Option (Game × List Output)
unfolding move_paddle_in_double_buffer is_at_wall
on_arrow d g = if not g.has_started then some (g, []) else (do
  at_wall ← is_at_wall d g.paddle_char
  if at_wall then some (g, []) else move_paddle_in_double_buffer d g)

unfoldable pub on_enter : RtcTime → Game → Game × List Output
unfolding start_game
on_enter now g =
    if not g.has_started
    then start_game now g
    else if g.paused
    then (record g { paused = false; paused_msg_has_been_drawn = false }, play_drum ∷ [])
    else (g, [])

unfoldable pub on_escape : Game → Game × List Output
on_escape g = if g.has_started then (record g { paused = true }, play_music ∷ []) else (g, [])

-- The handler of key events; `now` is what the CMOS returns, if it is asked.
unfoldable pub on_key : RtcTime → KeyCode → KeyDirection → Game → Option (Game × List Output)
unfolding on_arrow on_enter on_escape
on_key now KeyCode.arrow_right KeyDirection.down g = on_arrow right g
on_key now KeyCode.arrow_left KeyDirection.down g = on_arrow left g
on_key now KeyCode.enter KeyDirection.down g = some (on_enter now g)
on_key now KeyCode.escape KeyDirection.down g = some (on_escape g)
on_key now code direction g = some (g, [])

-- A reflection of the ball
unfoldable pub reflect_ball : (Velocity → Option Velocity) → Character → Option Character
reflect_ball reflect c = do
  velocity ← reflect c.object.velocity
  some (record c { object = record c.object { velocity = velocity } })

-- The chain of tests for walls, paddle and bottom: the ball, or none where the game is over.
unfoldable pub bounce : Game → Option (Option Character)
unfolding reflect_ball
bounce g =
    if ball_collided_with_left_wall g.ball_char
    then (do ball ← reflect_ball reflect_about_y_axis g.ball_char; some (some ball))
    else (do
      right_wall ← ball_collided_with_right_wall g.ball_char
      if right_wall
          then (do ball ← reflect_ball reflect_about_y_axis g.ball_char; some (some ball))
          else if ball_collided_with_ceiling g.ball_char
          then (do ball ← reflect_ball reflect_about_x_axis g.ball_char; some (some ball))
          else (do
            (collided, from) ← collided_with g.ball_char g.paddle_char
            if collided
                then (do ball ← reflect_ball reflect_about_x_axis g.ball_char; some (some ball))
                else if ball_is_off_screen g.ball_char
                then some none
                else some (some g.ball_char)))

-- The loop over the blocks: the ball, the blocks that are left, and what was drawn.
unfoldable pub hit_block :
    Character → List Character → Option (Character × List Character × List Output)
unfolding reflect_ball
hit_block ball [] = some (ball, [], [])
hit_block ball (block ∷ blocks) = do
  (collided, from) ← collided_with ball block
  let rest = hit_block ball blocks in
      if collided
      then (do
        ball' ← reflect_ball reflect_about_x_axis ball
        some (ball', blocks, erase_block block ∷ []))
      else (do (ball', blocks', out) ← rest; some (ball', block ∷ blocks', out))

-- The lines from the move of the ball on.
unfoldable pub advance : ℕ → Character → Character → Option (Character × List Output)
advance fuel ball paddle = do
  (old_pos, object) ← update_pos fuel ball.object 1 x_scale y_scale
  (passed, point) ←
      ball_passed_through_paddle fuel old_pos object.position object.velocity.direction paddle
  position ← if passed then point else some object.position
  some (
    record ball { object = record object { position = position } },
    move_ball old_pos position ∷ draw_game ∷ [],
  )

-- The lines of a tick behind the chain of tests
unfoldable pub after_bounce : ℕ → Game → Option Character → Option (Game × List Output)
unfolding hit_block advance
after_bounce fuel g none = some (record g { ended = true }, game_over ∷ [])
after_bounce fuel g (some ball) = do
  (hit, blocks, out) ← hit_block ball g.blocks
  (moved, out') ← advance fuel hit g.paddle_char
  some (record g { ball_char = moved; blocks = blocks }, out ++ out')

-- The lines of a tick while the game runs.
unfoldable pub play : ℕ → Game → Option (Game × List Output)
unfolding bounce after_bounce
play fuel g = do bounced ← bounce g; after_bounce fuel g bounced

-- The handler of timer ticks
unfoldable pub on_tick : ℕ → Game → Option (Game × List Output)
unfolding play
on_tick fuel g =
    if not g.has_started && not g.paused
    then some (g, press_enter ∷ [])
    else if g.paused
    then (if g.shutdown_attempted
        then some (g, shut_down_message ∷ [])
        else if not g.paused_msg_has_been_drawn
        then some (record g { paused_msg_has_been_drawn = true }, draw_game ∷ paused_message ∷ [])
        else some (g, []))
    else if length g.blocks == 0
    then some (record g { ended = true }, you_win ∷ [])
    else play fuel g
