-- ===== src/Game/Tests.antt =====
-- blasterball/src/lib.rs: the theorems at a small game, and runs of its handlers.
use bare_metal_blasterball.Base.{
  Bool, Option, zero, suc, get_elem?, ℕ, ◌-◌, ◌<◌, ◌≤◌, ◌≡◌, refl, true, false, some, arith, List,
  [], ◌∷◌, ◌>>=◌, ℤ, pos, dec_le,
}
use bare_metal_blasterball.Keyboard.Codes.{KeyCode}
use bare_metal_blasterball.Keyboard.Decoder.{KeyDirection}
use bare_metal_blasterball.Physics.Angles.{sinf32, cosf32, match_angle}
use bare_metal_blasterball.Physics.Velocity.{
  reflect_about_x_axis, reflect_about_y_axis, horizontal_component, vertical_component,
}
use bare_metal_blasterball.Physics.Object.{Point, update_pos, add_point}
use bare_metal_blasterball.Game.Defs.{
  Character, Game, Output, RtcTime, generate_direction, sum_of_fields, play_drum, play_music,
  div_i16,
}
use bare_metal_blasterball.Game.Collisions.{
  collided_from, ball_collided_with_left_wall, ball_collided_with_right_wall,
  ball_collided_with_ceiling, ball_is_off_screen, collided_with, overlaps_char,
  ball_passed_through_paddle, crossing,
}
use bare_metal_blasterball.Game.Loop.{
  on_key, on_tick, on_enter, start_game, play, bounce, hit_block, advance, after_bounce,
  reflect_ball,
}
use bare_metal_blasterball.Game.Direction.{IsAimed}
use bare_metal_blasterball.Game.Invariant.{here, key, IsGame, Reach-IsGame}
use bare_metal_blasterball.Game.Blocks.{IsPlaced, ArePlaced, IsHit, hit_block_lem}
use bare_metal_blasterball.Game.Keys.{ticks, paused_drawings, pause_resume}
use bare_metal_blasterball.Game.Layout.{Bitmap, generate_blocks}
use bare_metal_blasterball.Game.Paddle.{ball_passed_lem}
use bare_metal_blasterball.Game.Grid.{IsLadder, places, grid, AreBitmaps, generate_blocks_lem}

abbrev character : ℤ → ℤ → ℕ → ℕ → Character
character x y width height = record {
  object = record {
    position = record { x = x; y = y };
    velocity = record { direction = 0; speed = 0 };
  };
  width = width;
  height = height;
}

abbrev block : Character
block = character (pos 300) (pos 400) 60 20

abbrev fresh : Game
fresh = record {
  ball_char = character (pos 312) (pos 404) 16 16;
  paddle_char = character (pos 280) (pos 420) 80 20;
  has_started = false;
  paused = false;
  shutdown_attempted = false;
  paused_msg_has_been_drawn = false;
  blocks = block ∷ [];
  ended = false;
}

-- Half past ten: the sum is 101.
abbrev morning : RtcTime
morning = record {
  year = 22;
  month = 7;
  day_of_month = 25;
  weekday = 2;
  hours = 10;
  minutes = 30;
  seconds = 5;
}

abbrev started : Game
started = (start_game morning fresh).0

starts : on_key morning KeyCode.enter KeyDirection.down fresh ≡ some (started, play_drum ∷ [])
unfolding on_key on_enter start_game
starts = refl

Reach-IsGame_example : IsGame started
Reach-IsGame_example =
    Reach-IsGame refl refl
      (key morning KeyCode.enter KeyDirection.down (play_drum ∷ []) here starts)

aimed : IsAimed 281
aimed = record { some_turn = omega arith; one_turn = omega arith; not_left = λ e. omega (arith, e) }

-- The first tick: the ball hits the block, and turns about.
one_tick_blocks : (on_tick 2 started >>= λ (g, out). some g.blocks) ≡ some []
unfolding on_tick play bounce hit_block advance after_bounce reflect_ball reflect_about_x_axis
    reflect_about_y_axis collided_with overlaps_char collided_from ball_passed_through_paddle
    crossing update_pos add_point horizontal_component vertical_component sinf32 cosf32 match_angle
    div_i16 dec_le start_game generate_direction sum_of_fields ball_collided_with_left_wall
    ball_collided_with_right_wall ball_collided_with_ceiling ball_is_off_screen
one_tick_blocks = refl

placed : IsPlaced block
unfolding dec_le
placed = record { low = pos 420; right = pos 360; has_low = refl; has_right = refl }

abbrev moving : Character
moving = record (character (pos 312) (pos 404) 16 16) {
  object = record {
    position = record { x = pos 312; y = pos 404 };
    velocity = record { direction = 281; speed = 5 };
  };
}

hit_block_lem_example :
    (r : Character × List Character × List Output) × (hit_block moving (block ∷ []) ≡ some r)
    × IsHit moving (block ∷ []) r
hit_block_lem_example = hit_block_lem moving (block ∷ []) aimed (placed, tt)

abbrev running : Game
running = record fresh { has_started = true }

pause_resume_example :
    (p q : Game) × (on_key morning KeyCode.escape KeyDirection.down running
      ≡ some (p, play_music ∷ []))
    × (ticks 2 3 p ≡ some (q, paused_drawings 3))
    × (on_key morning KeyCode.enter KeyDirection.down q ≡ some (running, play_drum ∷ []))
pause_resume_example = pause_resume 2 3 morning morning running refl refl refl refl

-- A bitmap of a block
abbrev block_bmp : Bitmap
block_bmp = record { width = 29; scaled_width = 58; scaled_height = 22 }

abbrev block_bmps : List Bitmap
block_bmps = block_bmp ∷ block_bmp ∷ block_bmp ∷ block_bmp ∷ block_bmp ∷ []

block_bmps-AreBitmaps : AreBitmaps block_bmps
block_bmps-AreBitmaps = record { five = refl; small = found }
  where
    found :
        (i : ℕ)
        → i < 5
        → (bmp : Bitmap) × (get_elem? block_bmps i ≡ some bmp)
          × (bmp.scaled_width ≤ 640)
          × (bmp.scaled_height ≤ 480)
    found zero l = (block_bmp, refl, omega arith, omega arith)
    found (suc zero) l = (block_bmp, refl, omega arith, omega arith)
    found (suc (suc zero)) l = (block_bmp, refl, omega arith, omega arith)
    found (suc (suc (suc zero))) l = (block_bmp, refl, omega arith, omega arith)
    found (suc (suc (suc (suc zero)))) l = (block_bmp, refl, omega arith, omega arith)
    found (suc (suc (suc (suc (suc i))))) l = absurd (omega arith)

generate_blocks_lem_example :
    (blocks : List Character) × (xs ys : List ℕ) × (generate_blocks (λ n. true) (some block_bmps)
      ≡ some blocks)
    × IsLadder 15 58 (640 - 15 - 58) xs
    × IsLadder 10 22 120 ys
    × (places blocks ≡ grid xs ys)
    × ArePlaced blocks
generate_blocks_lem_example =
    generate_blocks_lem block_bmp block_bmps (λ n. true) block_bmps-AreBitmaps refl (omega arith)
      (omega arith) (omega arith) (λ n. refl)

abbrev paddle : Character
paddle = character (pos 288) (pos 440) 64 12

ball_passed_lem_example :
    (r : Bool × Option Point) × (ball_passed_through_paddle 2
        (record { x = pos 300; y = pos 430 })
        (record { x = pos 302; y = pos 442 })
        101
        paddle
      ≡ some r)
ball_passed_lem_example =
    ball_passed_lem (record { x = pos 300; y = pos 430 }) (record { x = pos 302; y = pos 442 }) 101
      paddle (record { near_x = omega arith; near_y = omega arith })
      (record { near_x = omega arith; near_y = omega arith }) (omega arith)
      (record { some_turn = omega arith; one_turn = omega arith; not_left = λ e. omega (arith, e) })
