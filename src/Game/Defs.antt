-- ===== src/Game/Defs.antt =====
-- blasterball/src/lib.rs: the state of the game, and what its handlers compare. The screen is the one of
-- the default build, of 640 by 480 pixels (artist/src/lib.rs). `none` is a panic.
use bare_metal_blasterball.Base.{
  ℕ, zero, suc, ◌+◌, ◌/◌, ◌%◌, Bool, true, false, leb, Option, none, some, ◌>>=◌, ◌==◌,
  if◌then◌else◌, ℤ, pos, negsuc, neg, ◌+ℤ◌, List,
}
use bare_metal_blasterball.Physics.Velocity.{check_i16}
use bare_metal_blasterball.Physics.Object.{Point, Object}

abbrev pub screen_width : ℕ
screen_width = 640

abbrev pub screen_height : ℕ
screen_height = 480

abbrev pub x_scale : ℕ
x_scale = screen_width / 320

abbrev pub y_scale : ℕ
y_scale = screen_height / 200

-- A character, with the size of its scaled bitmap.
pub record Character : Type 0 where
  pub object : Object
  pub width : ℕ
  pub height : ℕ

-- What the handlers draw, write and play.
pub data Output : Type 0 where
  press_enter : Output
  draw_game : Output
  paused_message : Output
  shut_down_message : Output
  you_win : Output
  game_over : Output
  erase_block : Character → Output
  move_ball : Point → Point → Output
  move_paddle : Point → Point → Output
  play_drum : Output
  play_music : Output

-- `Game`, and the local `ended` of `main_loop`
pub record Game : Type 0 where
  pub ball_char : Character
  pub paddle_char : Character
  pub has_started : Bool
  pub paused : Bool
  pub shutdown_attempted : Bool
  pub paused_msg_has_been_drawn : Bool
  pub blocks : List Character
  pub ended : Bool

-- `a <= b` of integers
abbrev pub lez : ℤ → ℤ → Bool
lez (pos m) (pos n) = leb m n
lez (pos m) (negsuc n) = false
lez (negsuc m) (pos n) = true
lez (negsuc m) (negsuc n) = leb n m

-- `a && b`, where `b` may panic.
abbrev pub and_then : Bool → Option Bool → Option Bool
and_then true b = b
and_then false b = some false

abbrev pub add_i16 : ℤ → ℤ → Option ℤ
add_i16 a b = check_i16 (a +ℤ b)

abbrev pub sub_i16 : ℤ → ℤ → Option ℤ
sub_i16 a b = check_i16 (a +ℤ neg b)

-- Division towards 0, which panics on 0 and where the quotient overflows.
abbrev pub quotient : ℕ → ℕ → Option ℕ
quotient m zero = none
quotient m (suc n) = some (m / suc n)

unfoldable pub div_i16 : ℤ → ℤ → Option ℤ
div_i16 (pos m) (pos n) = do q ← quotient m n; check_i16 (pos q)
div_i16 (pos m) (negsuc n) = do q ← quotient m (suc n); check_i16 (neg (pos q))
div_i16 (negsuc m) (pos n) = do q ← quotient (suc m) n; check_i16 (neg (pos q))
div_i16 (negsuc m) (negsuc n) = do q ← quotient (suc m) (suc n); check_i16 (pos q)

abbrev pub x_of : Character → ℤ
x_of c = c.object.position.x

abbrev pub y_of : Character → ℤ
y_of c = c.object.position.y

-- `RTCTime` of machine/src/cmos.rs
pub record RtcTime : Type 0 where
  pub year : ℕ
  pub month : ℕ
  pub day_of_month : ℕ
  pub weekday : ℕ
  pub hours : ℕ
  pub minutes : ℕ
  pub seconds : ℕ

unfoldable pub sum_of_fields : RtcTime → ℕ
sum_of_fields t = t.year + t.month + t.day_of_month + t.weekday + t.hours + t.minutes + t.seconds

-- `generate_direction`, at the time that the CMOS returned
unfoldable pub generate_direction : RtcTime → ℕ
unfolding sum_of_fields
generate_direction time =
    let direction = sum_of_fields time % 180 + 180 in
    if direction == 180
    then direction + 10
    else if direction == 270
    then direction + 10
    else direction
