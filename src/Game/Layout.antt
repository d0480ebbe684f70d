-- ===== src/Game/Layout.antt =====
-- blasterball/src/lib.rs: the first state of the game. Of a bitmap, the sizes are what it depends on; they
-- are arguments. `none` is a panic.
use bare_metal_blasterball.Base.{
  ℕ, zero, suc, ◌+◌, ◌-◌, ◌/◌, ◌%◌, Bool, false, Option, some, ◌>>=◌, ◌>>◌, ltb, leb, assert,
  if◌then◌else◌, ℤ, List, [], ◌∷◌, ◌++◌, length, get_elem?,
}
use bare_metal_blasterball.Physics.Velocity.{as_i16}
use bare_metal_blasterball.Game.Defs.{Character, Game, screen_width, screen_height, sub_i16}

-- A bitmap, with its own width, and the width and the height that it is scaled to
pub record Bitmap : Type 0 where
  pub width : ℕ
  pub scaled_width : ℕ
  pub scaled_height : ℕ

-- A character that does not move yet
abbrev pub at_rest : ℤ → ℤ → Bitmap → Character
at_rest x y bmp = record {
  object = record {
    position = record { x = x; y = y };
    velocity = record { direction = 0; speed = 0 };
  };
  width = bmp.scaled_width;
  height = bmp.scaled_height;
}

-- `(start..=end).step_by(step)`; as many rounds as there are numbers up to `end` are enough.
unfoldable pub steps : ℕ → ℕ → ℕ → ℕ → List ℕ
steps zero start end step = []
steps (suc rounds) start end step =
    let rest = steps rounds (start + step) end step in if leb start end then start ∷ rest else []

-- The loop over a row. Whether the vector of so many blocks takes another is what the heap decides; a
-- `push` that finds no memory panics.
unfoldable pub place_row :
    (ℕ → Bool) → List Bitmap → ℕ → ℕ → List ℕ → List Character → Option (ℕ × List Character)
place_row has_room bmps y i [] blocks = some (i, blocks)
place_row has_room bmps y i (x ∷ xs) blocks = do
  bmp ← get_elem? bmps i
  assert (has_room (length blocks))
  place_row has_room bmps y ((i + 1) % length bmps) xs
      (blocks ++ at_rest (as_i16 x) (as_i16 y) bmp ∷ [])

-- The loop over the rows
unfoldable pub place_rows :
    (ℕ → Bool) → List Bitmap → List ℕ → ℕ → List ℕ → List Character → Option (List Character)
unfolding place_row
place_rows has_room bmps xs i [] blocks = some blocks
place_rows has_room bmps xs i (y ∷ ys) blocks = do
  (i', blocks') ← place_row has_room bmps y i xs blocks
  place_rows has_room bmps xs i' ys blocks'

-- `none` in place of the bitmaps means that one of them cannot be read. A step of 0 is a panic of
-- `step_by`.
unfoldable pub generate_blocks : (ℕ → Bool) → Option (List Bitmap) → Option (List Character)
generate_blocks has_room files = do
  bmps ← files
  bmp ← get_elem? bmps 0
  assert (leb (15 + bmp.scaled_width) screen_width)
  assert (ltb 0 bmp.scaled_height)
  assert (ltb 0 bmp.scaled_width)
  let end_x = screen_width - 15 - bmp.scaled_width in
      place_rows has_room bmps (steps (suc end_x) 15 end_x bmp.scaled_width) 0
        (steps (suc (screen_height / 4)) 10 (screen_height / 4) bmp.scaled_height) []

-- The state with these characters and blocks
abbrev pub new_game : Character → Character → List Character → Game
new_game ball_char paddle_char blocks = record {
  ball_char = ball_char;
  paddle_char = paddle_char;
  has_started = false;
  paused = false;
  shutdown_attempted = false;
  paused_msg_has_been_drawn = false;
  blocks = blocks;
  ended = false;
}

-- `Game::init`
unfoldable pub init :
    (ℕ → Bool) → Option Bitmap → Option Bitmap → Option (List Bitmap) → Option Game
init has_room ball_file paddle_file block_files = do
  ball_bmp ← ball_file
  paddle_bmp ← paddle_file
  assert (leb (paddle_bmp.scaled_width / 2) (screen_width / 2))
  assert (leb (20 + paddle_bmp.scaled_height) screen_height)
  let paddle_x = screen_width / 2 - paddle_bmp.scaled_width / 2 in
      let paddle_y = as_i16 (screen_height - 20 - paddle_bmp.scaled_height) in
      do
        assert (leb (ball_bmp.width / 2) (screen_width / 2))
        ball_y ← sub_i16 paddle_y (as_i16 ball_bmp.scaled_height)
        blocks ← generate_blocks has_room block_files
        some (
            new_game (at_rest (as_i16 (screen_width / 2 - ball_bmp.width / 2)) ball_y ball_bmp)
              (at_rest (as_i16 paddle_x) paddle_y paddle_bmp) blocks)
