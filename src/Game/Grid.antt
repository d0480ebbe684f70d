-- ===== src/Game/Grid.antt =====
-- blasterball/src/lib.rs: where `generate_blocks` puts the blocks.
use bare_metal_blasterball.Base.{
  ap, sym, ◌*◌, ℕ, zero, suc, ◌+◌, ◌-◌, ◌%◌, ◌^◌, ◌<◌, ◌≤◌, ◌≡◌, Bool, true, Option, some, ◌>>=◌,
  ◌>>◌, ltb, leb, assert, ℤ, pos, List, [], ◌∷◌, ◌++◌, length, get_elem?, arith, refl, leb-true,
  leb-false, lt→ltb, dec_le, ◌∙◌,
}
use bare_metal_blasterball.Physics.Velocity.{as_i16, as_i16_small}
use bare_metal_blasterball.Game.Defs.{Character}
use bare_metal_blasterball.Game.Blocks.{IsPlaced, ArePlaced}
use bare_metal_blasterball.Game.Layout.{
  Bitmap, at_rest, steps, place_row, place_rows, generate_blocks,
}

-- The five bitmaps of blocks are not larger than the screen.
pub record AreBitmaps (bmps : List Bitmap) : Type 0 where
  pub five : length bmps ≡ 5
  pub small :
      (i : ℕ)
      → i < 5
      → (bmp : Bitmap) × (get_elem? bmps i ≡ some bmp)
        × (bmp.scaled_width ≤ 640)
        × (bmp.scaled_height ≤ 480)

abbrev AtMost : ℕ → List ℕ → Type 0
AtMost n [] = Unit
AtMost n (x ∷ xs) = (x ≤ n) × AtMost n xs

steps-AtMost : (rounds start end step : ℕ) → AtMost end (steps rounds start end step)
unfolding steps
steps-AtMost zero start end step = tt
steps-AtMost (suc rounds) start end step = elim (dec_le start end) [
  | yes l ↦ rw (leb-true start end l) (l, steps-AtMost rounds (start + step) end step)
  | no l ↦ rw (leb-false start end (omega arith)) tt
]

at_rest-IsPlaced :
    (x y : ℕ) (bmp : Bitmap)
    → x ≤ 640
    → y ≤ 480
    → bmp.scaled_width ≤ 640
    → bmp.scaled_height ≤ 480
    → IsPlaced (at_rest (as_i16 x) (as_i16 y) bmp)
at_rest-IsPlaced x y bmp lx ly lw lh = record {
  low = pos (y + bmp.scaled_height);
  right = pos (x + bmp.scaled_width);
  has_low = rw (
    as_i16_small y (omega arith),
    as_i16_small bmp.scaled_height (omega arith),
    lt→ltb (y + bmp.scaled_height) (2 ^ 15) (omega arith),
  );
  has_right = rw (
    as_i16_small x (omega arith),
    as_i16_small bmp.scaled_width (omega arith),
    lt→ltb (x + bmp.scaled_width) (2 ^ 15) (omega arith),
  );
}

ArePlaced-snoc :
    (blocks : List Character) (block : Character)
    → ArePlaced blocks
    → IsPlaced block
    → ArePlaced (blocks ++ block ∷ [])
ArePlaced-snoc [] block ps p = (p, tt)
ArePlaced-snoc (b ∷ blocks) block (q, ps) p = (q, ArePlaced-snoc blocks block ps p)

-- Where a block stands, and where the blocks of a row and of all rows are to stand
abbrev pub place_of : Character → ℤ × ℤ
place_of block = (block.object.position.x, block.object.position.y)

abbrev pub row_at : ℕ → List ℕ → List (ℤ × ℤ)
row_at y [] = []
row_at y (x ∷ xs) = (as_i16 x, as_i16 y) ∷ row_at y xs

abbrev pub grid : List ℕ → List ℕ → List (ℤ × ℤ)
grid xs [] = []
grid xs (y ∷ ys) = row_at y xs ++ grid xs ys

abbrev pub places : List Character → List (ℤ × ℤ)
places [] = []
places (block ∷ blocks) = place_of block ∷ places blocks

-- The numbers from `start` on, `step` apart, so many of them
abbrev pub ladder : (start step count : ℕ) → List ℕ
ladder start step zero = []
ladder start step (suc count) = start ∷ ladder (start + step) step count

-- All of them that are at most `end`.
pub record IsLadder (start step end : ℕ) (xs : List ℕ) : Type 0 where
  pub count : ℕ
  pub is_ladder : xs ≡ ladder start step count
  pub within : AtMost end xs
  pub full : end < start + count * step

ladder-next :
    (start step end count : ℕ) → end < start + step + count * step → end < start + suc count * step
ladder-next start step end count h = omega (arith, h)

steps-ladder :
    (rounds start end step : ℕ)
    → 0 < step
    → end < start + rounds
    → (count : ℕ) × (steps rounds start end step ≡ ladder start step count)
      × (end < start + count * step)
unfolding steps
steps-ladder zero start end step p h = (0, refl, omega arith)
steps-ladder (suc rounds) start end step p h = elim (dec_le start end) [
  | yes l ↦
      (let (count, e, k) = steps-ladder rounds (start + step) end step p (omega arith) in
        (suc count, rw (leb-true start end l, e) refl, ladder-next start step end count k))
  | no l ↦ (0, rw (leb-false start end (omega arith)), omega arith)
]

steps-IsLadder :
    (start end step : ℕ) → 0 < step → IsLadder start step end (steps (suc end) start end step)
steps-IsLadder start end step p =
    let (count, e, k) = steps-ladder (suc end) start end step p (omega arith) in
    record {
      count = count;
      is_ladder = e;
      within = steps-AtMost (suc end) start end step;
      full = k;
    }

places-snoc :
    (blocks : List Character) (block : Character) (rest : List (ℤ × ℤ))
    → places (blocks ++ block ∷ []) ++ rest ≡ places blocks ++ place_of block ∷ rest
places-snoc [] block rest = refl
places-snoc (b ∷ blocks) block rest = ap (λ l. place_of b ∷ l) (places-snoc blocks block rest)

append-nil : (l : List (ℤ × ℤ)) → l ++ [] ≡ l
append-nil [] = refl
append-nil (x ∷ l) = ap (λ k. x ∷ k) (append-nil l)

append_assoc : (a b c : List (ℤ × ℤ)) → (a ++ b) ++ c ≡ a ++ (b ++ c)
append_assoc [] b c = refl
append_assoc (x ∷ a) b c = ap (λ k. x ∷ k) (append_assoc a b c)

module _ {bmps : List Bitmap} (b : AreBitmaps bmps) (has_room : ℕ → Bool)
    (room : (n : ℕ) → has_room n ≡ true) where
  place_row_lem :
      (y i : ℕ) (xs : List ℕ) (blocks : List Character)
      → y ≤ 480
      → i < 5
      → AtMost 640 xs
      → ArePlaced blocks
      → (i' : ℕ) × (blocks' : List Character) × (place_row has_room bmps y i xs blocks
          ≡ some (i', blocks'))
        × (i' < 5)
        × ArePlaced blocks'
        × (places blocks' ≡ places blocks ++ row_at y xs)
  unfolding place_row
  place_row_lem y i [] blocks ly li xs ps =
      (i, blocks, refl, li, ps, sym (append-nil (places blocks)))
  place_row_lem y i (x ∷ xs) blocks ly li (lx, lxs) ps =
      let (bmp, e, lw, lh) = b.small i li in
      let next : (i + 1) % length bmps < 5 = rw b.five (omega arith) in
      let block = at_rest (as_i16 x) (as_i16 y) bmp in
      let placed = at_rest-IsPlaced x y bmp lx ly lw lh in
      let (i', blocks', e', l', ps', at) =
        place_row_lem y ((i + 1) % length bmps) xs (blocks ++ block ∷ []) ly next lxs
          (ArePlaced-snoc blocks block ps placed) in
      (
        i',
        blocks',
        rw (e, room (length blocks)) e',
        l',
        ps',
        at ∙ places-snoc blocks block (row_at y xs),
      )

  place_rows_lem :
      (xs : List ℕ) (i : ℕ) (ys : List ℕ) (blocks : List Character)
      → AtMost 640 xs
      → i < 5
      → AtMost 480 ys
      → ArePlaced blocks
      → (blocks' : List Character) × (place_rows has_room bmps xs i ys blocks ≡ some blocks')
        × ArePlaced blocks'
        × (places blocks' ≡ places blocks ++ grid xs ys)
  unfolding place_rows
  place_rows_lem xs i [] blocks lxs li ys ps = (blocks, refl, ps, sym (append-nil (places blocks)))
  place_rows_lem xs i (y ∷ ys) blocks lxs li (ly, lys) ps =
      let (i', blocks', e, l, ps', at) = place_row_lem y i xs blocks ly li lxs ps in
      let (r, e', ps'', at') = place_rows_lem xs i' ys blocks' lxs l lys ps' in
      (
        r,
        rw e e',
        ps'',
        at'
            ∙ ap (λ l. l ++ grid xs ys) at
            ∙ append_assoc (places blocks) (row_at y xs) (grid xs ys),
      )

AtMost-weaken : (m n : ℕ) (xs : List ℕ) → m ≤ n → AtMost m xs → AtMost n xs
AtMost-weaken m n [] l ps = tt
AtMost-weaken m n (x ∷ xs) l (p, ps) = (omega arith, AtMost-weaken m n xs l ps)

guards_pass :
    {A B : Type 0} (o : Option A) (p q r : A → Bool) (k : A → Option B) {a : A}
    → o ≡ some a
    → p a ≡ true
    → q a ≡ true
    → r a ≡ true
    → (do x ← o; assert (p x); assert (q x); assert (r x); k x) ≡ k a
guards_pass o p q r k e hp hq hr = rw (e, hp, hq, hr) refl

-- Of five bitmaps that could be read and are not larger than the screen, of which the first is not empty
-- and leaves the margins free, and with a heap that has room for each block, `generate_blocks` returns
-- without a panic. The blocks stand row by row on the grid of the columns 15, 15 + w, 15 + 2 w and so
-- on, all of them up to 640 - 15 - w, and of the rows 10, 10 + h and so on, all of them up to 120, where
-- w and h are the sizes of the first bitmap. The right and the lower edge of each block are numbers that
-- an `i16` holds.
pub generate_blocks_lem :
    (first : Bitmap) (bmps : List Bitmap) (has_room : ℕ → Bool)
    → AreBitmaps bmps
    → get_elem? bmps 0 ≡ some first
    → 0 < first.scaled_width
    → 0 < first.scaled_height
    → 15 + first.scaled_width ≤ 640
    → ((n : ℕ) → has_room n ≡ true)
    → (blocks : List Character) × (xs ys : List ℕ) × (generate_blocks has_room (some bmps)
        ≡ some blocks)
      × IsLadder 15 first.scaled_width (640 - 15 - first.scaled_width) xs
      × IsLadder 10 first.scaled_height 120 ys
      × (places blocks ≡ grid xs ys)
      × ArePlaced blocks
unfolding generate_blocks
generate_blocks_lem first bmps has_room b e pw ph l room =
    let end_x = 640 - 15 - first.scaled_width in
    let xs = steps (suc end_x) 15 end_x first.scaled_width in
    let ys = steps (suc 120) 10 120 first.scaled_height in
    let small_xs : AtMost 640 xs =
      AtMost-weaken end_x 640 xs (omega arith)
        (steps-AtMost (suc end_x) 15 end_x first.scaled_width) in
    let small_ys : AtMost 480 ys =
      AtMost-weaken 120 480 ys (omega arith) (steps-AtMost (suc 120) 10 120 first.scaled_height) in
    let start : 0 < 5 = omega arith in
    let (blocks, e', ps, at) =
      place_rows_lem b has_room room xs 0 ys [] small_xs start small_ys tt in
    (
      blocks,
      xs,
      ys,
      guards_pass (get_elem? bmps 0) (λ b. leb (15 + b.scaled_width) 640)
            (λ b. ltb 0 b.scaled_height) (λ b. ltb 0 b.scaled_width)
            (λ b.
              place_rows has_room bmps
                (steps (suc (640 - 15 - b.scaled_width)) 15 (640 - 15 - b.scaled_width)
                  b.scaled_width)
                0 (steps (suc 120) 10 120 b.scaled_height) [])
            e (leb-true (15 + first.scaled_width) 640 l) (lt→ltb 0 first.scaled_height ph)
            (lt→ltb 0 first.scaled_width pw)
          ∙ e',
      steps-IsLadder 15 end_x first.scaled_width pw,
      steps-IsLadder 10 120 first.scaled_height ph,
      at,
      ps,
    )
