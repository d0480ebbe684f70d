-- ===== src/Game/Blocks.antt =====
-- blasterball/src/lib.rs: the blocks that a tick removes.
use bare_metal_blasterball.Base.{
  ◌≡◌, ◌⊎◌, inl, inr, Bool, true, false, Option, none, some, ◌>>=◌, if◌then◌else◌, List, [], ◌∷◌,
  ◌++◌, ℤ, refl, ap, ◌∙◌, Bool-cases, Returns, Returns-bind, Returns-result,
}
use bare_metal_blasterball.Physics.Velocity.{reflect_about_x_axis, as_i16}
use bare_metal_blasterball.Game.Defs.{
  Character, Output, erase_block, add_i16, x_of, y_of, and_then, lez,
}
use bare_metal_blasterball.Game.Collisions.{CollidedFrom, collided_with, overlaps_char}
use bare_metal_blasterball.Game.Direction.{aimed_safe, reflect_about_x_axis-IsAimed}
use bare_metal_blasterball.Game.Ball.{Aimed}
use bare_metal_blasterball.Game.Loop.{reflect_ball, hit_block}

abbrev pub Hits : Character → Character → Bool → Type 0
Hits ball block b = (from : CollidedFrom) × (collided_with ball block ≡ some (b, from))

-- The ball hits none of the blocks.
abbrev pub MissesAll : Character → List Character → Type 0
MissesAll ball [] = Unit
MissesAll ball (block ∷ blocks) = Hits ball block false × MissesAll ball blocks

-- The first block that the ball hits is gone, with a drawing of it, and the ball is turned about; or it
-- hits none, and nothing changes.
abbrev pub IsHit : Character → List Character → Character × List Character × List Output → Type 0
IsHit ball blocks (ball', blocks', out) =
    ((ball' ≡ ball) × (blocks' ≡ blocks) × (out ≡ []) × MissesAll ball blocks)
    ⊎ ((front : List Character) × (block : Character) × (rest : List Character) × (blocks
          ≡ front ++ (block ∷ rest))
        × (blocks' ≡ front ++ rest)
        × (out ≡ erase_block block ∷ [])
        × MissesAll ball front
        × Hits ball block true
        × (reflect_ball reflect_about_x_axis ball ≡ some ball'))

module _ (ball block : Character) (blocks : List Character) where
  missed :
      Hits ball block false
      → (r : Character × List Character × List Output) → IsHit ball blocks r
      → IsHit ball (block ∷ blocks) (r.0, block ∷ r.1, r.2)
  missed h (ball', blocks', out) (inl (a, b, c, d)) = inl (a, ap (λ x. block ∷ x) b, c, (h, d))
  missed h (ball', blocks', out) (inr (front, x, rest, a, b, c, d, e, f)) =
      inr (block ∷ front, x, rest, ap (λ l. block ∷ l) a, ap (λ l. block ∷ l) b, c, (h, d), e, f)

  first :
      Hits ball block true
      → (ball' : Character) → reflect_ball reflect_about_x_axis ball ≡ some ball'
      → IsHit ball (block ∷ blocks) (ball', blocks, erase_block block ∷ [])
  first h ball' e = inr ([], block, blocks, refl, refl, refl, tt, h, e)

returned : {A : Type 0} (o : Option A) → Returns (λ r. o ≡ some r) o
returned none = tt
returned (some a) = refl

-- One round of the loop, from what holds of the rounds behind it.
IsHit-round :
    (ball block : Character) (blocks : List Character) (collided : Bool) (from : CollidedFrom)
    → Returns (IsHit ball blocks) (hit_block ball blocks)
    → collided_with ball block ≡ some (collided, from)
    → Returns (IsHit ball (block ∷ blocks)) (
        if collided
        then (do
          ball' ← reflect_ball reflect_about_x_axis ball
          some (ball', blocks, erase_block block ∷ []))
        else (do (ball', blocks', out) ← hit_block ball blocks; some (ball', block ∷ blocks', out)))
IsHit-round ball block blocks true from rest e =
    Returns-bind (λ c. reflect_ball reflect_about_x_axis ball ≡ some c)
      (IsHit ball (block ∷ blocks)) (reflect_ball reflect_about_x_axis ball) _
      (returned (reflect_ball reflect_about_x_axis ball))
      (λ c f. first ball block blocks (from, e) c f)
IsHit-round ball block blocks false from rest e =
    Returns-bind (IsHit ball blocks) (IsHit ball (block ∷ blocks)) (hit_block ball blocks) _ rest
      (λ r h. missed ball block blocks (from, e) r h)

hit_block-IsHit :
    (ball : Character) (blocks : List Character)
    → Returns (IsHit ball blocks) (hit_block ball blocks)
unfolding hit_block
hit_block-IsHit ball [] = inl (refl, refl, refl, tt)
hit_block-IsHit ball (block ∷ blocks) =
    Returns-bind (λ r. collided_with ball block ≡ some r) (IsHit ball (block ∷ blocks))
      (collided_with ball block) _ (returned (collided_with ball block))
      (λ (collided, from) e.
        IsHit-round ball block blocks collided from (hit_block-IsHit ball blocks) e)

-- The right and the lower edge of a block are numbers that an `i16` holds.
pub record IsPlaced (block : Character) : Type 0 where
  pub low : ℤ
  pub right : ℤ
  pub has_low : add_i16 (y_of block) (as_i16 block.height) ≡ some low
  pub has_right : add_i16 (x_of block) (as_i16 block.width) ≡ some right

and_then_total :
    (b : Bool) (o : Option Bool) (c : Bool) → o ≡ some c → (d : Bool) × (and_then b o ≡ some d)
and_then_total true o c e = (c, e)
and_then_total false o c e = (false, refl)

bind_some : {A B : Type 0} (m : Option A) (k : A → Option B) {a : A} → m ≡ some a → (m >>= k) ≡ k a
bind_some m k e = rw e refl

collided_with_total :
    (ball block : Character)
    → Aimed ball
    → IsPlaced block
    → (b : Bool) × (from : CollidedFrom) × (collided_with ball block ≡ some (b, from))
unfolding collided_with overlaps_char
collided_with_total ball block a p =
    let (from, e) = (aimed_safe ball.object.velocity.direction a).0 in
    let (b1, e1) =
      and_then_total (lez (x_of block) (x_of ball)) _ (lez (x_of ball) p.right)
        (bind_some _ (λ right. some (lez (x_of ball) right)) p.has_right) in
    let (b2, e2) = and_then_total (lez (y_of ball) p.low) _ b1 e1 in
    let (b3, e3) =
      and_then_total (lez (y_of block) (y_of ball)) _ b2
        (bind_some _ (λ low. and_then (lez (y_of ball) low) _) p.has_low ∙ e2) in
    (b3, from, rw (e3, e))

abbrev pub ArePlaced : List Character → Type 0
ArePlaced [] = Unit
ArePlaced (block ∷ blocks) = IsPlaced block × ArePlaced blocks

hit_block_total :
    (ball : Character) (blocks : List Character)
    → Aimed ball
    → ArePlaced blocks
    → (r : Character × List Character × List Output) × (hit_block ball blocks ≡ some r)
unfolding hit_block reflect_ball
hit_block_total ball [] a p = ((ball, [], []), refl)
hit_block_total ball (block ∷ blocks) a (p, ps) =
    let (b, from, e) = collided_with_total ball block a p in
    let (u, f, c) = reflect_about_x_axis-IsAimed ball.object.velocity a in
    let ((ball', blocks', out), g) = hit_block_total ball blocks a ps in
    elim (Bool-cases b) [
      | inl t ↦ (
        (
          record ball { object = record ball.object { velocity = u } },
          blocks,
          erase_block block ∷ [],
        ),
        rw (e, t, f) refl,
      )
      | inr t ↦ ((ball', block ∷ blocks', out), rw (e, t, g) refl)
    ]

-- Of an aimed ball, and blocks whose edges an `i16` holds, the loop over the blocks returns without a
-- panic. It has removed the first block that the ball hits, and no other, drawn over it and turned the
-- ball about once; or the ball hits no block, and all stay.
pub hit_block_lem :
    (ball : Character) (blocks : List Character)
    → Aimed ball
    → ArePlaced blocks
    → (r : Character × List Character × List Output) × (hit_block ball blocks ≡ some r)
      × IsHit ball blocks r
hit_block_lem ball blocks a p =
    let (r, e) = hit_block_total ball blocks a p in
    (
      r,
      e,
      Returns-result (IsHit ball blocks) (hit_block ball blocks) r (hit_block-IsHit ball blocks) e,
    )
