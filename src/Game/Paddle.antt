-- ===== src/Game/Paddle.antt =====
-- blasterball/src/lib.rs: `ball_passed_through_paddle` does not panic.
use bare_metal_blasterball.Base.{
  ℕ, zero, suc, ◌+◌, ◌-◌, ◌*◌, ◌/◌, ◌^◌, ◌<◌, ◌≤◌, ◌≡◌, ◌≢◌, refl, subst, Bool, true, false, Option,
  none, some, ◌>>=◌, arith, ℤ, pos, negsuc, neg, ◌+ℤ◌, lt→ltb, leb→le, dec_le, Bool-cases, inl, inr,
  all_below, all_below_sound,
}
use bare_metal_blasterball.Physics.Angles.{sinf32, cosf32, match_angle}
use bare_metal_blasterball.Physics.Tables.{small}
use bare_metal_blasterball.Physics.Velocity.{as_i16, as_i16_small, check_i16, mul_i16}
use bare_metal_blasterball.Physics.Object.{Point}
use bare_metal_blasterball.Game.Defs.{
  Character, lez, and_then, add_i16, sub_i16, div_i16, x_of, y_of,
}
use bare_metal_blasterball.Game.Collisions.{crossing, ball_passed_through_paddle}
use bare_metal_blasterball.Game.Direction.{IsAimed, aimed_safe}

-- Not further from 0 than the bound
abbrev pub Within : ℕ → ℤ → Type 0
Within b (pos n) = n ≤ b
Within b (negsuc n) = n < b

check_Within : (b : ℕ) (z : ℤ) → Within b z → b < 2 ^ 15 → check_i16 z ≡ some z
check_Within b (pos n) h l = rw (lt→ltb n (2 ^ 15) (omega arith))
check_Within b (negsuc n) h l = rw (lt→ltb n (2 ^ 15) (omega arith))

neg-Within : (b : ℕ) (z : ℤ) → Within b z → Within b (neg z)
neg-Within b (pos zero) h = h
neg-Within b (pos (suc n)) h = omega arith
neg-Within b (negsuc n) h = omega arith

difference_Within :
    (a b m n : ℕ) (d : Dec (suc n ≤ m))
    → m ≤ a
    → n < b
    → Within (a + b) (elim d [ yes h ↦ pos (m - suc n) | no h ↦ negsuc (n - m) ])
difference_Within a b m n (yes h) l k = omega arith
difference_Within a b m n (no h) l k = omega arith

plus_Within : (a b : ℕ) (x y : ℤ) → Within a x → Within b y → Within (a + b) (x +ℤ y)
plus_Within a b (pos m) (pos n) h k = omega arith
plus_Within a b (pos m) (negsuc n) h k = difference_Within a b m n (dec_le (suc n) m) h k
plus_Within a b (negsuc m) (pos n) h k =
    let swap : b + a ≡ a + b = omega arith in
    subst (λ t. Within t (negsuc m +ℤ pos n)) swap
      (difference_Within b a n m (dec_le (suc m) n) k h)
plus_Within a b (negsuc m) (negsuc n) h k = omega arith

add_Within :
    (a b : ℕ) (x y : ℤ)
    → Within a x
    → Within b y
    → a + b < 2 ^ 15
    → (r : ℤ) × (add_i16 x y ≡ some r) × Within (a + b) r
add_Within a b x y h k l =
    let w = plus_Within a b x y h k in (x +ℤ y, check_Within (a + b) (x +ℤ y) w l, w)

sub_Within :
    (a b : ℕ) (x y : ℤ)
    → Within a x
    → Within b y
    → a + b < 2 ^ 15
    → (r : ℤ) × (sub_i16 x y ≡ some r) × Within (a + b) r
sub_Within a b x y h k l = add_Within a b x (neg y) h (neg-Within b y k) l

-- The product with a number from 0 to 3
times : (m n a : ℕ) → m ≤ a → n ≤ 3 → m * n ≤ a * 3
times m zero a h k = omega arith
times m (suc zero) a h k = omega arith
times m (suc (suc zero)) a h k = omega arith
times m (suc (suc (suc zero))) a h k = omega arith
times m (suc (suc (suc (suc n)))) a h k = absurd (omega arith)

signed :
    (b n : ℕ)
    → n ≤ b
    → b < 2 ^ 15
    → ((r : ℤ) × (check_i16 (pos n) ≡ some r) × Within b r)
      × ((r : ℤ) × (check_i16 (neg (pos n)) ≡ some r) × Within b r)
signed b n h l =
    let w = neg-Within b (pos n) h in
    ((pos n, check_Within b (pos n) h l, h), (neg (pos n), check_Within b (neg (pos n)) w l, w))

mul_Within :
    (a : ℕ) (x c : ℤ)
    → Within a x
    → small c ≡ true
    → a * 3 < 2 ^ 15
    → (r : ℤ) × (mul_i16 x c ≡ some r) × Within (a * 3) r
mul_Within a (pos m) (pos n) h k l = (signed (a * 3) (m * n) (times m n a h (leb→le n 3 k)) l).0
mul_Within a (pos m) (negsuc n) h k l =
    (signed (a * 3) (m * suc n) (times m (suc n) a h (omega (arith, leb→le n 2 k))) l).1
mul_Within a (negsuc m) (pos n) h k l =
    (signed (a * 3) (suc m * n) (times (suc m) n a (omega arith) (leb→le n 3 k)) l).1
mul_Within a (negsuc m) (negsuc n) h k l =
    (signed (a * 3) (suc m * suc n)
      (times (suc m) (suc n) a (omega arith) (omega (arith, leb→le n 2 k))) l).0

-- The quotient by a number from 1 to 3
quotient_le : (m n a : ℕ) → m ≤ a → suc n ≤ 3 → m / suc n ≤ a
quotient_le m zero a h k = omega arith
quotient_le m (suc zero) a h k = omega arith
quotient_le m (suc (suc zero)) a h k = omega arith
quotient_le m (suc (suc (suc n))) a h k = absurd (omega arith)

div_Within :
    (a : ℕ) (x s : ℤ)
    → Within a x
    → small s ≡ true
    → s ≢ pos 0
    → a < 2 ^ 15
    → (r : ℤ) × (div_i16 x s ≡ some r) × Within a r
unfolding div_i16
div_Within a x (pos zero) h k ne l = absurd (ne refl)
div_Within a (pos m) (pos (suc n)) h k ne l =
    (signed a (m / suc n) (quotient_le m n a h (leb→le (suc n) 3 k)) l).0
div_Within a (pos m) (negsuc n) h k ne l =
    (signed a (m / suc n) (quotient_le m n a h (omega (arith, leb→le n 2 k))) l).1
div_Within a (negsuc m) (pos (suc n)) h k ne l =
    (signed a (suc m / suc n) (quotient_le (suc m) n a (omega arith) (leb→le (suc n) 3 k)) l).1
div_Within a (negsuc m) (negsuc n) h k ne l =
    (signed a (suc m / suc n) (quotient_le (suc m) n a (omega arith) (omega (arith, leb→le n 2 k)))
      l).0

abbrev has_small : Option ℤ → Bool
has_small none = false
has_small (some v) = small v

has_small_sound : (o : Option ℤ) → has_small o ≡ true → (v : ℤ) × (o ≡ some v) × (small v ≡ true)
has_small_sound none h = absurd cc
has_small_sound (some v) h = (v, refl, h)

cos_table : all_below 360 (λ d. has_small (cosf32 2 (180 + d))) ≡ true
unfolding cosf32 match_angle
cos_table = refl

sin_table : all_below 360 (λ d. has_small (sinf32 2 (180 + d))) ≡ true
unfolding sinf32 match_angle
sin_table = refl

and_then_returns :
    (b : Bool) (o : Option Bool) (c : Bool) → o ≡ some c → (d : Bool) × (and_then b o ≡ some d)
and_then_returns true o c e = (c, e)
and_then_returns false o c e = (false, refl)

-- A point on the screen or not far from it
pub record IsNear (p : Point) : Type 0 where
  pub near_x : Within 4000 p.x
  pub near_y : Within 4000 p.y

module _ (old_pos : Point) (direction : ℕ) (paddle : Character) (o : IsNear old_pos)
    (p : IsNear paddle.object.position) (w : paddle.width ≤ 4000) (a : IsAimed direction) where
  -- The right end of the paddle, less 1
  paddle_end :
      (x : ℤ)
      → (b : Bool) × ((do
        right ← add_i16 (x_of paddle) (as_i16 paddle.width)
        last ← sub_i16 right (pos 1)
        some (lez x last))
          ≡ some b)
  paddle_end x =
      let (right, e, r) =
        add_Within 4000 4000 (x_of paddle) (pos paddle.width) p.near_x w (omega arith) in
      let (last, f, _) = sub_Within 8000 1 right (pos 1) r (omega arith) (omega arith) in
      let size = as_i16_small paddle.width (omega arith) in (lez x last, rw (size, e, f) refl)

  crossing_steps :
      {y_distance cos product sin x_distance x : ℤ} {inside : Bool}
      → sub_i16 (y_of paddle) old_pos.y ≡ some y_distance
      → cosf32 2 (180 + direction) ≡ some cos
      → mul_i16 y_distance cos ≡ some product
      → sinf32 2 (180 + direction) ≡ some sin
      → div_i16 product sin ≡ some x_distance
      → sub_i16 old_pos.x x_distance ≡ some x
      → and_then (lez (x_of paddle) x) (do
        right ← add_i16 (x_of paddle) (as_i16 paddle.width)
        last ← sub_i16 right (pos 1)
        some (lez x last))
        ≡ some inside
      → crossing 2 old_pos direction paddle ≡ some (inside, record { x = x; y = y_of paddle })
  unfolding crossing
  crossing_steps e1 e2 e3 e4 e5 e6 e7 = rw (e1, e2, e3, e4, e5, e6, e7) refl

  crossing_returns : (r : Bool × Point) × (crossing 2 old_pos direction paddle ≡ some r)
  crossing_returns =
      let (y_distance, e1, w1) =
        sub_Within 4000 4000 (y_of paddle) old_pos.y p.near_y o.near_y (omega arith) in
      let (cos, e2, w2) = has_small_sound (cosf32 2 (180 + direction)) (
        all_below_sound 360 (λ d. has_small (cosf32 2 (180 + d))) direction cos_table a.one_turn) in
      let (product, e3, w3) = mul_Within 8000 y_distance cos w1 w2 (omega arith) in
      let (sin, e4, nonzero) = (aimed_safe direction a).1 in
      let w4 = small_sin sin e4 in
      let (x_distance, e5, w5) = div_Within 24000 product sin w3 w4 nonzero (omega arith) in
      let (x, e6, w6) = sub_Within 4000 24000 old_pos.x x_distance o.near_x w5 (omega arith) in
      let (b, e7) = paddle_end x in
      let (inside, e8) = and_then_returns (lez (x_of paddle) x) _ b e7 in
      ((inside, record { x = x; y = y_of paddle }), crossing_steps e1 e2 e3 e4 e5 e6 e8)
    where
      small_sin : (s : ℤ) → sinf32 2 (180 + direction) ≡ some s → small s ≡ true
      small_sin s e =
          let h =
            all_below_sound 360 (λ d. has_small (sinf32 2 (180 + d))) direction sin_table
              a.one_turn in
          rw e at h

-- Of a ball that moves in an aimed direction, and a ball and a paddle of which no coordinate is further
-- than 4000 from 0, `ball_passed_through_paddle` returns without a panic: no product or difference
-- leaves the range of an `i16`, and nothing is divided by 0.
pub ball_passed_lem :
    (old_pos new_pos : Point) (direction : ℕ) (paddle : Character)
    → IsNear old_pos
    → IsNear paddle.object.position
    → paddle.width ≤ 4000
    → IsAimed direction
    → (r : Bool × Option Point) × (ball_passed_through_paddle 2 old_pos new_pos direction paddle
        ≡ some r)
unfolding ball_passed_through_paddle
ball_passed_lem old_pos new_pos direction paddle o p w a =
    let (r, e) = crossing_returns old_pos direction paddle o p w a in
    elim (Bool-cases (lez (y_of paddle) new_pos.y)) [
      | inl reached ↦ ((r.0, some r.1), rw (reached, e) refl)
      | inr above ↦ ((false, none), rw above refl)
    ]
