-- ===== src/Physics/Object.antt =====
-- physics/src/lib.rs: `Point` and `Object`. A coordinate is an `i16`, and `none` is its overflow.
use bare_metal_blasterball.Base.{
  ℕ, zero, suc, ◌<◌, ◌^◌, ◌≡◌, ap, Option, some, ◌>>=◌, ℤ, pos, negsuc, neg, ◌+ℤ◌, arith, lt→ltb,
  ltb-false, dec_lt, ◌∙◌, Option-cases, inl, inr, subst,
}
use bare_metal_blasterball.Physics.Velocity.{
  Velocity, horizontal_component, vertical_component, as_i16, mul_i16, check_i16,
}

pub record Point : Type 0 where
  pub x : ℤ
  pub y : ℤ

pub record Object : Type 0 where
  pub position : Point
  pub velocity : Velocity

-- `Add` and `AddAssign`, and `Sub` and `SubAssign`
unfoldable pub add_point : Point → Point → Option Point
add_point p q = do
  x ← check_i16 (p.x +ℤ q.x)
  y ← check_i16 (p.y +ℤ q.y)
  some (record { x = x; y = y })

unfoldable pub sub_point : Point → Point → Option Point
sub_point p q = do
  x ← check_i16 (p.x +ℤ neg q.x)
  y ← check_i16 (p.y +ℤ neg q.y)
  some (record { x = x; y = y })

-- The old position, and the object at the new one
unfoldable pub update_pos : ℕ → Object → (time x_scale y_scale : ℕ) → Option (Point × Object)
unfolding add_point
update_pos fuel o time x_scale y_scale = do
  h ← horizontal_component fuel o.velocity
  dx ← mul_i16 h (as_i16 time)
  v ← vertical_component fuel o.velocity
  dy ← mul_i16 v (as_i16 time)
  step_x ← mul_i16 dx (as_i16 x_scale)
  step_y ← mul_i16 dy (as_i16 y_scale)
  position ← add_point o.position (record { x = step_x; y = step_y })
  some (o.position, record o { position = position })

-- An integer that an `i16` holds
abbrev pub IsI16 : ℤ → Type 0
IsI16 (pos n) = n < 2 ^ 15
IsI16 (negsuc n) = n < 2 ^ 15

back_again : (a b : ℤ) → (a +ℤ b) +ℤ neg b ≡ a
back_again (pos m) (pos zero) = ground arith
back_again (negsuc m) (pos zero) = ground arith
back_again (pos m) (pos (suc n)) = ground arith
back_again (negsuc m) (pos (suc n)) = ground arith
back_again (pos m) (negsuc n) = ground arith
back_again (negsuc m) (negsuc n) = ground arith

check_sound : (a b : ℤ) → check_i16 a ≡ some b → b ≡ a
check_sound (pos n) b h = elim (dec_lt n (2 ^ 15)) [
  | yes k ↦ cc (rw (lt→ltb n (2 ^ 15) k) at h)
  | no k ↦ cc (rw (ltb-false n (2 ^ 15) (omega arith)) at h)
]
check_sound (negsuc n) b h = elim (dec_lt n (2 ^ 15)) [
  | yes k ↦ cc (rw (lt→ltb n (2 ^ 15) k) at h)
  | no k ↦ cc (rw (ltb-false n (2 ^ 15) (omega arith)) at h)
]

check_in : (a : ℤ) → IsI16 a → check_i16 a ≡ some a
check_in (pos n) h = rw (lt→ltb n (2 ^ 15) h)
check_in (negsuc n) h = rw (lt→ltb n (2 ^ 15) h)

check_back : (a b c : ℤ) → IsI16 a → check_i16 (a +ℤ b) ≡ some c → check_i16 (c +ℤ neg b) ≡ some a
check_back a b c i h =
    ap (λ t. check_i16 (t +ℤ neg b)) (check_sound (a +ℤ b) c h)
    ∙ ap check_i16 (back_again a b)
    ∙ check_in a i

-- Where the sum of two points does not overflow, and the coordinates of the first are each an `i16`,
-- the difference of the sum and the second point does not overflow either, and is the first point.
pub sub_point-add_point :
    (p q r : Point) → IsI16 p.x → IsI16 p.y → add_point p q ≡ some r → sub_point r q ≡ some p
unfolding add_point sub_point
sub_point-add_point p q r ix iy h = elim (Option-cases (check_i16 (p.x +ℤ q.x))) [
  | inl e ↦ cc (rw e at h)
  | inr (x, e) ↦ elim (Option-cases (check_i16 (p.y +ℤ q.y))) [
    | inl f ↦ cc (rw (e, f) at h)
    | inr (y, f) ↦
        let both : some (record { x = x; y = y }) ≡ some r = rw (e, f) at h in
        let same : record { x = x; y = y } ≡ r = cc in
        subst (λ t. sub_point t q ≡ some p) same
          (rw (check_back p.x q.x x ix e, check_back p.y q.y y iy f))
  ]
]
