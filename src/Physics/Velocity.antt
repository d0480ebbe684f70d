-- ===== src/Physics/Velocity.antt =====
-- physics/src/lib.rs: `Velocity`. `none` is a panic, of a subtraction below 0 or of an `i16` that
-- overflows, as in the profile `dev`.
use bare_metal_blasterball.Base.{
  ℕ, zero, suc, ◌-◌, ◌*◌, ◌%◌, ◌^◌, ◌≤◌, ◌<◌, ◌≡◌, refl, sym, ap, ◌∙◌, Option, none, some,
  if◌then◌else◌, ltb, leb, ◌>>=◌, arith, ℤ, pos, negsuc, neg, lt→ltb, leb-true, leb-false, leb→le,
  dec_le, inl, inr, true, false, Bool-cases, ◌⊎◌, subst,
}
use bare_metal_blasterball.Physics.Angles.{sinf32, cosf32}
use bare_metal_blasterball.Physics.Tables.{
  cosf32_about_y, cosf32_about_x, cosf32-small, small, is_askew, sinf32_about_x,
}

-- `as i16`
abbrev pub as_i16 : ℕ → ℤ
as_i16 n = if ltb (n % 2 ^ 16) (2 ^ 15) then pos (n % 2 ^ 16) else negsuc (2 ^ 16 - 1 - n % 2 ^ 16)

-- The product, where an `i16` holds it
abbrev pub check_i16 : ℤ → Option ℤ
check_i16 (pos n) = if ltb n (2 ^ 15) then some (pos n) else none
check_i16 (negsuc n) = if ltb n (2 ^ 15) then some (negsuc n) else none

abbrev pub mul_i16 : ℤ → ℤ → Option ℤ
mul_i16 (pos m) (pos n) = check_i16 (pos (m * n))
mul_i16 (pos m) (negsuc n) = check_i16 (neg (pos (m * suc n)))
mul_i16 (negsuc m) (pos n) = check_i16 (neg (pos (suc m * n)))
mul_i16 (negsuc m) (negsuc n) = check_i16 (pos (suc m * suc n))

pub record Velocity : Type 0 where
  pub direction : ℕ
  pub speed : ℕ

unfoldable pub horizontal_component : ℕ → Velocity → Option ℤ
horizontal_component fuel v = do c ← cosf32 fuel v.direction; mul_i16 (as_i16 v.speed) c

unfoldable pub vertical_component : ℕ → Velocity → Option ℤ
vertical_component fuel v = do s ← sinf32 fuel v.direction; mul_i16 (as_i16 v.speed) s

unfoldable pub reflect_about_y_axis : Velocity → Option Velocity
reflect_about_y_axis v =
    if leb v.direction 180
    then some (record v { direction = 180 - v.direction })
    else if leb v.direction 360
    then some (record v { direction = 540 - v.direction })
    else none

unfoldable pub reflect_about_x_axis : Velocity → Option Velocity
reflect_about_x_axis v =
    if leb v.direction 360 then some (record v { direction = 360 - v.direction }) else none

pub as_i16_small : (s : ℕ) → s < 2 ^ 15 → as_i16 s ≡ pos s
as_i16_small s h = let same : s % 2 ^ 16 ≡ s = omega arith in rw (same, lt→ltb s (2 ^ 15) h)

check_both :
    (p : ℕ)
    → p < 2 ^ 15
    → (check_i16 (pos p) ≡ some (pos p)) × (check_i16 (neg (pos p)) ≡ some (neg (pos p)))
check_both zero h = (refl, refl)
check_both (suc p) h = (rw (lt→ltb (suc p) (2 ^ 15) h), rw (lt→ltb p (2 ^ 15) (omega arith)))

neg-neg : (c : ℤ) → neg (neg c) ≡ c
neg-neg (pos zero) = refl
neg-neg (pos (suc n)) = refl
neg-neg (negsuc n) = refl

forward :
    (s p : ℕ)
    → (check_i16 (pos p) ≡ some (pos p)) × (check_i16 (neg (pos p)) ≡ some (neg (pos p)))
    → (v : ℤ) × (check_i16 (pos p) ≡ some v) × (check_i16 (neg (pos p)) ≡ some (neg v))
forward s p (a, b) = (pos p, a, b)

back :
    (s p : ℕ)
    → (check_i16 (pos p) ≡ some (pos p)) × (check_i16 (neg (pos p)) ≡ some (neg (pos p)))
    → (v : ℤ) × (check_i16 (neg (pos p)) ≡ some v) × (check_i16 (pos p) ≡ some (neg v))
back s p (a, b) = (neg (pos p), b, a ∙ ap some (sym (neg-neg (pos p))))

-- A speed times a step, and times its opposite.
mul_neg :
    (s : ℕ) (c : ℤ)
    → s < 10922
    → small c ≡ true
    → (v : ℤ) × (mul_i16 (pos s) c ≡ some v) × (mul_i16 (pos s) (neg c) ≡ some (neg v))
mul_neg s (pos zero) h k =
    let none_left : s * 0 ≡ 0 = omega arith in (pos 0, rw none_left, rw none_left)
mul_neg s (pos (suc zero)) h k = forward s (s * 1) (check_both (s * 1) (omega arith))
mul_neg s (pos (suc (suc zero))) h k = forward s (s * 2) (check_both (s * 2) (omega arith))
mul_neg s (pos (suc (suc (suc zero)))) h k = forward s (s * 3) (check_both (s * 3) (omega arith))
mul_neg s (pos (suc (suc (suc (suc n))))) h k =
    absurd (omega (arith, leb→le (suc (suc (suc (suc n)))) 3 k))
mul_neg s (negsuc zero) h k = back s (s * 1) (check_both (s * 1) (omega arith))
mul_neg s (negsuc (suc zero)) h k = back s (s * 2) (check_both (s * 2) (omega arith))
mul_neg s (negsuc (suc (suc zero))) h k = back s (s * 3) (check_both (s * 3) (omega arith))
mul_neg s (negsuc (suc (suc (suc n)))) h k = absurd (omega (arith, leb→le (suc (suc (suc n))) 2 k))

component :
    (fuel d s : ℕ) (c w : ℤ)
    → cosf32 fuel d ≡ some c
    → s < 2 ^ 15
    → mul_i16 (pos s) c ≡ some w
    → horizontal_component fuel (record { direction = d; speed = s }) ≡ some w
unfolding horizontal_component
component fuel d s c w e h m =
    let same : s % 2 ^ 16 ≡ s = omega arith in rw (e, same, lt→ltb s (2 ^ 15) h) m

opposite_component :
    (fuel n m s : ℕ)
    → n ≤ 360
    → s < 10922
    → ((n ≤ 180) × (m ≡ 180 - n)) ⊎ ((180 < n) × (m ≡ 540 - n))
    → (c : ℤ) × (horizontal_component (suc fuel) (record { direction = n; speed = s }) ≡ some c)
      × (horizontal_component (suc fuel) (record { direction = m; speed = s }) ≡ some (neg c))
opposite_component fuel n m s h k side =
    let (c, e, e') = cosf32_about_y n m fuel h side in
    let (u, t, sm) = cosf32-small n fuel h in
    let both : some u ≡ some c = sym t ∙ e in
    let same : u ≡ c = cc in
    let (w, a, b) = mul_neg s c k (subst (λ z. small z ≡ true) same sm) in
    (
      w,
      component (suc fuel) n s c w e (omega arith) a,
      component (suc fuel) m s (neg c) (neg w) e' (omega arith) b,
    )

-- A velocity of at most 360 degrees, and of a speed below 10922, is reflected about the vertical axis
-- without a panic: its direction stays at most 360 degrees, its speed is the same, and its horizontal
-- component, which is an `i16` before and after, is the opposite.
pub reflect_about_y_axis_lem :
    (v : Velocity) (fuel : ℕ)
    → v.direction ≤ 360
    → v.speed < 10922
    → (v' : Velocity) × (c : ℤ) × (reflect_about_y_axis v ≡ some v')
      × (v'.direction ≤ 360)
      × (v'.speed ≡ v.speed)
      × (horizontal_component (suc fuel) v ≡ some c)
      × (horizontal_component (suc fuel) v' ≡ some (neg c))
unfolding reflect_about_y_axis
reflect_about_y_axis_lem v fuel h k = elim (dec_le v.direction 180) [
  | yes p ↦
      let (c, a, b) =
        opposite_component fuel v.direction (180 - v.direction) v.speed h k (inl (p, refl)) in
      (
        record v { direction = 180 - v.direction },
        c,
        rw (leb-true v.direction 180 p),
        omega arith,
        refl,
        a,
        b,
      )
  | no p ↦
      let (c, a, b) =
        opposite_component fuel v.direction (540 - v.direction) v.speed h k
          (inr (omega arith, refl)) in
      (
        record v { direction = 540 - v.direction },
        c,
        rw (leb-false v.direction 180 (omega arith), leb-true v.direction 360 h),
        omega arith,
        refl,
        a,
        b,
      )
]

vertical :
    (fuel d s : ℕ) (c w : ℤ)
    → sinf32 fuel d ≡ some c
    → s < 2 ^ 15
    → mul_i16 (pos s) c ≡ some w
    → vertical_component fuel (record { direction = d; speed = s }) ≡ some w
unfolding vertical_component
vertical fuel d s c w e h m =
    let same : s % 2 ^ 16 ≡ s = omega arith in rw (e, same, lt→ltb s (2 ^ 15) h) m

opposite_vertical :
    (v : Velocity) (fuel : ℕ)
    → v.direction ≤ 360
    → v.speed < 10922
    → is_askew v.direction ≡ false
    → (c : ℤ) × (vertical_component (suc fuel) v ≡ some c)
      × (vertical_component (suc fuel) (record v { direction = 360 - v.direction }) ≡ some (neg c))
opposite_vertical v fuel h k askew =
    let (c, e, e', sm) = sinf32_about_x v.direction fuel h askew in
    let (w, a, b) = mul_neg v.speed c k sm in
    (
      w,
      vertical (suc fuel) v.direction v.speed c w e (omega arith) a,
      vertical (suc fuel) (360 - v.direction) v.speed (neg c) (neg w) e' (omega arith) b,
    )

-- A velocity of at most 360 degrees, and of a speed below 10922, is reflected about the horizontal axis
-- without a panic, to 360 degrees less the direction and the same speed. That keeps the horizontal
-- component, and a second reflection gives the velocity back. The vertical component becomes its
-- opposite, if the direction is not from 46 to 59, 121 to 134, 226 to 239 or 301 to 314 degrees.
pub reflect_about_x_axis_lem :
    (v : Velocity) (fuel : ℕ)
    → v.direction ≤ 360
    → v.speed < 10922
    → (v' : Velocity) × (reflect_about_x_axis v ≡ some v')
      × (v'.direction ≡ 360 - v.direction)
      × (v'.speed ≡ v.speed)
      × (reflect_about_x_axis v' ≡ some v)
      × (horizontal_component (suc fuel) v' ≡ horizontal_component (suc fuel) v)
      × ((is_askew v.direction ≡ true)
          ⊎ ((c : ℤ) × (vertical_component (suc fuel) v ≡ some c)
              × (vertical_component (suc fuel) v' ≡ some (neg c))))
unfolding reflect_about_x_axis horizontal_component
reflect_about_x_axis_lem v fuel h k =
    let (c, e, e') = cosf32_about_x v.direction fuel h in
    let twice : 360 - (360 - v.direction) ≡ v.direction = omega arith in
    (
      record v { direction = 360 - v.direction },
      rw (leb-true v.direction 360 h),
      refl,
      refl,
      rw (leb-true (360 - v.direction) 360 (omega arith), twice),
      rw (e, e'),
      elim (Bool-cases (is_askew v.direction)) [
        | inl askew ↦ inl askew
        | inr straight ↦ inr (opposite_vertical v fuel h k straight)
      ],
    )
