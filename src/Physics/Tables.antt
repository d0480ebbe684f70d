-- ===== src/Physics/Tables.antt =====
-- num/src/lib.rs: every angle has a value, and the values of angles that mirror each other.
use bare_metal_blasterball.Base.{
  ℕ, suc, ◌+◌, ◌-◌, ◌%◌, ◌≤◌, ◌<◌, ◌≡◌, refl, sym, ap, ◌∙◌, Bool, true, false, ◌&&◌, ◌||◌, Option,
  none, some, List, [], ◌∷◌, ◌==◌, leb, arith, ℤ, pos, negsuc, neg, all_below, all_below_sound,
  dec_le, &&-eq_true, ==_iff, leb→le, inl, inr, ◌⊎◌, leb-false, ℕ_discrete,
}
use bare_metal_blasterball.Physics.Angles.{match_angle, sin_arms, cos_arms, sinf32, cosf32}

-- Boolean equality of the values of two angles
abbrev same_value : Option ℤ → Option ℤ → Bool
same_value (some (pos m)) (some (pos n)) = m == n
same_value (some (negsuc m)) (some (negsuc n)) = m == n
same_value _ _ = false

abbrev opposite : Option ℤ → Option ℤ
opposite none = none
opposite (some v) = some (neg v)

same_value_sound : (a b : Option ℤ) → same_value a b ≡ true → (v : ℤ) × (a ≡ some v) × (b ≡ some v)
same_value_sound (some (pos m)) (some (pos n)) h =
    (pos m, refl, ap (λ k. some (pos k)) (sym ((==_iff m n).0 h)))
same_value_sound (some (negsuc m)) (some (negsuc n)) h =
    (negsuc m, refl, ap (λ k. some (negsuc k)) (sym ((==_iff m n).0 h)))
same_value_sound _ _ h = cc

abbrev has_value : Option ℤ → Bool
has_value none = false
has_value (some v) = true

has_value_sound : (o : Option ℤ) → has_value o ≡ true → (v : ℤ) × (o ≡ some v)
has_value_sound none h = cc
has_value_sound (some v) h = (v, refl)

sin_total : all_below 361 (λ n. has_value (match_angle sin_arms n)) ≡ true
unfolding match_angle
sin_total = refl

cos_total : all_below 361 (λ n. has_value (match_angle cos_arms n)) ≡ true
unfolding match_angle
cos_total = refl

cos_about_x :
    all_below 361 (λ n. same_value (match_angle cos_arms n) (match_angle cos_arms (360 - n))) ≡ true
unfolding match_angle
cos_about_x = refl

cos_about_y_up :
    all_below 181
      (λ n. same_value (match_angle cos_arms (180 - n)) (opposite (match_angle cos_arms n)))
    ≡ true
unfolding match_angle
cos_about_y_up = refl

cos_about_y_down :
    all_below 180 (λ k.
      same_value
        (match_angle cos_arms (540 - (181 + k)))
        (opposite (match_angle cos_arms (181 + k))))
    ≡ true
unfolding match_angle
cos_about_y_down = refl

sin_about_y_up :
    all_below 181 (λ n. same_value (match_angle sin_arms (180 - n)) (match_angle sin_arms n)) ≡ true
unfolding match_angle
sin_about_y_up = refl

-- The values are from -3 to 3.
abbrev pub small : ℤ → Bool
small (pos n) = leb n 3
small (negsuc n) = leb n 2

abbrev has_small : Option ℤ → Bool
has_small none = false
has_small (some v) = small v

cos_small : all_below 361 (λ n. has_small (match_angle cos_arms n)) ≡ true
unfolding match_angle
cos_small = refl

has_small_sound : (o : Option ℤ) (v : ℤ) → o ≡ some v → has_small o ≡ true → small v ≡ true
has_small_sound none v e h = cc
has_small_sound (some w) v e h = cc

abbrev Past : (arms : List (ℕ × ℕ × ℤ)) (n : ℕ) → Type 0
Past [] n = Unit
Past ((lo, hi, v) ∷ arms) n = (hi < n) × Past arms n

cos-of : (n fuel : ℕ) (v : ℤ) → match_angle cos_arms n ≡ some v → cosf32 (suc fuel) n ≡ some v
unfolding cosf32
cos-of n fuel v e = rw (cosf32, e)

sin-of : (n fuel : ℕ) (v : ℤ) → match_angle sin_arms n ≡ some v → sinf32 (suc fuel) n ≡ some v
unfolding sinf32
sin-of n fuel v e = rw (sinf32, e)

sin-past :
    (n fuel : ℕ) → match_angle sin_arms n ≡ none → sinf32 (suc fuel) n ≡ sinf32 fuel (n % 360)
unfolding sinf32
sin-past n fuel e = rw (sinf32, e)

in_table :
    (n fuel : ℕ)
    → n < 361
    → (v : ℤ) × (cosf32 (suc fuel) n ≡ some v) × (match_angle cos_arms n ≡ some v)
in_table n fuel h =
    let (v, e) =
      has_value_sound (match_angle cos_arms n)
        (all_below_sound 361 (λ k. has_value (match_angle cos_arms k)) n cos_total h) in
    (v, cos-of n fuel v e, e)

-- At an angle of at most 360 degrees `cosf32` returns a whole number from -3 to 3.
pub cosf32-small :
    (n fuel : ℕ) → n ≤ 360 → (v : ℤ) × (cosf32 (suc fuel) n ≡ some v) × (small v ≡ true)
cosf32-small n fuel h =
    let (v, e, t) = in_table n fuel (omega arith) in
    (
      v,
      e,
      has_small_sound (match_angle cos_arms n) v t
          (all_below_sound 361 (λ k. has_small (match_angle cos_arms k)) n cos_small (omega arith)),
    )

-- The mirror image at the vertical axis of an angle of at most 360 degrees has the opposite value.
pub cosf32_about_y :
    (n m fuel : ℕ)
    → n ≤ 360
    → ((n ≤ 180) × (m ≡ 180 - n)) ⊎ ((180 < n) × (m ≡ 540 - n))
    → (v : ℤ) × (cosf32 (suc fuel) n ≡ some v) × (cosf32 (suc fuel) m ≡ some (neg v))
cosf32_about_y n m fuel h (inl (p, e)) =
    let (v, t, k) = in_table n fuel (omega arith) in
    let (w, a, b) =
      same_value_sound (match_angle cos_arms (180 - n)) (opposite (match_angle cos_arms n)) (
        all_below_sound 181
          (λ k. same_value (match_angle cos_arms (180 - k)) (opposite (match_angle cos_arms k))) n
          cos_about_y_up (omega arith)) in
    let both : some (neg v) ≡ some w = rw k at b in
    (v, t, ap (λ k. cosf32 (suc fuel) k) e ∙ cos-of (180 - n) fuel (neg v) (a ∙ sym both))
cosf32_about_y n m fuel h (inr (p, e)) =
    let (v, t, k) = in_table n fuel (omega arith) in
    let back : 181 + (n - 181) ≡ n = omega arith in
    let (w, a, b) =
      same_value_sound (match_angle cos_arms (540 - (181 + (n - 181))))
        (opposite (match_angle cos_arms (181 + (n - 181))))
        (all_below_sound 180
          (λ k.
            same_value (match_angle cos_arms (540 - (181 + k)))
              (opposite (match_angle cos_arms (181 + k))))
          (n - 181) cos_about_y_down (omega arith)) in
    let both : some (neg v) ≡ some w = rw (back, k) at b in
    (
      v,
      t,
      ap (λ k. cosf32 (suc fuel) k) e ∙ cos-of (540 - n) fuel (neg v) ((rw back at a) ∙ sym both),
    )

-- The mirror image at the horizontal axis of an angle of at most 360 degrees has the same value.
pub cosf32_about_x :
    (n fuel : ℕ)
    → n ≤ 360
    → (v : ℤ) × (cosf32 (suc fuel) n ≡ some v) × (cosf32 (suc fuel) (360 - n) ≡ some v)
cosf32_about_x n fuel h =
    let (w, a, b) = same_value_sound (match_angle cos_arms n) (match_angle cos_arms (360 - n)) (
      all_below_sound 361
        (λ k. same_value (match_angle cos_arms k) (match_angle cos_arms (360 - k))) n cos_about_x
        (omega arith)) in
    (w, cos-of n fuel w a, cos-of (360 - n) fuel w b)

Past-none : (arms : List (ℕ × ℕ × ℤ)) (n : ℕ) → Past arms n → match_angle arms n ≡ none
unfolding match_angle
Past-none [] n h = refl
Past-none ((lo, hi, v) ∷ arms) n (h, t) =
    rw (leb-false n hi h, &&-false (leb lo n)) (Past-none arms n t)
  where
    &&-false : (b : Bool) → (b && false) ≡ false
    &&-false true = refl
    &&-false false = refl

abbrev under_360 : (arms : List (ℕ × ℕ × ℤ)) → Bool
under_360 [] = true
under_360 ((lo, hi, v) ∷ arms) = leb hi 360 && under_360 arms

under_360_sound : (arms : List (ℕ × ℕ × ℤ)) (n : ℕ) → under_360 arms ≡ true → 360 < n → Past arms n
under_360_sound [] n u h = tt
under_360_sound ((lo, hi, v) ∷ arms) n u h =
    let (first, later) = &&-eq_true (leb hi 360) (under_360 arms) u in
    (omega (arith, leb→le hi 360 first), under_360_sound arms n later h)

sin_360 : match_angle sin_arms 360 ≡ match_angle sin_arms 0
unfolding match_angle
sin_360 = refl

sin_under : under_360 sin_arms ≡ true
sin_under = refl

-- With fuel for two rounds `sinf32` returns a number on every angle, the one that one round returns
-- on the remainder of the angle by 360.
pub sinf32_period :
    (n fuel : ℕ) → (v : ℤ) × (sinf32 (suc (suc fuel)) n ≡ some v) × (sinf32 1 (n % 360) ≡ some v)
sinf32_period n fuel =
    let (v, e) = has_value_sound (match_angle sin_arms (n % 360)) (
      all_below_sound 361 (λ k. has_value (match_angle sin_arms k)) (n % 360) sin_total
        (omega arith)) in
    elim (dec_le n 359) [
      | yes h ↦
          let same : n % 360 ≡ n = omega arith in
          (
            v,
            sin-of n (suc fuel) v (ap (λ k. match_angle sin_arms k) (sym same) ∙ e),
            sin-of (n % 360) 0 v e,
          )
      | no h ↦ elim (ℕ_discrete n 360) [
        | yes p ↦
            let r : n % 360 ≡ 0 = omega arith in
            (
              v,
              sin-of n (suc fuel) v (
                  ap (λ k. match_angle sin_arms k) p
                  ∙ sin_360
                  ∙ ap (λ k. match_angle sin_arms k) (sym r)
                  ∙ e),
              sin-of (n % 360) 0 v e,
            )
        | no p ↦ (
          v,
          sin-past n (suc fuel)
                (Past-none sin_arms n (under_360_sound sin_arms n sin_under (omega arith)))
              ∙ sin-of (n % 360) fuel v e,
          sin-of (n % 360) 0 v e,
        )
      ]
    ]

-- The angles at which the table of the sine is not the one of the mirror image with the sign changed.
abbrev pub is_askew : ℕ → Bool
is_askew n =
    (leb 46 n && leb n 59)
    || (leb 121 n && leb n 134)
    || (leb 226 n && leb n 239)
    || (leb 301 n && leb n 314)

sin_about_x :
    all_below 361 (λ n.
      is_askew n || same_value (match_angle sin_arms (360 - n)) (opposite (match_angle sin_arms n)))
    ≡ true
unfolding match_angle
sin_about_x = refl

sin_small : all_below 361 (λ n. has_small (match_angle sin_arms n)) ≡ true
unfolding match_angle
sin_small = refl

-- The mirror image at the horizontal axis of an angle of at most 360 degrees has the opposite sine, a number
-- from -3 to 3, but at the angles where the table is askew.
pub sinf32_about_x :
    (n fuel : ℕ)
    → n ≤ 360
    → is_askew n ≡ false
    → (v : ℤ) × (sinf32 (suc fuel) n ≡ some v)
      × (sinf32 (suc fuel) (360 - n) ≡ some (neg v))
      × (small v ≡ true)
sinf32_about_x n fuel h k =
    let (v, e) =
      has_value_sound (match_angle sin_arms n)
        (all_below_sound 361 (λ j. has_value (match_angle sin_arms j)) n sin_total (omega arith)) in
    let tested =
      all_below_sound 361
        (λ j.
          is_askew j
          || same_value (match_angle sin_arms (360 - j)) (opposite (match_angle sin_arms j)))
        n sin_about_x (omega arith) in
    let (w, a, b) =
      same_value_sound (match_angle sin_arms (360 - n)) (opposite (match_angle sin_arms n))
        (rw k at tested) in
    let both : some (neg v) ≡ some w = rw e at b in
    (
      v,
      sin-of n fuel v e,
      sin-of (360 - n) fuel (neg v) (a ∙ sym both),
      has_small_sound (match_angle sin_arms n) v e
          (all_below_sound 361 (λ j. has_small (match_angle sin_arms j)) n sin_small (omega arith)),
    )
