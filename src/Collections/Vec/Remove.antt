-- ===== src/Collections/Vec/Remove.antt =====
-- collections/src/vec.rs: removal by shifting, and equality.
use bare_metal_blasterball.Base.{
  ℕ, suc, ◌+◌, ◌-◌, ◌≤◌, ◌≡◌, refl, sym, ◌∙◌, Bool, true, Option, none, some, List, [], ◌∷◌, ◌++◌,
  map, length, length-append, length-map, arith, leb-true, leb-false,
}
use mathlib.Core.List.{append_assoc, map-append}
use bare_metal_blasterball.Collections.Interface.{read_cell}
use bare_metal_blasterball.Collections.Vec.Defs.{Vec, shift_items, remove, vec_eq}
use bare_metal_blasterball.Collections.Vec.Refine.{Represents, read_at, write_at}

module _ {ℓ} {T : Type ℓ} where
  -- What the cell before the shifted ones holds in the end: the last item of all.
  abbrev last_of : T → List T → T
  last_of x [] = x
  last_of x (y ∷ ys) = last_of y ys

  -- Shifting the items of `ys` down by one overwrites the cell before them.
  shift_items_lem :
      (before : List (Option T)) (x : T) (ys : List T) (after : List (Option T)) (i : ℕ)
      → i ≡ suc (length before)
      → shift_items (length ys) i (before ++ (some x ∷ (map some ys ++ after)))
        ≡ some (before ++ (map some ys ++ (some (last_of x ys) ∷ after)))
  unfolding shift_items
  shift_items_lem before x [] after i e = refl
  shift_items_lem before x (y ∷ ys) after i e =
      let further =
        shift_items_lem (before ++ (some y ∷ [])) y ys after (suc i)
          (omega (arith, e, length-append before (some y ∷ []))) in
      rw
        (
          read_second before x y (map some ys ++ after) i e,
          write_at before (some x) (some y ∷ (map some ys ++ after)) (i - 1) y (omega (arith, e)),
        )
        (rw (append_assoc, append_assoc) at further)
    where
      read_second :
          (before : List (Option T)) (x y : T) (after : List (Option T)) (i : ℕ)
          → i ≡ suc (length before)
          → read_cell (before ++ (some x ∷ some y ∷ after)) i ≡ some y
      read_second before x y after i e = rw append_assoc at (
          read_at (before ++ (some x ∷ [])) y after i
            (omega (arith, e, length-append before (some x ∷ []))))

  -- `remove` of an index in range returns the item there and moves every later one down by one
  -- place, so that the others keep their order.
  pub remove_lem :
      (v : Vec T) (xs : List T) (x : T) (ys : List T) (rest : List (Option T))
      → Represents v (xs ++ (x ∷ ys)) rest
      → (v' : Vec T) × (remove v (length xs) ≡ some (x, v'))
        × Represents v' (xs ++ ys) (some (last_of x ys) ∷ rest)
        × (v'.capacity ≡ v.capacity)
  unfolding remove
  remove_lem v xs x ys rest r =
      let n : v.len ≡ length xs + suc (length ys) =
        omega (arith, r.counted, length-append xs (x ∷ ys)) in
      let rounds : v.len - (length xs + 1) ≡ length ys = omega (arith, n) in
      let cells : v.cells ≡ map some xs ++ (some x ∷ (map some ys ++ rest)) =
        r.laid_out ∙ split_cells in
      let after = map some xs ++ (map some ys ++ (some (last_of x ys) ∷ rest)) in
      (
        record v { len = v.len - 1; cells = after },
        rw (leb-false v.len (length xs) (omega (arith, n)), rounds, cells)
            (rw (
              read_at (map some xs) x (map some ys ++ rest) (length xs) (sym (length-map some xs)),
              shift_items_lem (map some xs) x ys rest (length xs + 1)
                  (omega (arith, length-map some xs)),
            )),
        record {
          counted = omega (arith, n, length-append xs ys);
          laid_out = simp (map-append, append_assoc);
          sized = omega (arith, r.sized, length-append xs ys, length-append xs (x ∷ ys));
        },
        refl,
      )
    where
      split_cells :
          map some (xs ++ (x ∷ ys)) ++ rest ≡ map some xs ++ (some x ∷ (map some ys ++ rest))
      split_cells = simp (map-append, append_assoc)

  -- `remove` panics at every index past the last item.
  pub remove_panics :
      (v : Vec T) (xs : List T) (rest : List (Option T)) (idx : ℕ)
      → Represents v xs rest
      → length xs ≤ idx
      → remove v idx ≡ none
  unfolding remove
  remove_panics v xs rest idx r h = rw (leb-true v.len idx (omega (arith, r.counted)))

  -- `==` looks at no item past the end of the shorter vector: a vector equals each one that it
  -- begins, whatever follows.
  pub vec_eq_append :
      (eq : T → T → Bool) (xs ys : List T)
      → ((x : T) → eq x x ≡ true)
      → vec_eq eq xs (xs ++ ys) ≡ true
  unfolding vec_eq
  vec_eq_append eq [] [] h = refl
  vec_eq_append eq [] (y ∷ ys) h = refl
  vec_eq_append eq (x ∷ xs) ys h = rw (h x) (vec_eq_append eq xs ys h)
