-- ===== src/Collections/Queue/Window.antt =====
-- collections/src/queue.rs: the cells from the front on, going round at the end of the block.
use bare_metal_blasterball.Base.{
  ℕ, zero, suc, ◌+◌, ◌≤◌, ◌<◌, ◌≡◌, refl, ◌≢◌, Option, some, List, [], ◌∷◌, ◌++◌, length, get_elem?,
  set, get_elem?-set_self, get_elem?-set_ne, arith, ◌⊎◌, ◌∙◌,
}
use bare_metal_blasterball.Collections.Queue.Defs.{next}

-- The offset `n` places after `h`.
abbrev pub advance : ℕ → ℕ → ℕ → ℕ
advance size h zero = h
advance size h (suc n) = advance size (next size h) n

pub next-lt : (size h : ℕ) → h < size → next size h < size
next-lt size h p = ground arith

pub next-advance : (size h n : ℕ) → next size (advance size h n) ≡ advance size h (suc n)
next-advance size h zero = refl
next-advance size h (suc n) = next-advance size (next size h) n

pub advance-lt : (size h n : ℕ) → h < size → advance size h n < size
advance-lt size h zero p = p
advance-lt size h (suc n) p = advance-lt size (next size h) n (next-lt size h p)

-- Fewer than two rounds: one turn at the end at most.
pub advance_lem :
    (size h n : ℕ)
    → h < size
    → n ≤ size
    → ((advance size h n ≡ h + n) × (h + n < size)) ⊎ (advance size h n + size ≡ h + n)
advance_lem size h zero p q = omega arith
advance_lem size h (suc n) p q = ground (arith, advance_lem size (next size h) n (next-lt size h p))

pub advance-ne : (size h n : ℕ) → h < size → 0 < n → n < size → advance size h n ≢ h
advance-ne size h n p q r = omega (arith, advance_lem size h n p)

module _ {ℓ} {T : Type ℓ} where
  -- From `h` on the cells hold the items of the list, in order.
  abbrev pub Holds : List (Option T) → ℕ → ℕ → List T → Type ℓ
  Holds cells size h [] = Unit
  Holds cells size h (x ∷ xs) =
      (get_elem? cells h ≡ some (some x)) × Holds cells size (next size h) xs

  -- Writing the cell after the last item appends that item.
  pub Holds-set :
      (cells : List (Option T)) (size h : ℕ) (xs : List T) (v : T)
      → size ≡ length cells
      → h < size
      → length xs < size
      → Holds cells size h xs
      → Holds (set cells (advance size h (length xs)) (some v)) size h (xs ++ (v ∷ []))
  Holds-set cells size h [] v e p q hold = (get_elem?-set_self cells h (some v) (omega arith), tt)
  Holds-set cells size h (x ∷ xs) v e p q (here, later) = (
    get_elem?-set_ne cells (some v) (advance-ne size h (suc (length xs)) p (omega arith) q) ∙ here,
    Holds-set cells size (next size h) xs v e (next-lt size h p) (omega arith) later,
  )
