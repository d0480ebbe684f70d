-- ===== src/Base/Results.antt =====
-- Rust's `Result`, and the sequence of replies of a component that is fed inputs one by one.
use mathlib.Core.Option.{Option, none, some}
use mathlib.Core.Path.{◌≡◌, refl}
use mathlib.Core.List.{List, [], ◌∷◌}

pub data Result {ℓ κ} (A : Type ℓ) (E : Type κ) : Type (ℓ ⊔ κ) where
  ok : A → Result A E
  err : E → Result A E

-- Feeding a list of inputs to a handler that may panic: the last state, and the replies in order.
module _ {ℓ} {S I O : Type ℓ} (step : S → I → Option (S × O)) where
  abbrev pub after : Option (S × O) → (S → Option (S × List O)) → Option (S × List O)
  after none rest = none
  after (some (s, o)) rest = elim (rest s) [ none ↦ none | some (t, os) ↦ some (t, o ∷ os) ]

  unfoldable pub run : List I → S → Option (S × List O)
  run [] s = some (s, [])
  run (i ∷ is) s = after (step s i) (run is)

  pub run-step :
      (is : List I) {s t u : S} {i : I} {o : O} {os : List O}
      → step s i ≡ some (t, o)
      → run is t ≡ some (u, os)
      → run (i ∷ is) s ≡ some (u, o ∷ os)
  unfolding run
  run-step is h k = rw (h, k)

  pub run_nil : (s : S) → run [] s ≡ some (s, [])
  unfolding run
  run_nil s = refl
