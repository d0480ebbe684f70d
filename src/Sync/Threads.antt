-- ===== src/Sync/Threads.antt =====
-- The places of the threads in the code that they run, as a function from a thread's number.
use bare_metal_blasterball.Base.{
  ℕ, ◌≡◌, ◌≢◌, Bool, true, false, ◌==◌, if◌then◌else◌, ==_true, ==_false, refl, ℕ_discrete, sym,
  ◌∙◌, ap,
}

module _ {ℓ} {P : Type ℓ} where
  unfoldable pub update : (ℕ → P) → ℕ → P → ℕ → P
  update place i p j = if j == i then p else place j

  pub update_self : (place : ℕ → P) (i : ℕ) (p : P) → update place i p i ≡ p
  unfolding update
  update_self place i p = rw (==_true i i refl)

  pub update_ne : (place : ℕ → P) (i : ℕ) (p : P) (j : ℕ) → j ≢ i → update place i p j ≡ place j
  unfolding update
  update_ne place i p j ne = rw (==_false j i ne)

  -- What holds of the new place, and of all places of other threads, holds everywhere.
  pub update_all {κ} :
      (Q : P → Type κ) (place : ℕ → P) (i : ℕ) (p : P)
      → Q p
      → ((j : ℕ) → j ≢ i → Q (place j))
      → (j : ℕ) → Q (update place i p j)
  update_all Q place i p own others j = elim (ℕ_discrete j i) [
    | yes e ↦ rw (e, update_self place i p) own
    | no ne ↦ rw (update_ne place i p j ne) (others j ne)
  ]

  -- One thread at most passes a test, if the thread that moves passes it only where it did before or
  -- where no other one does.
  pub update_unique :
      (test : P → Bool) (place : ℕ → P) (i : ℕ) (p : P)
      → ((j k : ℕ) → test (place j) ≡ true → test (place k) ≡ true → j ≡ k)
      → (test p ≡ true → (j : ℕ) → j ≢ i → test (place j) ≡ false)
      → (j k : ℕ) → test (update place i p j) ≡ true
      → test (update place i p k) ≡ true
      → j ≡ k
  update_unique test place i p unique alone j k hj hk = elim (ℕ_discrete j i) [
    | yes e ↦ elim (ℕ_discrete k i) [
      | yes e' ↦ e ∙ sym e'
      | no ne ↦ (let f = alone (subst_self j e hj) k ne in let h = other k ne hk in absurd cc)
    ]
    | no ne ↦ elim (ℕ_discrete k i) [
      | yes e' ↦ (let f = alone (subst_self k e' hk) j ne in let h = other j ne hj in absurd cc)
      | no ne' ↦ unique j k (other j ne hj) (other k ne' hk)
    ]
  ]
    where
      other : (m : ℕ) → m ≢ i → test (update place i p m) ≡ true → test (place m) ≡ true
      other m ne h = sym (ap test (update_ne place i p m ne)) ∙ h

      subst_self : (m : ℕ) → m ≡ i → test (update place i p m) ≡ true → test p ≡ true
      subst_self m e h =
          sym (ap (λ x. test (update place i p x)) e ∙ ap test (update_self place i p)) ∙ h
