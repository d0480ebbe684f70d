-- ===== src/Sync/Mutex/Progress.antt =====
-- sync/src/mutex.rs: a thread that waits for the lock.
use bare_metal_blasterball.Base.{
  ℕ, ◌≡◌, ◌≢◌, ◌⊎◌, inl, inr, refl, sym, ap, ◌∙◌, Bool, true, false, Bool-cases,
}
use bare_metal_blasterball.Sync.Threads.{update_self, update_ne}
use bare_metal_blasterball.Sync.Mutex.Defs.{
  Mutex, spinning, guarded, deadlocked, Choice, call_lock, call_try_lock, round, write, release,
  lock_round, drop_guard, act, System, step, Reach,
}
use bare_metal_blasterball.Sync.Mutex.Safety.{holds-guarded, not_spinning, Reach-Inv}

module _ {ℓ} {T : Type ℓ} where
  free_round :
      (s : System T) (i : ℕ)
      → s.place i ≡ spinning
      → s.mutex.lock ≡ false
      → (step i (round false) s).place i ≡ guarded
  unfolding step act lock_round
  free_round s i h free = update_self s.place i _ ∙ rw (h, free)

  other_place : (s : System T) (j i : ℕ) (c : Choice T) → i ≢ j → (step j c s).place i ≡ s.place i
  unfolding step
  other_place s j i c ne = update_ne s.place j _ i ne

  released : (s : System T) (j : ℕ) → s.place j ≡ guarded → (step j release s).mutex.lock ≡ false
  unfolding step act drop_guard
  released s j h = rw h

  deadlocked_act :
      (c : Choice T) (v : T) (l : Bool)
      → let m : Mutex T = record { value = v; lock = l } in
        m.lock ≡ true → ((act c deadlocked m).0 ≡ m) × ((act c deadlocked m).1 ≡ deadlocked)
  unfolding act lock_round
  deadlocked_act c v false h = absurd cc
  deadlocked_act call_lock v true h = (refl, refl)
  deadlocked_act call_try_lock v true h = (refl, refl)
  deadlocked_act (round true) v true h = (refl, refl)
  deadlocked_act (round false) v true h = (refl, refl)
  deadlocked_act (write w) v true h = (refl, refl)
  deadlocked_act release v true h = (refl, refl)

  stuck :
      (s : System T) (j : ℕ) (c : Choice T)
      → s.place j ≡ deadlocked
      → s.mutex.lock ≡ true
      → ((step j c s).mutex ≡ s.mutex) × ((step j c s).place j ≡ deadlocked)
  unfolding step
  stuck s j c h set =
      let (same, there) = deadlocked_act c s.mutex.value s.mutex.lock set in
      (
        ap (λ p. (act c p s.mutex).0) h ∙ same,
        update_self s.place j _ ∙ ap (λ p. (act c p s.mutex).1) h ∙ there,
      )

  -- A thread in the loop of `lock` leaves it with a guard in its next round, if that round does not
  -- fail for no reason; or another thread holds a guard. That one is not in a function of the mutex, and
  -- after it has dropped the guard the waiting thread's next such round ends the loop; or it has called
  -- `lock` itself, and then no step of its own changes the mutex or ends its wait.
  pub lock_progress :
      {v : T} {s : System T} (i : ℕ)
      → Reach v s
      → s.place i ≡ spinning
      → ((step i (round false) s).place i ≡ guarded)
        ⊎ ((j : ℕ) × (j ≢ i)
            × (((s.place j ≡ guarded)
                  × ((step i (round false) (step j release s)).place i ≡ guarded))
                ⊎ ((s.place j ≡ deadlocked)
                    × ((c : Choice T)
                        → ((step j c s).mutex ≡ s.mutex) × ((step j c s).place j ≡ deadlocked)))))
  lock_progress {s} i r h = elim (Bool-cases s.mutex.lock) [
    | inl set ↦
        (let (j, e) = (Reach-Inv r).held set in
          let ne : j ≢ i = (λ same. not_spinning (s.place j) e (ap s.place same ∙ h)) in
          let ne' : i ≢ j = (λ same. ne (sym same)) in
          inr (
            j,
            ne,
            elim (holds-guarded (s.place j) e) [
              | inl g ↦ inl (
                g,
                free_round (step j release s) i (other_place s j i release ne' ∙ h)
                    (released s j g),
              )
              | inr d ↦ inr (d, λ c. stuck s j c d set)
            ],
          ))
    | inr free ↦ inl (free_round s i h free)
  ]
