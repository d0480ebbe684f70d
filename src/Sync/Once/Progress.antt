-- ===== src/Sync/Once/Progress.antt =====
-- sync/src/once.rs: a thread that waits in `poll` does not wait in vain.
use bare_metal_blasterball.Base.{
  ℕ, ◌≡◌, ◌≢◌, ◌⊎◌, inl, inr, refl, sym, ap, ◌∙◌, Bool, true, false, Bool-cases, Result, Option,
  none, some, ok, err, arith, ℕ_discrete,
}
use bare_metal_blasterball.Sync.Threads.{update_self, update_ne}
use bare_metal_blasterball.Sync.Once.Defs.{
  OnceStatus, complete, running, incomplete, panicked, status_no, Once, Choice, returns, panics,
  Place, outside, calling, failed, computed, written, polling, aborted, gets, force_get, act, call,
  System, step, start, Reach, poll_round,
}
use bare_metal_blasterball.Sync.Once.Local.{owns}
use bare_metal_blasterball.Sync.Once.Safety.{start-Inv, Reach-Inv}

abbrev is_aborted {ℓ κ} : {T : Type ℓ} {E : Type κ} → Place T E → Bool
is_aborted aborted = true
is_aborted _ = false

aborted_place {ℓ κ} : {T : Type ℓ} {E : Type κ} (p : Place T E) → is_aborted p ≡ true → p ≡ aborted
aborted_place aborted h = refl
aborted_place outside h = absurd cc
aborted_place p h = absurd cc

abbrev is_polling {ℓ κ} : {T : Type ℓ} {E : Type κ} → Place T E → Bool
is_polling polling = true
is_polling _ = false

status-eq : (s : OnceStatus) → status_no s ≡ status_no running → s ≡ running
status-eq running h = refl
status-eq complete h = absurd (omega (arith, h))
status-eq incomplete h = absurd (omega (arith, h))
status-eq panicked h = absurd (omega (arith, h))

complete-not_running : status_no complete ≢ status_no running
complete-not_running e = omega (arith, e)

incomplete-not_running : status_no incomplete ≢ status_no running
incomplete-not_running e = omega (arith, e)

poll_ends {ℓ κ} :
    {T : Type ℓ} (E : Type κ) (s : OnceStatus) (v : Option T)
    → status_no s ≢ status_no running
    → is_polling (poll_round {T = T} {E = E} (record { status = s; value = v })) ≡ false
unfolding poll_round force_get
poll_ends E complete none h = refl
poll_ends E complete (some v) h = refl
poll_ends E running v h = absurd (h refl)
poll_ends E incomplete v h = refl
poll_ends E panicked v h = refl

module _ {ℓ κ} {T : Type ℓ} {E : Type κ} where
  settle_written :
      (c : Choice T E) (v : Option T)
      → (let o : Once T = record { status = complete; value = v } in
          status_no (act c (force_get o) o).0.status ≢ status_no running)
  unfolding act force_get
  settle_written (returns r) none = complete-not_running
  settle_written (returns r) (some v) = complete-not_running
  settle_written panics none = complete-not_running
  settle_written panics (some v) = complete-not_running
  settle_written gets none = complete-not_running
  settle_written gets (some v) = complete-not_running

  -- Three accesses of an owner give the status up, if `f` has not panicked and returns in the first of them.
  settle :
      (r : Result T E) (p : Place T E) (o : Once T)
      → owns p ≡ true
      → is_aborted p ≡ false
      → (let (o1, p1) = act (returns r) p o in
          let (o2, p2) = act (returns r) p1 o1 in
          status_no (act (returns r) p2 o2).0.status ≢ status_no running)
  unfolding act call force_get
  settle (ok v) calling o h k = complete-not_running
  settle (err e) calling o h k = incomplete-not_running
  settle r (failed e) o h k = incomplete-not_running
  settle r (computed v) o h k = complete-not_running
  settle r written o h k = settle_written (returns r) o.value
  settle r aborted o h k = absurd cc
  settle r outside o h k = absurd cc
  settle r p o h k = absurd cc

  step_place :
      (j : ℕ) (c : Choice T E) (s : System T E)
      → (step j c s).place j ≡ (act c (s.place j) s.once).1
  unfolding step
  step_place j c s = update_self s.place j _

  step_once :
      (j : ℕ) (c : Choice T E) (s : System T E) → (step j c s).once ≡ (act c (s.place j) s.once).0
  unfolding step
  step_once j c s = refl

  -- A round of `poll` where the status is not `Running`
  leave :
      (s : System T E) (i : ℕ) (c : Choice T E)
      → s.place i ≡ polling
      → status_no s.once.status ≢ status_no running
      → (step i c s).place i ≢ polling
  unfolding act
  leave s i c h k e =
      let there = step_place i c s ∙ ap (λ p. (act c p s.once).1) h in
      let f = ap is_polling (sym there ∙ e) in
      let g = poll_ends E s.once.status s.once.value k in cc

  settled :
      (j : ℕ) (r : Result T E) (s : System T E)
      → owns (s.place j) ≡ true
      → is_aborted (s.place j) ≡ false
      → (let c : Choice T E = returns r in
          status_no (step j c (step j c (step j c s))).once.status ≢ status_no running)
  settled j r s h k =
      let c : Choice T E = returns r in
      rw
        (
          step_once j c (step j c (step j c s)),
          step_place j c (step j c s),
          step_once j c (step j c s),
          step_place j c s,
          step_once j c s,
        )
        (settle r (s.place j) s.once h k)

  stays : (i j : ℕ) (c : Choice T E) (s : System T E) → i ≢ j → (step j c s).place i ≡ s.place i
  unfolding step
  stays i j c s ne = update_ne s.place j _ i ne

  -- What becomes of the wait of thread `i` for thread `j`: the initializer has panicked in `j`, or after
  -- three accesses of `j` the next round ends the wait.
  abbrev pub Frees : ℕ → ℕ → Result T E → System T E → Type (ℓ ⊔ κ)
  Frees i j r s =
      (s.place j ≡ aborted)
      ⊎ ((step i (returns r) (step j (returns r) (step j (returns r) (step j (returns r) s)))).place
            i
          ≢ polling)

  -- A thread that waits in `poll` ends its wait in its next round, or some thread has set `Running` and
  -- not yet another status. If the initializer has not panicked in that thread, and returns in the
  -- thread's next access if it is still at it, then after three accesses of that thread the next round
  -- of `poll` ends the wait.
  pub poll_progress :
      {s : System T E} (i : ℕ) (r : Result T E)
      → Reach start s
      → s.place i ≡ polling
      → ((step i (returns r) s).place i ≢ polling)
        ⊎ ((j : ℕ) × (owns (s.place j) ≡ true) × Frees i j r s)
  poll_progress {s} i r h k = elim (ℕ_discrete (status_no s.once.status) (status_no running)) [
    | yes e ↦
        (let (j, own) = (Reach-Inv start-Inv h).covered (status-eq s.once.status e) in
          let ne : i ≢ j = (λ same. not_owner s i j k own same) in
          let c : Choice T E = returns r in
          let after = step j c (step j c (step j c s)) in
          inr (
            j,
            own,
            elim (Bool-cases (is_aborted (s.place j))) [
              | inl gone ↦ inl (aborted_place (s.place j) gone)
              | inr alive ↦ inr (
                  leave after i c (stays i j c _ ne ∙ stays i j c _ ne ∙ stays i j c s ne ∙ k)
                    (settled j r s own alive))
            ],
          ))
    | no ne ↦ inl (leave s i (returns r) k ne)
  ]
    where
      not_owner : (s : System T E) (i j : ℕ) → s.place i ≡ polling → owns (s.place j) ≡ true → i ≢ j
      not_owner s i j h own same =
          let f = ap (λ x. owns (s.place x)) same in let g = ap owns h in cc
