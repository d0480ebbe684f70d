-- ===== src/Sync/Once/Safety.antt =====
-- sync/src/once.rs: what holds in every state that threads reach.
use bare_metal_blasterball.Base.{
  ℕ, ◌≡◌, ◌≢◌, ◌⊎◌, inl, inr, refl, sym, ap, ◌∙◌, subst, true, false, Bool-cases, some, ok, arith,
}
use bare_metal_blasterball.Sync.Threads.{update, update_self, update_ne, update_all, update_unique}
use bare_metal_blasterball.Sync.Once.Defs.{
  complete, running, incomplete, status_no, Once, Choice, Place, calling, matched, returned,
  undefined, force_get, get, act, new, System, step, start, Reach, here, next,
}
use bare_metal_blasterball.Sync.Once.Local.{
  owns, sees, is_wrong, result_of, complete-not_running, IsStored, Local, other_Local, Good,
}
use bare_metal_blasterball.Sync.Once.Act.{act-Good}

module _ {ℓ κ} {T : Type ℓ} {E : Type κ} where
  pub record Inv (s : System T E) : Type (ℓ ⊔ κ) where
    pub local : (i : ℕ) → Local s.once (s.place i)
    pub stored : IsStored s.once
    pub unique : (i j : ℕ) → owns (s.place i) ≡ true → owns (s.place j) ≡ true → i ≡ j
    pub covered : s.once.status ≡ running → (i : ℕ) × (owns (s.place i) ≡ true)

  pub start-Inv : Inv start
  unfolding new
  start-Inv = record {
    local = λ i. record {
      busy = λ e. absurd cc;
      seen = λ e. absurd cc;
      right = refl;
      filled = λ e. absurd cc;
      read = λ v e. absurd cc;
    };
    stored = λ e. absurd (let f = ap status_no e in omega (arith, f));
    unique = λ i j e f. absurd cc;
    covered = λ e. absurd (let f = ap status_no e in omega (arith, f));
  }

  -- Where a thread owns the status or finds it `Incomplete`, no other thread owns it.
  alone :
      (s : System T E) (i : ℕ)
      → Inv s
      → (owns (s.place i) ≡ true) ⊎ (s.once.status ≡ incomplete)
      → (j : ℕ) → j ≢ i
      → owns (s.place j) ≡ false
  alone s i inv side j ne = elim (Bool-cases (owns (s.place j))) [
    | inl h ↦ elim side [
      | inl e ↦ absurd (ne (inv.unique j i h e))
      | inr free ↦
          (let f = ap status_no (sym free ∙ (inv.local j).busy h) in absurd (omega (arith, f)))
    ]
    | inr h ↦ h
  ]

  step-Inv : (i : ℕ) (c : Choice T E) (s : System T E) → Inv s → Inv (step i c s)
  unfolding step
  step-Inv i c s inv = record {
    local = update_all (Local o') s.place i p' good.own others;
    stored = good.stored;
    unique = update_unique owns s.place i p' inv.unique (λ e. alone s i inv (good.taken e));
    covered = λ e. owner (good.covered e);
  }
    where
      o' : Once T
      o' = (act c (s.place i) s.once).0

      p' : Place T E
      p' = (act c (s.place i) s.once).1

      good : Good s.once o' (s.place i) p'
      good = act-Good c (s.place i) s.once (inv.local i) inv.stored

      others : (j : ℕ) → j ≢ i → Local o' (s.place j)
      others j ne = elim good.quiet [
        | inl e ↦ subst (λ o. Local o (s.place j)) (sym e) (inv.local j)
        | inr (h, side) ↦
            other_Local s.once o' (s.place j) h (alone s i inv side j ne) (inv.local j)
      ]

      owner :
          (owns p' ≡ true) ⊎ ((owns (s.place i) ≡ false) × (s.once.status ≡ running))
          → (k : ℕ) × (owns (update s.place i p' k) ≡ true)
      owner (inl h) = (i, ap owns (update_self s.place i p') ∙ h)
      owner (inr (out, set)) =
          let (k, h) = inv.covered set in
          let ne : k ≢ i = (λ e. let f = ap (λ x. owns (s.place x)) e in absurd cc) in
          (k, ap owns (update_ne s.place i p' k ne) ∙ h)

  pub Reach-Inv : {s t : System T E} → Inv s → Reach s t → Inv t
  Reach-Inv inv here = inv
  Reach-Inv inv (next {t} i c r) = step-Inv i c t (Reach-Inv inv r)

  -- In every state that threads reach, none runs into undefined behaviour: none has read data that are
  -- not initialized, and none is at `unreachable_unchecked` or about to be.
  pub once_defined :
      {s : System T E}
      → Reach start s
      → (i : ℕ) → (s.place i ≢ undefined) × (s.place i ≢ matched incomplete)
  once_defined {s} r i =
      let right = ((Reach-Inv start-Inv r).local i).right in
      ((λ e. let f = ap is_wrong e in cc), (λ e. let f = ap is_wrong e in cc))

  step-kept :
      (i : ℕ) (c : Choice T E) (s : System T E)
      → Inv s
      → s.once.status ≡ complete
      → (step i c s).once ≡ s.once
  unfolding step
  step-kept i c s inv h = elim (act-Good c (s.place i) s.once (inv.local i) inv.stored).quiet [
    | inl e ↦ e
    | inr (ne, _) ↦ absurd (ne h)
  ]

  Reach-kept : {s t : System T E} → Inv s → s.once.status ≡ complete → Reach s t → t.once ≡ s.once
  Reach-kept inv h here = refl
  Reach-kept inv h (next {t} i c r) =
      let before = Reach-kept inv h r in
      step-kept i c t (Reach-Inv inv r) (ap (λ o. o.status) before ∙ h) ∙ before

  get_complete :
      (o : Once T) (v : T)
      → o.status ≡ complete
      → o.value ≡ some v
      → get {E = E} o ≡ some (returned (ok v))
  unfolding get force_get
  get_complete o v h k = rw (h, k)

  -- Any two calls that return a value return the same one, also where other steps lie between their
  -- returns, and from the first of them on `get` returns it too.
  pub once_agree :
      {s t : System T E} (i j : ℕ) (v w : T)
      → Reach start s
      → s.place i ≡ returned (ok v)
      → Reach s t
      → t.place j ≡ returned (ok w)
      → (v ≡ w) × (get {E = E} t.once ≡ some (returned (ok v)))
  once_agree {s} {t} i j v w r hi r' hj =
      let inv = Reach-Inv start-Inv r in
      let done = (inv.local i).seen (ap sees hi) in
      let kept = Reach-kept inv done r' in
      let value = ap (λ o. o.value) kept ∙ (inv.local i).read v (ap result_of hi) in
      let other = ((Reach-Inv inv r').local j).read w (ap result_of hj) in
      let both = sym value ∙ other in
      (cc, get_complete t.once v (ap (λ o. o.status) kept ∙ done) value)

  -- Once the status is `Complete`, it stays so, with the same data, whatever threads do; no thread runs
  -- an initializer any more, nor stores anything.
  pub once_only :
      {s t : System T E}
      → Reach start s
      → s.once.status ≡ complete
      → Reach s t
      → (t.once ≡ s.once) × ((i : ℕ) → owns (t.place i) ≡ false)
  once_only {s} {t} r h r' =
      let inv = Reach-Inv start-Inv r in
      let kept = Reach-kept inv h r' in
      let still = ap (λ o. o.status) kept ∙ h in
      (
        kept,
        (λ i. elim (Bool-cases (owns (t.place i))) [
          | inl e ↦ absurd (complete-not_running (sym still ∙ ((Reach-Inv inv r').local i).busy e))
          | inr e ↦ e
        ]),
      )

  -- In every state that threads reach, the initializer runs in at most one of them, and it runs in none
  -- once a call has returned a value.
  pub once_exclusive :
      {s : System T E}
      → Reach start s
      → ((i j : ℕ) → s.place i ≡ calling → s.place j ≡ calling → i ≡ j)
        × ((i j : ℕ) (v : T) → s.place i ≡ calling → s.place j ≢ returned (ok v))
  once_exclusive {s} r =
      let inv = Reach-Inv start-Inv r in
      (
        (λ i j e f. inv.unique i j (ap owns e) (ap owns f)),
        (λ i j v e f.
            complete-not_running
              (sym ((inv.local j).seen (ap sees f)) ∙ (inv.local i).busy (ap owns e))),
      )
