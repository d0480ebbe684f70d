-- ===== src/Sync/Mutex/Safety.antt =====
-- sync/src/mutex.rs: what holds in every state that threads reach.
use bare_metal_blasterball.Base.{
  ℕ, ◌≡◌, ◌≢◌, ◌⊎◌, ◌↔◌, inl, inr, refl, sym, ap, ap₂, ◌∙◌, Bool, true, false, Bool-cases,
}
use bare_metal_blasterball.Sync.Threads.{update, update_self, update_ne, update_all, update_unique}
use bare_metal_blasterball.Sync.Mutex.Defs.{
  Mutex, Place, outside, spinning, guarded, deadlocked, Choice, call_lock, call_try_lock, round,
  write, release, new, lock_round, try_lock, deref_mut, drop_guard, act, System, step, start, Reach,
  begin, next,
}

abbrev pub holds : Place → Bool
holds guarded = true
holds deadlocked = true
holds _ = false

-- A thread that holds a guard has set the lock.
abbrev pub IsLocked {ℓ} : {T : Type ℓ} → Mutex T → Place → Type 0
IsLocked m p = holds p ≡ true → m.lock ≡ true

pub holds-guarded : (p : Place) → holds p ≡ true → (p ≡ guarded) ⊎ (p ≡ deadlocked)
holds-guarded guarded h = inl refl
holds-guarded deadlocked h = inr refl
holds-guarded outside h = absurd cc
holds-guarded spinning h = absurd cc

pub not_spinning : (p : Place) → holds p ≡ true → p ≢ spinning
not_spinning p h e = let f = ap holds e in absurd cc

mutex_ext {ℓ} : {T : Type ℓ} (m n : Mutex T) → m.value ≡ n.value → m.lock ≡ n.lock → m ≡ n
mutex_ext m n e f = ap₂ (λ v l. record { value = v; lock = l }) e f

module _ {ℓ} {T : Type ℓ} where
  -- The step of a thread keeps the lock set behind every guard, takes a guard only where the lock is
  -- free, and changes the mutex only there or with a guard.
  record Fits (p : Place) (m : Mutex T) (m' : Mutex T) (p' : Place) : Type ℓ where
    own : IsLocked m' p'
    taken : holds p' ≡ true → (holds p ≡ true) ⊎ (m.lock ≡ false)
    kept : holds p ≡ false → (m.value ≡ m'.value) × (m.lock ≡ true → m'.lock ≡ true)
    held : m'.lock ≡ true → (holds p' ≡ true) ⊎ ((holds p ≡ false) × (m.lock ≡ true))

  still : (p : Place) (m : Mutex T) → IsLocked m p → Fits p m m p
  still p m h = record {
    own = h;
    taken = inl;
    kept = λ _. (refl, λ l. l);
    held = λ l. elim (Bool-cases (holds p)) [ inl e ↦ inl e | inr e ↦ inr (e, l) ];
  }

  -- A place without a guard, with the lock free: the exchange sets it.
  take_guard :
      (p : Place) (m : Mutex T) → m.lock ≡ false → Fits p m (record m { lock = true }) guarded
  take_guard p m free = record {
    own = λ _. refl;
    taken = λ _. inr free;
    kept = λ _. (refl, λ _. refl);
    held = λ _. inl refl;
  }

  -- A step that moves between places without a guard, and leaves the mutex as it is.
  pass : (p q : Place) (m : Mutex T) → holds p ≡ false → holds q ≡ false → Fits p m m q
  pass p q m e f = record {
    own = λ h. absurd cc;
    taken = λ h. absurd cc;
    kept = λ _. (refl, λ l. l);
    held = λ l. inr (e, l);
  }

  try_lock-Fits :
      (v : T) (l : Bool)
      → let m : Mutex T = record { value = v; lock = l } in
        Fits outside m (act call_try_lock outside m).0 (act call_try_lock outside m).1
  unfolding act lock_round try_lock
  try_lock-Fits v true = pass outside outside _ refl refl
  try_lock-Fits v false = take_guard outside _ refl

  lock_round-Fits :
      (v : T) (l : Bool)
      → let m : Mutex T = record { value = v; lock = l } in
        Fits spinning m (act (round false) spinning m).0 (act (round false) spinning m).1
  unfolding act lock_round try_lock
  lock_round-Fits v true = pass spinning spinning _ refl refl
  lock_round-Fits v false = take_guard spinning _ refl

  deadlock-Fits :
      (v : T) (l : Bool)
      → let m : Mutex T = record { value = v; lock = l } in
        IsLocked m deadlocked
        → Fits deadlocked m (act (round false) deadlocked m).0 (act (round false) deadlocked m).1
  unfolding act lock_round
  deadlock-Fits v true h = still deadlocked _ h
  deadlock-Fits v false h = let set = h refl in absurd cc

  -- A thread begins to wait for itself.
  begin_wait : (m : Mutex T) → IsLocked m guarded → Fits guarded m m deadlocked
  begin_wait m h = record {
    own = λ _. h refl;
    taken = λ _. inl refl;
    kept = λ e. absurd cc;
    held = λ _. inl refl;
  }

  act-Fits :
      (c : Choice T) (p : Place) (m : Mutex T) → IsLocked m p → Fits p m (act c p m).0 (act c p m).1
  unfolding act lock_round try_lock deref_mut drop_guard
  act-Fits call_lock outside m h = pass outside spinning m refl refl
  act-Fits call_try_lock outside m h = try_lock-Fits m.value m.lock
  act-Fits (round true) spinning m h = still spinning m h
  act-Fits (round false) spinning m h = lock_round-Fits m.value m.lock
  act-Fits (write v) guarded m h = record {
    own = λ _. h refl;
    taken = inl;
    kept = λ e. absurd cc;
    held = λ _. inl refl;
  }
  act-Fits release guarded m h = record {
    own = λ e. absurd cc;
    taken = λ _. inl refl;
    kept = λ e. absurd cc;
    held = λ e. absurd cc;
  }
  act-Fits call_lock spinning m h = still spinning m h
  act-Fits call_lock guarded m h = begin_wait m h
  act-Fits (round false) deadlocked m h = deadlock-Fits m.value m.lock h
  act-Fits (round true) deadlocked m h = still deadlocked m h
  act-Fits call_lock deadlocked m h = still deadlocked m h
  act-Fits call_try_lock deadlocked m h = still deadlocked m h
  act-Fits (write v) deadlocked m h = still deadlocked m h
  act-Fits release deadlocked m h = still deadlocked m h
  act-Fits call_try_lock spinning m h = still spinning m h
  act-Fits call_try_lock guarded m h = still guarded m h
  act-Fits (round b) outside m h = still outside m h
  act-Fits (round b) guarded m h = still guarded m h
  act-Fits (write v) outside m h = still outside m h
  act-Fits (write v) spinning m h = still spinning m h
  act-Fits release outside m h = still outside m h
  act-Fits release spinning m h = still spinning m h

  pub record Inv (s : System T) : Type ℓ where
    pub locked : (i : ℕ) → IsLocked s.mutex (s.place i)
    pub unique : (i j : ℕ) → holds (s.place i) ≡ true → holds (s.place j) ≡ true → i ≡ j
    pub held : s.mutex.lock ≡ true → (i : ℕ) × (holds (s.place i) ≡ true)

  start-Inv : (v : T) → Inv (start v)
  unfolding new
  start-Inv v = record {
    locked = λ i e. absurd cc;
    unique = λ i j e f. absurd cc;
    held = λ e. absurd cc;
  }

  -- Where a thread holds a guard or finds the lock free, no other thread holds one.
  alone :
      (s : System T) (i : ℕ)
      → Inv s
      → (holds (s.place i) ≡ true) ⊎ (s.mutex.lock ≡ false)
      → (j : ℕ) → j ≢ i
      → holds (s.place j) ≡ false
  alone s i inv side j ne = elim (Bool-cases (holds (s.place j))) [
    | inl h ↦ elim side [
      | inl e ↦ absurd (ne (inv.unique j i h e))
      | inr free ↦ (let set = inv.locked j h in absurd cc)
    ]
    | inr h ↦ h
  ]

  step-Inv : (i : ℕ) (c : Choice T) (s : System T) → Inv s → Inv (step i c s)
  unfolding step
  step-Inv i c s inv = record {
    locked = update_all (IsLocked m') s.place i p' fits.own others;
    unique = update_unique holds s.place i p' inv.unique (λ e. alone s i inv (fits.taken e));
    held = λ e. owner (fits.held e);
  }
    where
      m' : Mutex T
      m' = (act c (s.place i) s.mutex).0

      p' : Place
      p' = (act c (s.place i) s.mutex).1

      fits : Fits (s.place i) s.mutex m' p'
      fits = act-Fits c (s.place i) s.mutex (inv.locked i)

      others : (j : ℕ) → j ≢ i → IsLocked m' (s.place j)
      others j ne h = elim (Bool-cases (holds (s.place i))) [
        | inl e ↦ absurd (ne (inv.unique j i h e))
        | inr e ↦ (fits.kept e).1 (inv.locked j h)
      ]

      owner :
          (holds p' ≡ true) ⊎ ((holds (s.place i) ≡ false) × (s.mutex.lock ≡ true))
          → (k : ℕ) × (holds (update s.place i p' k) ≡ true)
      owner (inl h) = (i, ap holds (update_self s.place i p') ∙ h)
      owner (inr (out, set)) =
          let (k, h) = inv.held set in
          let ne : k ≢ i = (λ e. let same = ap (λ x. holds (s.place x)) e in absurd cc) in
          (k, ap holds (update_ne s.place i p' k ne) ∙ h)

  pub Reach-Inv : {v : T} {s : System T} → Reach v s → Inv s
  Reach-Inv {v} begin = start-Inv v
  Reach-Inv (next {s} i c r) = step-Inv i c s (Reach-Inv r)

  -- In every state that threads reach, at most one of them holds a guard, and the lock is set exactly
  -- while one does.
  pub mutual_exclusion :
      {v : T} {s : System T}
      → Reach v s
      → ((i j : ℕ) → holds (s.place i) ≡ true → holds (s.place j) ≡ true → i ≡ j)
        × ((s.mutex.lock ≡ true) ↔ ((i : ℕ) × (holds (s.place i) ≡ true)))
  mutual_exclusion {s} r =
      let inv = Reach-Inv r in (inv.unique, (inv.held, (λ (i, e). inv.locked i e)))

  -- While a thread holds a guard, a step of another thread leaves the data and the lock as they are.
  pub guarded-step :
      {v : T} {s : System T} (i j : ℕ) (c : Choice T)
      → Reach v s
      → holds (s.place i) ≡ true
      → j ≢ i
      → (step j c s).mutex ≡ s.mutex
  unfolding step
  guarded-step {s} i j c r h ne =
      let inv = Reach-Inv r in
      let fits = act-Fits c (s.place j) s.mutex (inv.locked j) in
      let set = inv.locked i h in
      let (same, still_set) = fits.kept (alone s i inv (inl h) j ne) in
      mutex_ext _ _ (sym same) (still_set set ∙ sym set)
