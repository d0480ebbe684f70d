-- ===== src/Sync/Mutex/Defs.antt =====
-- sync/src/mutex.rs: `Mutex` and `MutexGuard`, and threads that use one mutex. Each access to `lock` is
-- one step, and steps of threads interleave as under sequential consistency. A guard is not an
-- object: `drop_guard` and `deref_mut` are its methods, and a thread holds it while it is `guarded` or
-- `deadlocked`.
use bare_metal_blasterball.Base.{ℕ, Bool, true, false, Result, ok, err, if◌then◌else◌}
use bare_metal_blasterball.Sync.Threads.{update}

pub record Mutex {ℓ} (T : Type ℓ) : Type ℓ where
  pub value : T
  pub lock : Bool

-- `AtomicBool::compare_exchange`, for the value `false` and the new one `true`: the value of before,
-- and the one of after.
abbrev pub compare_exchange : Bool → Result Bool Bool × Bool
compare_exchange false = (ok false, true)
compare_exchange true = (err true, true)

-- `compare_exchange_weak`, which may also fail where the values are the same.
abbrev pub compare_exchange_weak : Bool → Bool → Result Bool Bool × Bool
compare_exchange_weak true lock = (err lock, lock)
compare_exchange_weak false lock = compare_exchange lock

abbrev pub is_ok : Result Bool Bool → Bool
is_ok (ok _) = true
is_ok (err _) = false

-- Where a thread is: in none of the mutex's functions, in the loop of `lock`, with a guard, or with a
-- guard and in the loop of another `lock` of the same mutex.
pub data Place : Type 0 where
  outside : Place
  spinning : Place
  guarded : Place
  deadlocked : Place

-- What a thread does next; the flag says whether the weak exchange fails for no reason.
pub data Choice {ℓ} (T : Type ℓ) : Type ℓ where
  call_lock : Choice T
  call_try_lock : Choice T
  round : Bool → Choice T
  write : T → Choice T
  release : Choice T

module _ {ℓ} {T : Type ℓ} where
  unfoldable pub new : T → Mutex T
  new value = record { value = value; lock = false }

  -- `lock`, one round of the loop: whether a guard is returned, and the mutex.
  unfoldable pub lock_round : Bool → Mutex T → Bool × Mutex T
  lock_round fails m =
      let (r, l) = compare_exchange_weak fails m.lock in (is_ok r, record m { lock = l })

  -- `try_lock`: whether a guard is returned, and the mutex.
  unfoldable pub try_lock : Mutex T → Bool × Mutex T
  try_lock m = let (r, l) = compare_exchange m.lock in (is_ok r, record m { lock = l })

  -- An assignment through `deref_mut`.
  unfoldable pub deref_mut : T → Mutex T → Mutex T
  deref_mut v m = record m { value = v }

  -- `Drop` of a guard
  unfoldable pub drop_guard : Mutex T → Mutex T
  drop_guard m = record m { lock = false }

  -- A step of a thread. A choice that its place does not offer is no step.
  unfoldable pub act : Choice T → Place → Mutex T → Mutex T × Place
  unfolding lock_round try_lock deref_mut drop_guard
  act call_lock outside m = (m, spinning)
  act call_try_lock outside m =
      let (guard, m') = try_lock m in (m', if guard then guarded else outside)
  act (round fails) spinning m =
      let (guard, m') = lock_round fails m in (m', if guard then guarded else spinning)
  act call_lock guarded m = (m, deadlocked)
  act (round fails) deadlocked m =
      let (guard, m') = lock_round fails m in (m', if guard then guarded else deadlocked)
  act (write v) guarded m = (deref_mut v m, guarded)
  act release guarded m = (drop_guard m, outside)
  act _ place m = (m, place)

pub record System {ℓ} (T : Type ℓ) : Type ℓ where
  pub mutex : Mutex T
  pub place : ℕ → Place

module _ {ℓ} {T : Type ℓ} where
  -- The step of thread `i`
  unfoldable pub step : ℕ → Choice T → System T → System T
  unfolding act
  step i c s =
      let (m, p) = act c (s.place i) s.mutex in record { mutex = m; place = update s.place i p }

  abbrev pub start : T → System T
  start v = record { mutex = new v; place = λ _. outside }

  pub data Reach (v : T) : System T → Type ℓ where
    begin : Reach v (start v)
    next : {s : System T} (i : ℕ) (c : Choice T) → Reach v s → Reach v (step i c s)
