-- ===== src/Sync/Once/Defs.antt =====
-- sync/src/once.rs: `Once`, and threads that call `try_call_once` and `get` on one of it. Each access
-- to the status or to the data is one step, and steps of threads interleave as under sequential
-- consistency. The initializer `f` is not under this file: a step is told what it returns. It does not
-- call the same `Once`, which would wait for itself. A panic aborts, as in the targets of the
-- repository: the guard `Finish` is never dropped, and nothing sets `Panicked`.
use bare_metal_blasterball.Base.{ℕ, Option, none, some, Result, ok, err, if◌then◌else◌, ◌==◌}
use bare_metal_blasterball.Sync.Threads.{update}

pub data OnceStatus : Type 0 where
  complete : OnceStatus
  running : OnceStatus
  incomplete : OnceStatus
  panicked : OnceStatus

-- The discriminants
abbrev pub status_no : OnceStatus → ℕ
status_no complete = 0
status_no running = 1
status_no incomplete = 2
status_no panicked = 3

-- `AtomicStatus::compare_exchange`: the value of before, and the one of after.
unfoldable pub compare_exchange :
    OnceStatus → OnceStatus → OnceStatus → Result OnceStatus OnceStatus × OnceStatus
compare_exchange old new status =
    if status_no status == status_no old then (ok status, new) else (err status, status)

-- `data` is `none` while it is not initialized.
pub record Once {ℓ} (T : Type ℓ) : Type ℓ where
  pub status : OnceStatus
  pub value : Option T

-- What is open in a step: whether `f` returns or panics, and whether a thread that is outside calls
-- `get`, in place of `try_call_once`.
pub data Choice {ℓ κ} (T : Type ℓ) (E : Type κ) : Type (ℓ ⊔ κ) where
  returns : Result T E → Choice T E
  panics : Choice T E
  gets : Choice T E

-- Where a thread is in `try_call_once` or in `get`, and how a call ends.
pub data Place {ℓ κ} (T : Type ℓ) (E : Type κ) : Type (ℓ ⊔ κ) where
  outside : Place T E
  -- behind the first load, with the local `status`
  loaded : OnceStatus → Place T E
  -- in `get`, behind its load
  got : OnceStatus → Place T E
  -- behind the exchange that set `Running`, in `f`
  calling : Place T E
  -- `f` returned, and nothing is stored yet
  failed : E → Place T E
  computed : T → Place T E
  -- behind the write of the data
  written : Place T E
  -- behind the store of `Complete`
  completed : Place T E
  -- at the last `match`
  matched : OnceStatus → Place T E
  -- in the loop of `poll`
  polling : Place T E
  returned : Result T E → Place T E
  panicking : Place T E
  -- `f` panicked
  aborted : Place T E
  -- `unreachable_unchecked`, or a read of data that is not initialized
  undefined : Place T E

unfoldable pub new {ℓ} : {T : Type ℓ} → Once T
new = record { status = incomplete; value = none }

module _ {ℓ κ} {T : Type ℓ} {E : Type κ} where
  -- `force_get`, and the return of what it reads
  unfoldable pub force_get : Once T → Place T E
  force_get o = elim o.value [ none ↦ undefined | some v ↦ returned (ok v) ]

  -- `get`: `none` if there is no value yet.
  unfoldable pub get : Once T → Option (Place T E)
  unfolding force_get
  get o = elim o.status [ complete ↦ some (force_get o) | _ ↦ none ]

  abbrev pub at_exchange : Result OnceStatus OnceStatus → Place T E
  at_exchange (ok _) = calling
  at_exchange (err s) = matched s

  -- The exchange of `Incomplete` by `Running`
  unfoldable pub try_claim : Once T → Once T × Place T E
  unfolding compare_exchange
  try_claim o =
      let (r, s) = compare_exchange incomplete running o.status in
      (record o { status = s }, at_exchange r)

  -- `match f()`
  unfoldable pub call : Choice T E → Once T → Once T × Place T E
  call (returns (ok val)) o = (o, computed val)
  call (returns (err e)) o = (o, failed e)
  call panics o = (o, aborted)
  call gets o = (o, calling)

  -- One round of `poll`, and its `unwrap`.
  unfoldable pub poll_round : Once T → Place T E
  unfolding force_get
  poll_round o = elim o.status [
    | incomplete ↦ panicking
    | running ↦ polling
    | complete ↦ force_get o
    | panicked ↦ panicking
  ]

  -- The last `match`
  unfoldable pub finish : OnceStatus → Once T → Place T E
  unfolding force_get
  finish complete o = force_get o
  finish panicked o = panicking
  finish running o = polling
  finish incomplete o = undefined

  -- The `match` of `get`; a call that returns `None` leaves the thread outside.
  unfoldable pub got_match : OnceStatus → Once T → Place T E
  unfolding force_get
  got_match complete o = force_get o
  got_match _ o = outside

  -- The load that `get` and `try_call_once` begin with
  unfoldable pub load_status : Choice T E → Once T → Place T E
  load_status gets o = got o.status
  load_status _ o = loaded o.status

  -- The next access of a thread. A call that has returned a value makes no step.
  unfoldable pub act : Choice T E → Place T E → Once T → Once T × Place T E
  unfolding try_claim call poll_round finish force_get got_match load_status
  act c (got s) o = (o, got_match s o)
  act c outside o = (o, load_status c o)
  act c (loaded incomplete) o = try_claim o
  act c (loaded s) o = (o, matched s)
  act c calling o = call c o
  act c (failed e) o = (record o { status = incomplete }, returned (err e))
  act c (computed val) o = (record o { value = some val }, written)
  act c written o = (record o { status = complete }, completed)
  act c completed o = (o, force_get o)
  act c (matched s) o = (o, finish s o)
  act c polling o = (o, poll_round o)
  act c p o = (o, p)

pub record System {ℓ κ} (T : Type ℓ) (E : Type κ) : Type (ℓ ⊔ κ) where
  pub once : Once T
  pub place : ℕ → Place T E

module _ {ℓ κ} {T : Type ℓ} {E : Type κ} where
  -- The step of thread `i`
  unfoldable pub step : ℕ → Choice T E → System T E → System T E
  unfolding act
  step i c s =
      let (o, p) = act c (s.place i) s.once in record { once = o; place = update s.place i p }

  abbrev pub start : System T E
  start = record { once = new; place = λ _. outside }

  pub data Reach : System T E → System T E → Type (ℓ ⊔ κ) where
    here : {s : System T E} → Reach s s
    next : {s t : System T E} (i : ℕ) (c : Choice T E) → Reach s t → Reach s (step i c t)
