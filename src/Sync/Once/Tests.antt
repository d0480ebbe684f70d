-- ===== src/Sync/Once/Tests.antt =====
-- sync/src/once.rs: the theorems at concrete threads.
use bare_metal_blasterball.Base.{ℕ, ◌≡◌, ◌≢◌, ◌⊎◌, refl, Bool, true, false, some, ok}
use bare_metal_blasterball.Sync.Threads.{update}
use bare_metal_blasterball.Sync.Once.Defs.{
  Choice, returns, returned, polling, undefined, matched, incomplete, complete, get, System, step,
  start, Reach, here, next, act, new, try_claim, compare_exchange, call, finish, force_get,
  poll_round, load_status,
}
use bare_metal_blasterball.Sync.Once.Local.{owns}
use bare_metal_blasterball.Sync.Once.Safety.{once_defined, once_agree, once_only}
use bare_metal_blasterball.Sync.Once.Progress.{Frees, poll_progress}

-- The initializers return their number, and never fail.
abbrev Threads : Type 0
Threads = System ℕ Bool

abbrev value : ℕ → Choice ℕ Bool
value n = returns (ok n)

-- Thread 0 runs its initializer, and thread 1 waits for it.
abbrev waiting : Threads
waiting =
    step 1 (value 4)
      (step 1 (value 4) (step 1 (value 4) (step 0 (value 3) (step 0 (value 3) start))))

waiting_reached : Reach start waiting
waiting_reached =
    next 1 (value 4)
      (next 1 (value 4) (next 1 (value 4) (next 0 (value 3) (next 0 (value 3) here))))

thread_waits : waiting.place 1 ≡ polling
unfolding step act load_status update new try_claim compare_exchange finish
thread_waits = refl

-- Thread 0 has returned.
abbrev done : Threads
done = step 0 (value 3) (step 0 (value 3) (step 0 (value 3) (step 0 (value 3) waiting)))

done_later : Reach waiting done
done_later = next 0 (value 3) (next 0 (value 3) (next 0 (value 3) (next 0 (value 3) here)))

done_reached : Reach start done
done_reached =
    next 0 (value 3) (next 0 (value 3) (next 0 (value 3) (next 0 (value 3) waiting_reached)))

first_returned : done.place 0 ≡ returned (ok 3)
unfolding step act load_status update new try_claim compare_exchange finish call force_get
first_returned = refl

done_complete : done.once.status ≡ complete
unfolding step act load_status update new try_claim compare_exchange finish call force_get
done_complete = refl

-- Then thread 1 returns too.
abbrev both : Threads
both = step 1 (value 4) done

second_returned : both.place 1 ≡ returned (ok 3)
unfolding step act load_status update new try_claim compare_exchange finish call force_get
    poll_round
second_returned = refl

once_defined_example : (waiting.place 1 ≢ undefined) × (waiting.place 1 ≢ matched incomplete)
once_defined_example = once_defined waiting_reached 1

once_agree_example : (◌≡◌ {A = ℕ} 3 3) × (get {E = Bool} both.once ≡ some (returned (ok 3)))
once_agree_example =
    once_agree 0 1 3 3 done_reached first_returned (next 1 (value 4) here) second_returned

once_only_example : (both.once ≡ done.once) × ((i : ℕ) → owns (both.place i) ≡ false)
once_only_example = once_only done_reached done_complete (next 1 (value 4) here)

poll_progress_example :
    ((step 1 (value 4) waiting).place 1 ≢ polling)
    ⊎ ((j : ℕ) × (owns (waiting.place j) ≡ true) × Frees 1 j (ok 4) waiting)
poll_progress_example = poll_progress 1 (ok 4) waiting_reached thread_waits
