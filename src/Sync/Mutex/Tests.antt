-- ===== src/Sync/Mutex/Tests.antt =====
-- sync/src/mutex.rs: the theorems at concrete threads, and the test in the documentation of `try_lock`.
use bare_metal_blasterball.Base.{ℕ, ◌≡◌, ◌≢◌, ap, ◌⊎◌, ◌↔◌, refl, Bool, true, false, arith}
use bare_metal_blasterball.Sync.Threads.{update}
use bare_metal_blasterball.Sync.Mutex.Defs.{
  Choice, guarded, deadlocked, spinning, call_try_lock, call_lock, round, write, release, new,
  try_lock, act, System, step, start, Reach, begin, next, deref_mut,
}
use bare_metal_blasterball.Sync.Mutex.Safety.{holds, mutual_exclusion, guarded-step}
use bare_metal_blasterball.Sync.Mutex.Progress.{lock_progress}

-- While there is a guard, there is no second one.
test_try_lock :
    (let (guard1, m) = try_lock (new {T = ℕ} 9) in
      ◌≡◌ {A = Bool × Bool} (guard1, (try_lock m).0) (true, false))
unfolding try_lock new
test_try_lock = refl

-- Thread 0 has a guard, has written 5, and thread 1 is in the loop of `lock`.
abbrev contended : System ℕ
contended = step 1 call_lock (step 0 (write 5) (step 0 call_try_lock (start 9)))

contended_reached : Reach 9 contended
contended_reached = next 1 call_lock (next 0 (write 5) (next 0 call_try_lock begin))

first_guarded : contended.place 0 ≡ guarded
unfolding step act update try_lock deref_mut new
first_guarded = refl

second_spinning : contended.place 1 ≡ spinning
unfolding step act update try_lock deref_mut new
second_spinning = refl

mutual_exclusion_example :
    ((i j : ℕ) → holds (contended.place i) ≡ true → holds (contended.place j) ≡ true → i ≡ j)
    × ((contended.mutex.lock ≡ true) ↔ ((i : ℕ) × (holds (contended.place i) ≡ true)))
mutual_exclusion_example = mutual_exclusion contended_reached

guarded-step_example : (step 1 (round false) contended).mutex ≡ contended.mutex
guarded-step_example =
    guarded-step 0 1 (round false) contended_reached (ap holds first_guarded) (omega arith)

lock_progress_example :
    ((step 1 (round false) contended).place 1 ≡ guarded)
    ⊎ ((j : ℕ) × (j ≢ 1)
        × (((contended.place j ≡ guarded)
              × ((step 1 (round false) (step j release contended)).place 1 ≡ guarded))
            ⊎ ((contended.place j ≡ deadlocked)
                × ((c : Choice ℕ)
                    → ((step j c contended).mutex ≡ contended.mutex)
                      × ((step j c contended).place j ≡ deadlocked)))))
lock_progress_example = lock_progress 1 contended_reached second_spinning
