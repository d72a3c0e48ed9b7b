-- ===== src/Mutex/System/Tests.antt =====
-- Tasks 1 and 2 lock the mutex, and task 1 unlocks it.
use dreamos_cversion.Base.{ℕ, ◌<◌, ◌≡◌, refl, true, false, some, [], arith}
use dreamos_cversion.Mutex.{Mutex, lock, unlock}
use dreamos_cversion.Mutex.System.Reach.{Reachable-Inv, Reachable-exclusive}
use dreamos_cversion.Mutex.System.{System, after_lock, start, locks, Reachable, begins, steps, Inv}

abbrev both : System
both = after_lock (after_lock start 1) 2

-- Task 2 waits.
waiting : (both.mutex.owner ≡ 1) × (both.asleep 2 ≡ true)
unfolding after_lock lock
waiting = (refl, refl)

both-Reachable : Reachable both
unfolding after_lock lock
both-Reachable =
    steps (steps begins (locks 1 (omega arith) refl (omega arith)))
      (locks 2 (omega arith) refl (omega arith))

-- Then task 2 has the mutex.
handed :
    unlock both.mutex 1
    ≡ some (record { locked = true; owner = 2; refcnt = 1; waiting_list = [] }, 2)
unfolding after_lock lock unlock
handed = refl

Reachable-Inv_example : Inv both
Reachable-Inv_example = Reachable-Inv both-Reachable

Reachable-exclusive_example :
    ((t u : ℕ) → 0 < both.depth t → 0 < both.depth u → t ≡ u)
    × ((t : ℕ)
        → both.asleep t ≡ true
        → (0 < both.depth both.mutex.owner)
          × (both.asleep both.mutex.owner ≡ false)
          × (both.depth t ≡ 0))
    × ((t : ℕ) → 0 < both.depth t → (r : Mutex × ℕ) × (unlock both.mutex t ≡ some r))
Reachable-exclusive_example = Reachable-exclusive both-Reachable
