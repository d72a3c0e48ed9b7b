-- ===== src/Mutex/System.antt =====
-- Tasks that lock and unlock a mutex, in any order.
pub mod Steps
pub mod Reach
mod Tests
use dreamos_cversion.Base.{
  ℕ, zero, suc, ◌+◌, ◌-◌, ◌*◌, ◌/◌, ◌%◌, ◌^◌, ◌<◌, ◌≤◌, ◌≡◌, ◌≢◌, ◌↔◌, refl, sym, ap, subst, ◌∙◌,
  ◌⊎◌, inl, inr, min, max, bit_and, bit_or, bit_xor, Bool, true, false, ◌&&◌, ◌||◌, not, Option,
  none, some, List, [], ◌∷◌, ◌++◌, map, arith, ltb, leb, ◌==◌, if◌then◌else◌, Bool-cases,
  Option-cases, is_some, dec_lt, ℕ_discrete, length, get_or, get_elem?, set, take, drop, replicate,
  length-append, length-set, get_or-set_self, get_or-set_ne, length-replicate, get_or-replicate,
  set-set_self, ==_iff,
}
use dreamos_cversion.Word.{size_mod, sub_size}
use dreamos_cversion.Mutex.{Mutex, init, add, lock, unlock}

-- The mutex, which tasks sleep, and how many of the locks that a task was given it has not given
-- back.
pub record System : Type 0 where
  pub mutex : Mutex
  pub asleep : ℕ → Bool
  pub depth : ℕ → ℕ

-- The call of os_mutex_lock returns at once, or the task sleeps in it.
pub after_lock : System → (task : ℕ) → System
after_lock s task =
    let r = lock s.mutex task in
    record {
      mutex = r.0;
      asleep = λ t. if t == task then r.1 else s.asleep t;
      depth = λ t. if (t == task) && not r.1 then s.depth t + 1 else s.depth t;
    }

-- When a task is woken, its call of os_mutex_lock returns.
pub after_unlock : System → (task : ℕ) → (mutex : Mutex) → (woken : ℕ) → System
after_unlock s task mutex woken = record {
  mutex = mutex;
  asleep = λ t. if not (woken == 0) && (t == woken) then false else s.asleep t;
  depth = λ t.
      if not (woken == 0) && (t == woken)
      then s.depth t + 1
      else if t == task
      then s.depth t - 1
      else s.depth t;
}

abbrev pub start : System
start = record { mutex = init; asleep = λ t. false; depth = λ t. 0 }

-- A task that does not sleep locks the mutex, which it has locked less than 2 ^ 64 - 1 times, or
-- unlocks it, and its assertions hold.
pub data Step : System → System → Type 0 where
  locks :
      {s : System} (task : ℕ)
      → task ≢ 0
      → s.asleep task ≡ false
      → s.depth task + 1 < size_mod
      → Step s (after_lock s task)
  unlocks :
      {s : System} (task : ℕ) {mutex : Mutex} {woken : ℕ}
      → s.asleep task ≡ false
      → unlock s.mutex task ≡ some (mutex, woken)
      → Step s (after_unlock s task mutex woken)

pub data Reachable : System → Type 0 where
  begins : Reachable start
  steps : {s s' : System} → Reachable s → Step s s' → Reachable s'

abbrev pub waits : ℕ → List ℕ → Bool
waits t [] = false
waits t (x ∷ xs) = (t == x) || waits t xs

abbrev pub once : List ℕ → Bool
once [] = true
once (x ∷ xs) = not (x == 0) && not (waits x xs) && once xs

-- What holds between two steps.
pub record Inv (s : System) : Type 0 where
  pub queued : (t : ℕ) → s.asleep t ≡ waits t s.mutex.waiting_list
  pub once : once s.mutex.waiting_list ≡ true
  pub others : (t : ℕ) → (s.mutex.owner ≡ t → ⊥) → s.depth t ≡ 0
  pub counted : s.depth s.mutex.owner ≡ s.mutex.refcnt
  pub bounded : s.mutex.refcnt < size_mod
  pub held :
      s.mutex.locked ≡ true
      → (0 < s.mutex.refcnt) × (s.mutex.owner ≢ 0) × (s.asleep s.mutex.owner ≡ false)
  pub idle :
      s.mutex.locked ≡ false
      → (s.mutex.owner ≡ 0) × (s.mutex.refcnt ≡ 0) × (s.mutex.waiting_list ≡ [])

pub start-Inv : Inv start
start-Inv = record {
  queued = λ t. refl;
  once = refl;
  others = λ t ne. refl;
  counted = refl;
  bounded = omega arith;
  held = λ h. cc;
  idle = λ h. (refl, refl, refl);
}
