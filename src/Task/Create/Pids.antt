-- ===== src/Task/Create/Pids.antt =====
-- Process ids: os_task_get_new_pid and os_task_release_pid against the free ids and the tasks.
use dreamos_cversion.Word.{number_max}
use dreamos_cversion.Hashmap.Laws.{lookup, IsValid}
use dreamos_cversion.Bitmap.{Bitmap, find_some_ones, set_bit, is_one, group}
use dreamos_cversion.Bitmap.View
use dreamos_cversion.Bitmap.View.{bit_at}
use dreamos_cversion.Word.Bits.{bit-lt}
use dreamos_cversion.Bitmap.Access.{Rewritten, set_bit-Rewritten}
use dreamos_cversion.Bitmap.Find.{found, missing, find_some_ones-FindResult}
use dreamos_cversion.Base.{
  ℕ, ◌/◌, ◌%◌, ◌<◌, ◌≡◌, ◌≢◌, refl, ◌⊎◌, inl, inr, true, none, some, arith, ◌==◌, if◌then◌else◌,
}
use dreamos_cversion.Task.Create.{System, get_new_pid}

-- The bitmap and the hash map are in order, and an id that is free has no task.
pub record Pids (s : System) : Type 0 where
  pub bits : View.IsValid s.pid_bitmap
  pub map : IsValid s.pid_map
  pub free : (j : ℕ) → bit_at s.pid_bitmap j ≡ 1 → lookup s.pid_map j ≡ none

-- The same ids are free, and the others have the same tasks.
pub record SamePids (s s' : System) : Type 0 where
  pub same_bits : (j : ℕ) → bit_at s'.pid_bitmap j ≡ bit_at s.pid_bitmap j
  pub same_tasks : (j : ℕ) → lookup s'.pid_map j ≡ lookup s.pid_map j

-- A free id is taken, and only that.
pub record Taken (bitmap : Bitmap) (pid : ℕ) (bitmap' : Bitmap) : Type 0 where
  pub inside : pid < bitmap.size
  pub was_free : bit_at bitmap pid ≡ 1
  pub rewritten : Rewritten bitmap bitmap' (λ j. if pid == j then 0 else bit_at bitmap j)

one_lem : (b : Bitmap) (j : ℕ) → is_one (bit_at b j) ≡ true → bit_at b j ≡ 1
unfolding bit_at
one_lem b j h = ground (arith, bit-lt (group b (j / 64)) (j % 64))

-- What os_task_get_new_pid returns for what the search returns.
got_lem :
    (b b' : Bitmap) (r : ℕ)
    → find_some_ones b 0 1 ≡ some r
    → r ≢ number_max
    → set_bit b r 0 ≡ some b'
    → get_new_pid b ≡ some (some (r, b'))
unfolding get_new_pid
got_lem b b' r e ne w = rw e (rw w (ground arith))

missed_lem :
    (b : Bitmap) (r : ℕ)
    → find_some_ones b 0 1 ≡ some r
    → r ≡ number_max
    → get_new_pid b ≡ some none
unfolding get_new_pid
missed_lem b r e m = rw (e, m) refl

pub get_new_pid-Taken :
    (b : Bitmap)
    → View.IsValid b
    → (get_new_pid b ≡ some none)
      ⊎ ((pid : ℕ) × (b' : Bitmap) × (get_new_pid b ≡ some (some (pid, b'))) × Taken b pid b')
get_new_pid-Taken b v =
    let (first, e, result) = find_some_ones-FindResult 0 1 v (omega arith) (omega arith) in
    elim result
        as (λ k w.
          find_some_ones b 0 1 ≡ some k
          → (get_new_pid b ≡ some none)
            ⊎ ((pid : ℕ) × (b' : Bitmap) × (get_new_pid b ≡ some (some (pid, b')))
                × Taken b pid b')) [
                  | found {r} from low fits run least ↦ λ ek.
                      let (b', w, re) = set_bit-Rewritten r 0 v low in
                      inr (
                        r,
                        b',
                        got_lem b b' r ek (omega (arith, v.sized, v.small)) w,
                        record {
                          inside = low;
                          was_free = one_lem b r (run r (omega arith) (omega arith));
                          rewritten = re;
                        },
                      )
                  | missing {r} all none_fits ↦ λ ek. inl (missed_lem b r ek all)
                ]
      e
