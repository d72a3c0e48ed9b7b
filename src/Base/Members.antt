-- ===== src/Base/Members.antt =====
-- Membership in a list of numbers as a test, and lists in which no number stands twice.
use Prim.Native.Nat.{ℕ}
use mathlib.Core.Path.{◌≡◌, refl}
use mathlib.Core.Bool.{Bool, true, false, ◌&&◌, ◌||◌, not}
use mathlib.Core.List.{List, [], ◌∷◌, ◌++◌}
use native.Mathlib.Omega.{arith}
use dreamos_cversion.Base.Tests.{◌==◌, if◌then◌else◌}

abbrev pub has : ℕ → List ℕ → Bool
has t [] = false
has t (x ∷ xs) = (t == x) || has t xs

abbrev pub distinct : List ℕ → Bool
distinct [] = true
distinct (x ∷ xs) = not (has x xs) && distinct xs

abbrev pub without : ℕ → List ℕ → List ℕ
without t [] = []
without t (x ∷ xs) = if t == x then xs else x ∷ without t xs

pub has-append : (t : ℕ) (xs ys : List ℕ) → has t (xs ++ ys) ≡ (has t xs || has t ys)
has-append t [] ys = refl
has-append t (x ∷ xs) ys = ground (arith, has-append t xs ys)

pub distinct-append :
    (t : ℕ) (xs : List ℕ) → distinct xs ≡ true → has t xs ≡ false → distinct (xs ++ t ∷ []) ≡ true
distinct-append t [] d h = refl
distinct-append t (x ∷ xs) d h = ground (arith, has-append x xs (t ∷ []), distinct-append t xs)

pub has-without :
    (t u : ℕ) (xs : List ℕ) → distinct xs ≡ true → has u (without t xs) ≡ (has u xs && not (u == t))
has-without t u [] d = refl
has-without t u (x ∷ xs) d = ground (arith, has-without t u xs)

pub distinct-without : (t : ℕ) (xs : List ℕ) → distinct xs ≡ true → distinct (without t xs) ≡ true
distinct-without t [] d = refl
distinct-without t (x ∷ xs) d = ground (arith, has-without t x xs, distinct-without t xs)

pub without_absent : (t : ℕ) (xs : List ℕ) → has t xs ≡ false → without t xs ≡ xs
without_absent t [] h = refl
without_absent t (x ∷ xs) h = ground (arith, without_absent t xs)

pub distinct-join :
    (xs ys : List ℕ)
    → distinct xs ≡ true
    → distinct ys ≡ true
    → ((t : ℕ) → has t xs ≡ true → has t ys ≡ false)
    → distinct (xs ++ ys) ≡ true
distinct-join [] ys dx dy apart = dy
distinct-join (x ∷ xs) ys dx dy apart =
    let rest = distinct-join xs ys (ground arith) dy (λ t h. apart t (ground arith)) in
    ground (arith, rest, has-append x xs ys, apart x)
