-- ===== src/Task/Ready.antt =====
-- get_next_task and the lists of ready tasks.
use dreamos_cversion.Base.{
  ℕ, zero, suc, ◌+◌, ◌<◌, ◌≤◌, ◌≡◌, refl, sym, subst, ◌⊎◌, inl, inr, List, [], ◌∷◌, arith,
  ℕ_discrete,
}
use dreamos_cversion.Task.{first_ready}

-- The task r is the first of the list of priority p, and the lists before p are empty; or all are.
pub data IsFirst (lists : ℕ → List ℕ) (i count r : ℕ) : Type 0 where
  nothing : r ≡ 0 → ((q : ℕ) → i ≤ q → q < i + count → lists q ≡ []) → IsFirst lists i count r
  first :
      (p : ℕ) (rest : List ℕ)
      → i ≤ p
      → p < i + count
      → lists p ≡ r ∷ rest
      → ((q : ℕ) → i ≤ q → q < p → lists q ≡ [])
      → IsFirst lists i count r

List-cases : (xs : List ℕ) → (xs ≡ []) ⊎ ((x : ℕ) × (ys : List ℕ) × (xs ≡ x ∷ ys))
List-cases [] = inl refl
List-cases (x ∷ xs) = inr (x, xs, refl)

empty_step :
    (lists : ℕ → List ℕ) (i n : ℕ)
    → lists i ≡ []
    → ((q : ℕ) → i + 1 ≤ q → q < n → lists q ≡ [])
    → (q : ℕ) → i ≤ q
    → q < n
    → lists q ≡ []
empty_step lists i n e h q a b = elim (ℕ_discrete i q) [
  | yes same ↦ subst (λ k. lists k ≡ []) same e
  | no other ↦ h q (omega arith) b
]

widen :
    (lists : ℕ → List ℕ) (i count r : ℕ)
    → lists i ≡ []
    → IsFirst lists (i + 1) count r
    → IsFirst lists i (suc count) r
widen lists i count r e (nothing z h) =
    nothing z (λ q a b. empty_step lists i (i + suc count) e (λ k c d. h k c (omega arith)) q a b)
widen lists i count r e (first p rest a b at h) =
    first p rest (omega arith) (omega arith) at (empty_step lists i p e h)

pub first_ready-IsFirst :
    (lists : ℕ → List ℕ) (i count : ℕ) → IsFirst lists i count (first_ready lists i count)
unfolding first_ready
first_ready-IsFirst lists i zero = nothing refl (λ q a b. absurd (omega arith))
first_ready-IsFirst lists i (suc count) = elim (List-cases (lists i)) [
  | inl e ↦ rw e (widen lists i count _ e (first_ready-IsFirst lists (i + 1) count))
  | inr (x, ys, e) ↦ rw e (first i ys (omega arith) (omega arith) e (λ q a b. absurd (omega arith)))
]

pub first_ready_at :
    (lists : ℕ → List ℕ) (i count p r : ℕ) (rest : List ℕ)
    → i ≤ p
    → p < i + count
    → lists p ≡ r ∷ rest
    → ((q : ℕ) → i ≤ q → q < p → lists q ≡ [])
    → first_ready lists i count ≡ r
unfolding first_ready
first_ready_at lists i zero p r rest a b at h = absurd (omega arith)
first_ready_at lists i (suc count) p r rest a b at h = elim (ℕ_discrete i p) [
  | yes same ↦ rw (subst (λ k. lists k ≡ r ∷ rest) (sym same) at) refl
  | no other ↦ rw (h i (omega arith) (omega arith)) (
      first_ready_at lists (i + 1) count p r rest (omega arith) (omega arith) at
        (λ q c d. h q (omega arith) d))
]
