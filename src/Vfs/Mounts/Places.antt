-- ===== src/Vfs/Mounts/Places.antt =====
-- Lists whose entries are named by their places.
use dreamos_cversion.Base.{
  ℕ, zero, suc, ◌≡◌, refl, ap, ◌⊎◌, inl, inr, none, some, List, [], ◌∷◌, ◌++◌, arith, length,
  get_elem?,
}
use dreamos_cversion.Vfs.Mounts.Change.{change_at, remove_at}

module _ {ℓ} {A : Type ℓ} where
  pub get-append :
      (xs : List A) (x o : A) (k : ℕ)
      → get_elem? (xs ++ x ∷ []) k ≡ some o
      → (get_elem? xs k ≡ some o) ⊎ ((k ≡ length xs) × (o ≡ x))
  get-append [] x o zero e = inr (refl, (let both : some x ≡ some o = e in cc))
  get-append [] x o (suc k) e = inl e
  get-append (y ∷ xs) x o zero e = inl e
  get-append (y ∷ xs) x o (suc k) e = elim (get-append xs x o k e) [
    | inl h ↦ inl h
    | inr (h, same) ↦ inr (omega arith, same)
  ]

  pub get-append_last : (xs : List A) (x : A) → get_elem? (xs ++ x ∷ []) (length xs) ≡ some x
  get-append_last [] x = refl
  get-append_last (y ∷ xs) x = get-append_last xs x

  pub remove_at-append : (xs : List A) (x : A) → remove_at (xs ++ x ∷ []) (length xs) ≡ xs
  remove_at-append [] x = refl
  remove_at-append (y ∷ xs) x = ap (λ r. y ∷ r) (remove_at-append xs x)

  pub length-change_at : (xs : List A) (i : ℕ) (f : A → A) → length (change_at xs i f) ≡ length xs
  length-change_at [] i f = refl
  length-change_at (x ∷ xs) zero f = refl
  length-change_at (x ∷ xs) (suc i) f = ap suc (length-change_at xs i f)

  pub change_at_back :
      (xs : List A) (i : ℕ) (f g : A → A)
      → ((x : A) → get_elem? xs i ≡ some x → g (f x) ≡ x)
      → change_at (change_at xs i f) i g ≡ xs
  change_at_back [] i f g h = refl
  change_at_back (x ∷ xs) zero f g h = ap (λ y. y ∷ xs) (h x refl)
  change_at_back (x ∷ xs) (suc i) f g h = ap (λ r. x ∷ r) (change_at_back xs i f g h)

  pub get-change_at :
      (xs : List A) (i : ℕ) (f : A → A) (k : ℕ) (o : A)
      → get_elem? (change_at xs i f) k ≡ some o
      → (x : A) × (get_elem? xs k ≡ some x) × ((o ≡ x) ⊎ ((k ≡ i) × (o ≡ f x)))
  get-change_at [] i f k o e = absurd (let bad : none ≡ some o = e in cc)
  get-change_at (x ∷ xs) zero f zero o e =
      (x, refl, inr (refl, (let both : some (f x) ≡ some o = e in cc)))
  get-change_at (x ∷ xs) zero f (suc k) o e = (o, e, inl refl)
  get-change_at (x ∷ xs) (suc i) f zero o e = (x, refl, inl (let both : some x ≡ some o = e in cc))
  get-change_at (x ∷ xs) (suc i) f (suc k) o e =
      let (y, at, c) = get-change_at xs i f k o e in
      (y, at, elim c [ inl same ↦ inl same | inr (here, same) ↦ inr (omega arith, same) ])

  pub get-change_at_self :
      (xs : List A) (i : ℕ) (f : A → A) (x : A)
      → get_elem? xs i ≡ some x
      → get_elem? (change_at xs i f) i ≡ some (f x)
  get-change_at_self [] i f x e = absurd (let bad : none ≡ some x = e in cc)
  get-change_at_self (y ∷ xs) zero f x e =
      ap (λ z. some (f z)) (let both : some y ≡ some x = e in cc)
  get-change_at_self (y ∷ xs) (suc i) f x e = get-change_at_self xs i f x e
