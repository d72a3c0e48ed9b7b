-- ===== src/Str/Order.antt =====
-- os_strcmp against the lexicographic order of strings.
use dreamos_cversion.Base.{
  ℕ, ◌≡◌, ◌↔◌, refl, ap, subst, ◌∙◌, Bool, true, false, ◌&&◌, ◌||◌, not, List, [], ◌∷◌, arith, ltb,
  ◌==◌,
}
use dreamos_cversion.Str.{Sign, is_same, sign, strcmp, less, same, greater}

-- No byte is 0.
abbrev pub is_string : List ℕ → Bool
is_string [] = true
is_string (x ∷ xs) = not (x == 0) && is_string xs

abbrev pub opposite : Sign → Sign
opposite less = greater
opposite same = same
opposite greater = less

-- Whether a string comes before another: a proper start of it, or with the lower byte where they first
-- differ.
abbrev pub comes_before : List ℕ → List ℕ → Bool
comes_before xs [] = false
comes_before [] (y ∷ ys) = true
comes_before (x ∷ xs) (y ∷ ys) = ltb x y || ((x == y) && comes_before xs ys)

abbrev pub is_less : Sign → Bool
is_less less = true
is_less same = false
is_less greater = false

sign-opposite : (a b : ℕ) → sign b a ≡ opposite (sign a b)
sign-opposite a b = ground arith

strcmp_self : (xs : List ℕ) → is_string xs ≡ true → strcmp xs xs ≡ same
unfolding strcmp
strcmp_self [] h = refl
strcmp_self (x ∷ xs) h = ground (arith, strcmp_self xs)

same_lem :
    (xs ys : List ℕ) → is_string xs ≡ true → is_string ys ≡ true → strcmp xs ys ≡ same → xs ≡ ys
unfolding strcmp
same_lem [] [] h k e = refl
same_lem [] (y ∷ ys) h k e = absurd (ground arith)
same_lem (x ∷ xs) [] h k e = absurd (ground arith)
same_lem (x ∷ xs) (y ∷ ys) h k e =
    let head : x ≡ y = ground arith in
    let tail : xs ≡ ys = same_lem xs ys (ground arith) (ground arith) (ground arith) in
    ap (λ z. z ∷ xs) head ∙ ap (λ r. y ∷ r) tail

opposite_lem :
    (xs ys : List ℕ)
    → is_string xs ≡ true
    → is_string ys ≡ true
    → strcmp ys xs ≡ opposite (strcmp xs ys)
unfolding strcmp
opposite_lem [] [] h k = refl
opposite_lem [] (y ∷ ys) h k = ground arith
opposite_lem (x ∷ xs) [] h k = ground arith
opposite_lem (x ∷ xs) (y ∷ ys) h k = ground (arith, opposite_lem xs ys)

trans_lem :
    (xs ys zs : List ℕ)
    → is_string xs ≡ true
    → is_string ys ≡ true
    → is_string zs ≡ true
    → strcmp xs ys ≡ less
    → strcmp ys zs ≡ less
    → strcmp xs zs ≡ less
unfolding strcmp
trans_lem [] [] zs h k l e e' = cc
trans_lem [] (y ∷ ys) [] h k l e e' = absurd (ground arith)
trans_lem [] (y ∷ ys) (z ∷ zs) h k l e e' = ground arith
trans_lem (x ∷ xs) [] zs h k l e e' = absurd (ground arith)
trans_lem (x ∷ xs) (y ∷ ys) [] h k l e e' = absurd (ground arith)
trans_lem (x ∷ xs) (y ∷ ys) (z ∷ zs) h k l e e' = ground (arith, trans_lem xs ys zs)

is_less_lem :
    (xs ys : List ℕ)
    → is_string xs ≡ true
    → is_string ys ≡ true
    → is_less (strcmp xs ys) ≡ comes_before xs ys
unfolding strcmp
is_less_lem [] [] h k = refl
is_less_lem [] (y ∷ ys) h k = ground arith
is_less_lem (x ∷ xs) [] h k = ground arith
is_less_lem (x ∷ xs) (y ∷ ys) h k = ground (arith, is_less_lem xs ys)

-- os_strcmp is the lexicographic order of strings: it gives 0 exactly for equal strings; it gives
-- -1 exactly if the first string is a proper start of the second or has the lower byte where they
-- first differ; it gives the opposite sign for the two in the other order; and -1 is transitive.
pub strcmp-order :
    (xs ys zs : List ℕ)
    → is_string xs ≡ true
    → is_string ys ≡ true
    → is_string zs ≡ true
    → ((strcmp xs ys ≡ same) ↔ (xs ≡ ys))
      × (is_less (strcmp xs ys) ≡ comes_before xs ys)
      × (strcmp ys xs ≡ opposite (strcmp xs ys))
      × (strcmp xs ys ≡ less → strcmp ys zs ≡ less → strcmp xs zs ≡ less)
strcmp-order xs ys zs h k l = (
  (same_lem xs ys h k, λ e. subst (λ r. strcmp xs r ≡ same) e (strcmp_self xs h)),
  is_less_lem xs ys h k,
  opposite_lem xs ys h k,
  trans_lem xs ys zs h k l,
)

pub is_same-eq :
    (xs ys : List ℕ)
    → is_string xs ≡ true
    → is_string ys ≡ true
    → (is_same (strcmp xs ys) ≡ true) ↔ (xs ≡ ys)
is_same-eq xs ys h k =
    let ((to, from), _, _, _) = strcmp-order xs ys [] h k refl in
    (λ e. to (ground arith), λ e. ap is_same (from e))
