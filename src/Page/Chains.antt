-- ===== src/Page/Chains.antt =====
-- The doubly linked lists of free pages, page_insert and page_remove.
use dreamos_cversion.Base.{
  ℕ, ◌≡◌, ◌≢◌, refl, sym, subst, ◌∙◌, inl, inr, Bool, true, false, ◌||◌, List, [], ◌∷◌, arith, ◌==◌,
  if◌then◌else◌, Bool-cases,
}
use dreamos_cversion.Page.{update}

abbrev pub has : ℕ → List ℕ → Bool
has p [] = false
has p (q ∷ xs) = (p == q) || has p xs

abbrev pub remove : ℕ → List ℕ → List ℕ
remove p [] = []
remove p (q ∷ xs) = if p == q then xs else q ∷ remove p xs

abbrev pub Distinct : List ℕ → Type 0
Distinct [] = Unit
Distinct (p ∷ xs) = (has p xs ≡ false) × Distinct xs

pub has-remove :
    (p q : ℕ) (xs : List ℕ)
    → Distinct xs
    → has q (remove p xs) ≡ (if p == q then false else has q xs)
has-remove p q [] d = ground arith
has-remove p q (r ∷ xs) d = ground (arith, has-remove p q xs d.1)

pub Distinct-remove : (p : ℕ) (xs : List ℕ) → Distinct xs → Distinct (remove p xs)
Distinct-remove p [] d = tt
Distinct-remove p (r ∷ xs) d = ground (arith, Distinct-remove p xs d.1, has-remove p r xs d.1)

-- From the structure at `a` the `next` pointers lead through `xs` to OS_NULL, and `prev` back.
pub data Chain (next prev : ℕ → ℕ) : ℕ → List ℕ → Type 0 where
  nil : {a : ℕ} → next a ≡ 0 → Chain next prev a []
  cons :
      {a p : ℕ} {xs : List ℕ}
      → next a ≡ p
      → prev p ≡ a
      → p ≢ 0
      → Chain next prev p xs
      → Chain next prev a (p ∷ xs)

module _ {next prev : ℕ → ℕ} where
  -- A chain is kept by writes that spare it.
  pub Chain-frame :
      {next' prev' : ℕ → ℕ} {a : ℕ} {xs : List ℕ}
      → Chain next prev a xs
      → next' a ≡ next a
      → ((q : ℕ) → has q xs ≡ true → (next' q ≡ next q) × (prev' q ≡ prev q))
      → Chain next' prev' a xs
  Chain-frame (nil e) ea same = nil (ea ∙ e)
  Chain-frame (cons {p} e e' ne c) ea same =
      cons (ea ∙ e) ((same p (ground arith)).1 ∙ e') ne
        (Chain-frame c (same p (ground arith)).0 (λ q h. same q (ground arith)))

  pub nil_of : {a : ℕ} {xs : List ℕ} → Chain next prev a xs → next a ≡ 0 → xs ≡ []
  nil_of (nil e) h = refl
  nil_of (cons e e' ne c) h = absurd (ne (sym e ∙ h))

  pub first_of :
      {a : ℕ} {xs : List ℕ} → Chain next prev a xs → ((next a == 0) || has (next a) xs) ≡ true
  first_of (nil e) = ground arith
  first_of (cons e e' ne c) = ground arith

  -- The neighbours of a page in a chain.
  pub next_in :
      {a : ℕ} {xs : List ℕ} (p : ℕ)
      → Chain next prev a xs
      → has p xs ≡ true
      → ((next p == 0) || has (next p) xs) ≡ true
  next_in p (nil e) h = cc
  next_in p (cons e e' ne c) h = ground (arith, first_of c, next_in p c)

  pub prev_in :
      {a : ℕ} {xs : List ℕ} (p : ℕ)
      → Chain next prev a xs
      → has p xs ≡ true
      → ((prev p == a) || has (prev p) xs) ≡ true
  prev_in p (nil e) h = cc
  prev_in p (cons e e' ne c) h = ground (arith, prev_in p c)

  pub ne_null : {a : ℕ} {xs : List ℕ} (p : ℕ) → Chain next prev a xs → has p xs ≡ true → p ≢ 0
  ne_null p (nil e) h = cc
  ne_null p (cons e e' ne c) h = ground (arith, ne_null p c)

-- The links after page_insert of `p` behind the structure at `a`, and after page_remove of `p`.
abbrev pub insert_next : (next : ℕ → ℕ) (a p : ℕ) → ℕ → ℕ
insert_next next a p = update (update next p (next a)) a p

abbrev pub insert_prev : (next prev : ℕ → ℕ) (a p : ℕ) → ℕ → ℕ
insert_prev next prev a p =
    if next a == 0 then update prev p a else update (update prev p a) (next a) p

abbrev pub remove_next : (next prev : ℕ → ℕ) (p : ℕ) → ℕ → ℕ
remove_next next prev p = update next (prev p) (next p)

abbrev pub remove_prev : (next prev : ℕ → ℕ) (p : ℕ) → ℕ → ℕ
remove_prev next prev p = if next p == 0 then prev else update prev (next p) (prev p)

module _ {next prev : ℕ → ℕ} where
  -- page_insert puts `p` in front.
  pub Chain-insert :
      {a : ℕ} {xs : List ℕ} (p : ℕ)
      → Chain next prev a xs
      → Distinct xs
      → has a xs ≡ false
      → has p xs ≡ false
      → p ≢ 0
      → p ≢ a
      → Chain (insert_next next a p) (insert_prev next prev a p) a (p ∷ xs)
  Chain-insert p (nil e) d out new ne apart =
      cons (ground arith) (ground arith) ne (nil (ground arith))
  Chain-insert p (cons e e' ne' c) d out new ne apart = cons (ground arith) (ground arith) ne (
      cons (ground arith) (ground arith) ne'
        (Chain-frame c (ground arith) (λ r i. (ground arith, ground arith))))

  -- page_remove of the page behind `a`.
  unlink :
      {a : ℕ} {xs : List ℕ} (p : ℕ)
      → Chain next prev p xs
      → prev p ≡ a
      → Distinct xs
      → has a xs ≡ false
      → Chain (remove_next next prev p) (remove_prev next prev p) a xs
  unlink p (nil e) back d out = nil (ground arith)
  unlink p (cons e e' ne c) back d out =
      cons (ground arith) (ground arith) ne
        (Chain-frame c (ground arith) (λ r i. (ground arith, ground arith)))

  -- page_remove takes `p` out.
  pub Chain-remove :
      {a : ℕ} {xs : List ℕ} (p : ℕ)
      → Chain next prev a xs
      → Distinct xs
      → has a xs ≡ false
      → has p xs ≡ true
      → Chain (remove_next next prev p) (remove_prev next prev p) a (remove p xs)
  Chain-remove p (nil e) d out h = cc
  Chain-remove {a} p (cons {p = q} {xs} e e' ne' c) d out h = elim (Bool-cases (p == q)) [
    | inl here ↦
        let same : q ≡ p = ground arith in
        rw here
          (unlink p (subst (λ r. Chain next prev r xs) same c) (ground arith) d.1 (ground arith))
    | inr there ↦ rw there (
        cons (ground (arith, prev_in p c)) (ground (arith, next_in p c)) ne'
          (Chain-remove p c d.1 d.0 (ground arith)))
  ]
