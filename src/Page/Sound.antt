-- ===== src/Page/Sound.antt =====
-- The invariant of the allocator, and the two steps of which its loops are made: a block enters a
-- free list, or leaves one.
use native.Mathlib.Nat.{one-le-pow}
use dreamos_cversion.Base.{
  ℕ, ◌+◌, ◌%◌, ◌^◌, ◌<◌, ◌≤◌, ◌≡◌, subst, inl, inr, true, ◌&&◌, ◌∷◌, arith, ◌==◌, Bool-cases,
  dec_lt,
}
use dreamos_cversion.Page.{Layout, Pages, order_uplimit, page_insert, page_remove}
use dreamos_cversion.Page.Addr.{IsLaid, IsPage, addr_of}
use dreamos_cversion.Page.Chains.{has, remove, has-remove}
use dreamos_cversion.Page.Lists.{
  Lists, update_list, Holds, Becomes, page_insert-Holds, page_remove-Holds,
}
use dreamos_cversion.Page.Space.{
  Weight, list_weight-cons, list_weight-remove, weight, weight_below-update, covers, cover,
  cover-listed,
}

-- The block of order `i` at the page of `p` is aligned to its size and lies within the memory.
pub record IsBlock (L : Layout) (i p : ℕ) : Type 0 where
  pub page : IsPage L p
  pub least : 12 ≤ i
  pub aligned : addr_of L p % 2 ^ i ≡ 0
  pub within : addr_of L p + 2 ^ i ≤ L.memory_end

-- The lists of the state are `f`, what is in them are blocks, and no two of these overlap.
pub record Sound (L : Layout) (s : Pages) (f : Lists) : Type 0 where
  pub holds : Holds L s f
  pub blocks : (i p : ℕ) → i < 65 → has p (f i) ≡ true → IsBlock L i p
  pub once : (x : ℕ) → cover L f x ≤ 1

-- No free block touches the block of order `i` at `p`.
abbrev pub Outside : Layout → Lists → ℕ → ℕ → Type 0
Outside L f i p = (x : ℕ) → addr_of L p ≤ x → x < addr_of L p + 2 ^ i → cover L f x ≡ 0

-- What the two steps do to a weight.
pub weight-give :
    (L : Layout) (w : Weight) (f : Lists) (i p : ℕ)
    → i < 65
    → weight L w (update_list f i (p ∷ f i)) ≡ weight L w f + w i (addr_of L p)
weight-give L w f i p hi =
    omega (arith, weight_below-update L w 65 i f (p ∷ f i) hi, list_weight-cons L w i p (f i))

pub weight-take :
    (L : Layout) (w : Weight) (f : Lists) (i p : ℕ)
    → i < 65
    → has p (f i) ≡ true
    → weight L w f ≡ weight L w (update_list f i (remove p (f i))) + w i (addr_of L p)
weight-take L w f i p hi m =
    omega (
      arith,
      weight_below-update L w 65 i f (remove p (f i)) hi,
      list_weight-remove L w i p (f i) m,
    )

module _ {L : Layout} {count : ℕ} (laid : IsLaid L count) {s : Pages} {f : Lists}
    (sound : Sound L s f) where
  open sound use {holds, blocks, once}

  -- An outside page is in no list.
  outside_order : {i p : ℕ} → IsBlock L i p → Outside L f i p → s.order p ≡ order_uplimit
  outside_order {i} {p} block out = elim (dec_lt (s.order p) 65) [
    | yes low ↦
        let m = holds.listed p block.page low in
        absurd (
          omega (
            arith,
            out (addr_of L p) (omega arith) (omega (arith, one-le-pow i 2 (omega arith))),
            cover-listed L f (s.order p) p (addr_of L p) low m (omega arith)
                (omega (arith, one-le-pow (s.order p) 2 (omega arith))),
          ))
    | no high ↦ omega (arith, holds.capped p block.page)
  ]

  -- A block that is outside enters list `i`.
  pub give :
      (i p : ℕ)
      → i < 65
      → IsBlock L i p
      → Outside L f i p
      → Becomes L (page_insert L s i p) (λ s'.
        Sound L s' (update_list f i (p ∷ f i))
        × (s'.allocated ≡ s.allocated)
        × (s'.order_allocated ≡ s.order_allocated))
  give i p hi block out =
      let given_block : (j q : ℕ)
          → j < 65
          → has q (update_list f i (p ∷ f i) j) ≡ true
          → IsBlock L j q =
        λ j q hj m. elim (Bool-cases ((i == j) && (p == q))) [
          | inl same ↦
              let e : i ≡ j = ground arith in
              let e' : p ≡ q = ground arith in
              subst (λ k. IsBlock L k q) e (subst (IsBlock L i) e' block)
          | inr other ↦ sound.blocks j q hj (ground arith)
        ] in
      let (s', e, (h, a, o)) =
        page_insert-Holds laid holds i p hi block.page (outside_order block out) in
      (
        s',
        e,
        (
          record {
            holds = h;
            blocks = λ j q hj m. given_block j q hj m;
            once = λ x. ground (arith, weight-give L (covers x) f i p hi, sound.once x, out x);
          },
          a,
          o,
        ),
      )

  -- A block leaves its list, and is outside then.
  pub take :
      (i p : ℕ)
      → i < 65
      → has p (f i) ≡ true
      → Becomes L (page_remove L s p) (λ s'.
        Sound L s' (update_list f i (remove p (f i)))
        × (s'.allocated ≡ s.allocated)
        × (s'.order_allocated ≡ s.order_allocated)
        × Outside L (update_list f i (remove p (f i))) i p)
  take i p hi m =
      let (s', e, (h, a, o, _)) = page_remove-Holds laid holds i p hi m in
      (
        s',
        e,
        (
          record {
            holds = h;
            blocks = λ j q hj n.
                sound.blocks j q hj (ground (arith, has-remove p q (f j) (holds.distinct j hj)));
            once = λ x. omega (arith, weight-take L (covers x) f i p hi m, sound.once x);
          },
          a,
          o,
          λ x lo hx. ground (arith, weight-take L (covers x) f i p hi m, sound.once x),
        ),
      )
