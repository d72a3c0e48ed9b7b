-- ===== src/Page/Alloc.antt =====
-- _alloc from the free list in which it finds a block.
use native.Mathlib.Nat.{pow-suc, one-le-pow, pow-le-pow_right}
use dreamos_cversion.Base.{
  ℕ, zero, suc, ◌+◌, ◌%◌, ◌^◌, ◌<◌, ◌≤◌, ◌≡◌, refl, sym, ap, subst, ◌∙◌, some, ◌∷◌, arith, dec_lt,
}
use dreamos_cversion.Word.{add_size, size}
use dreamos_cversion.Word.Bits.{shl_one}
use dreamos_cversion.Page.{Layout, Pages, page_insert, addr_to_page_metainfo, split}
use dreamos_cversion.Page.Addr.{
  IsLaid, addr_of, page_of, to_page-eq, page_of-IsPage, addr_of-page_of,
}
use dreamos_cversion.Page.Halves.{halve, page_aligned, second_half}
use dreamos_cversion.Page.Lists.{Lists, update_list, Becomes}
use dreamos_cversion.Page.Sound.{IsBlock, Sound, Outside, give, weight-give}
use dreamos_cversion.Page.Space.{Weight, IsAdditive, weight, covers}

module _ {L : Layout} {count : ℕ} (laid : IsLaid L count) where
  -- The halves of a block are blocks.
  pub first_half-IsBlock : {i p : ℕ} → IsBlock L (suc i) p → 12 ≤ i → IsBlock L i p
  first_half-IsBlock {i} {p} b least = record {
    page = b.page;
    least = least;
    aligned = (halve i (addr_of L p) b.aligned).0;
    within = omega (arith, b.within, pow-suc 2 i);
  }

  pub block-lt : {i p : ℕ} → IsBlock L i p → i < 64
  block-lt {i} {p} b = elim (dec_lt i 64) [
    | yes low ↦ low
    | no high ↦
        let big : 2 ^ 64 ≤ 2 ^ i = pow-le-pow_right (omega arith) {i = 64} {j = i} (omega arith) in
        absurd (omega (arith, b.within, laid.addressable))
  ]

  -- An aligned stretch of the memory is a block.
  pub IsBlock-at :
      (i a : ℕ)
      → 12 ≤ i
      → a % 2 ^ i ≡ 0
      → L.memory_start ≤ a
      → a + 2 ^ i ≤ L.memory_end
      → (addr_to_page_metainfo L a ≡ page_of L a)
        × (addr_of L (page_of L a) ≡ a)
        × IsBlock L i (page_of L a)
  IsBlock-at i a least al lo hi =
      let pos : 1 ≤ 2 ^ i = one-le-pow i 2 (omega arith) in
      let page_al = page_aligned i a least al in
      let e = addr_of-page_of laid a lo page_al in
      (
        ground (arith, to_page-eq laid a (omega (arith, laid.addressable))),
        e,
        record {
          page = page_of-IsPage laid a lo (omega arith);
          least = least;
          aligned = subst (λ z. z % 2 ^ i ≡ 0) (sym e) al;
          within = subst (λ z. z + 2 ^ i ≤ L.memory_end) (sym e) hi;
        },
      )

  pub second_half-IsBlock :
      {i p : ℕ}
      → IsBlock L (suc i) p
      → 12 ≤ i
      → (addr_to_page_metainfo L (add_size (addr_of L p) (size i))
          ≡ page_of L (addr_of L p + 2 ^ i))
        × (addr_of L (page_of L (addr_of L p + 2 ^ i)) ≡ addr_of L p + 2 ^ i)
        × IsBlock L i (page_of L (addr_of L p + 2 ^ i))
  second_half-IsBlock {i} {p} b least =
      let e : add_size (addr_of L p) (size i) ≡ addr_of L p + 2 ^ i =
        omega
          (arith, shl_one i (omega (arith, block-lt b)), b.within, pow-suc 2 i, laid.addressable) in
      rw e (
        IsBlock-at i (addr_of L p + 2 ^ i) least
          (second_half i (addr_of L p) ∙ (halve i (addr_of L p) b.aligned).0) (omega arith)
          (omega (arith, b.within, pow-suc 2 i)))

  -- What is left of the block of order `i` at `p`, which was outside, when it has become the block of
  -- order `order` there.
  abbrev pub Splits : Pages → Lists → (order i p : ℕ) → Pages → Type 0
  Splits s f order i p s' =
      (f' : Lists) × Sound L s' f'
      × IsBlock L order p
      × Outside L f' order p
      × ((w : Weight)
          → IsAdditive w
          → weight L w f' + w order (addr_of L p) ≡ weight L w f + w i (addr_of L p))
      × (s'.allocated ≡ s.allocated)
      × (s'.order_allocated ≡ s.order_allocated)

  -- One round: the second half of the block enters list `i`.
  split_round :
      (s : Pages) (f : Lists) (i p : ℕ)
      → 12 ≤ i
      → Sound L s f
      → IsBlock L (suc i) p
      → Outside L f (suc i) p
      → Becomes L
          (page_insert L s i (addr_to_page_metainfo L (add_size (addr_of L p) (size i))))
          (Splits s f i (suc i) p)
  split_round s f i p least sound b out = insert (second_half-IsBlock b least)
    where
      lt : i < 65
      lt = omega (arith, block-lt b)

      insert :
          (addr_to_page_metainfo L (add_size (addr_of L p) (size i))
              ≡ page_of L (addr_of L p + 2 ^ i))
            × (addr_of L (page_of L (addr_of L p + 2 ^ i)) ≡ addr_of L p + 2 ^ i)
            × IsBlock L i (page_of L (addr_of L p + 2 ^ i))
          → Becomes L
              (page_insert L s i (addr_to_page_metainfo L (add_size (addr_of L p) (size i))))
              (Splits s f i (suc i) p)
      insert (page_eq, addr_eq, half) =
          let q = page_of L (addr_of L p + 2 ^ i) in
          let (s', e, (sound', a, o)) =
            give laid sound i q lt half
              (λ x lo hx. out x (omega (arith, addr_eq)) (omega (arith, addr_eq, pow-suc 2 i))) in
          (
            s',
            ap (page_insert L s i) page_eq ∙ e,
            (
              update_list f i (q ∷ f i),
              sound',
              first_half-IsBlock b least,
              λ x lo hx. ground (
                arith,
                weight-give L (covers x) f i q lt,
                out x lo (omega (arith, pow-suc 2 i)),
                addr_eq,
              ),
              λ w add.
                  omega (arith, weight-give L w f i q lt, add i (addr_of L p), ap (w i) addr_eq),
              a,
              o,
            ),
          )

  split-suc :
      (s s' : Pages) (addr order n : ℕ)
      → page_insert L s (order + n) (addr_to_page_metainfo L (add_size addr (size (order + n))))
        ≡ some s'
      → split L s addr order (suc n) ≡ split L s' addr order n
  unfolding split
  split-suc s s' addr order n e = rw (e, split) refl

  still : (order : ℕ) → order ≡ order + 0
  still order = omega arith

  next_order : (order n : ℕ) → suc (order + n) ≡ order + suc n
  next_order order n = omega arith

  -- The inner loop.
  pub split-Sound :
      (s : Pages) (f : Lists) (order n p : ℕ)
      → 12 ≤ order
      → Sound L s f
      → IsBlock L (order + n) p
      → Outside L f (order + n) p
      → Becomes L (split L s (addr_of L p) order n) (Splits s f order (order + n) p)
  unfolding split
  split-Sound s f order zero p least sound b out =
      subst (λ i. IsBlock L i p → Outside L f i p → Becomes L (some s) (Splits s f order i p))
        (still order) (λ b out. (s, refl, (f, sound, b, out, λ w add. refl, refl, refl))) b out
  split-Sound s f order (suc n) p least sound b out =
      subst
        (λ i.
          IsBlock L i p
          → Outside L f i p
          → Becomes L (split L s (addr_of L p) order (suc n)) (Splits s f order i p))
        (next_order order n)
        (λ b out.
          let (s₁, e₁, (f₁, sound₁, b₁, out₁, w₁, a₁, o₁)) =
            split_round s f (order + n) p (omega arith) sound b out in
          let (s₂, e₂, (f₂, sound₂, b₂, out₂, w₂, a₂, o₂)) =
            split-Sound s₁ f₁ order n p least sound₁ b₁ out₁ in
          (
            s₂,
            split-suc s s₁ (addr_of L p) order n e₁ ∙ e₂,
            (f₂, sound₂, b₂, out₂, (λ w add. w₂ w add ∙ w₁ w add), a₂ ∙ a₁, o₂ ∙ o₁),
          ))
        b out
