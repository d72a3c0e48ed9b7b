-- ===== src/Page/Free.antt =====
-- _free: a block goes back to the free lists.
use native.Mathlib.Nat.{pow-suc}
use dreamos_cversion.Base.{
  ℕ, zero, suc, ◌+◌, ◌-◌, ◌<◌, ◌≡◌, ◌≢◌, refl, ap, subst, ◌∙◌, ◌⊎◌, inl, inr, true, false, ◌&&◌,
  not, some, ◌∷◌, arith, ltb, ◌==◌, ℕ_discrete,
}
use dreamos_cversion.Word.{sub_size, size}
use dreamos_cversion.Page.{
  Layout, Pages, order_max, order_uplimit, buddy_get, get_big_page, page_insert, page_remove,
  addr_to_page_metainfo, free_loop, free, page_free,
}
use dreamos_cversion.Page.Addr.{
  IsLaid, addr_of, to_page-eq, page_of-addr_of, addr_of-bounds, page-ne-null,
}
use dreamos_cversion.Page.Alloc.{block-lt}
use dreamos_cversion.Page.Buddy.{IsHalved, buddy_get-IsPage, get_big_page-IsHalved}
use dreamos_cversion.Page.Chains.{has, remove}
use dreamos_cversion.Page.Lists.{Lists, update_list, Becomes}
use dreamos_cversion.Page.Sound.{IsBlock, Sound, Outside, give, take, weight-give, weight-take}
use dreamos_cversion.Page.Space.{Weight, IsAdditive, weight, covers}
use dreamos_cversion.Page.Take.{Sound-record}

-- The block of order `i` at `p` has joined the free lists `f` of `s`, which are those of `s'` now:
-- what the free blocks weigh is more by its weight.
pub record Given (L : Layout) (s : Pages) (f : Lists) (old_order i p : ℕ) (s' : Pages)
    : Type 0 where
  pub lists : Lists
  pub sound : Sound L s' lists
  pub rest : (w : Weight) → IsAdditive w → weight L w lists ≡ weight L w f + w i (addr_of L p)
  pub counted : s'.allocated ≡ sub_size s.allocated (size (old_order - 12))
  pub recorded : s'.order_allocated ≡ s.order_allocated

module _ {L : Layout} {count : ℕ} (laid : IsLaid L count) (old_order : ℕ) where
  -- Whether the loop goes on.
  merges_lem :
      (s s₁ : Pages) (p i rounds : ℕ)
      → buddy_get L p i ≢ 0
      → s.order (buddy_get L p i) ≡ i
      → i < 64
      → page_remove L s (buddy_get L p i) ≡ some s₁
      → free_loop L s p old_order i (suc rounds)
        ≡ free_loop L s₁ (get_big_page L p (buddy_get L p i)) old_order (i + 1) rounds
  unfolding free_loop
  merges_lem s s₁ p i rounds ne e lt r =
      let c : not (buddy_get L p i == 0) && (s.order (buddy_get L p i) == i) && ltb i order_max
          ≡ true =
        ground arith in
      rw (c, r, free_loop) refl

  ends_lem :
      (s : Pages) (p i rounds : ℕ)
      → (buddy_get L p i ≡ 0) ⊎ (s.order (buddy_get L p i) ≢ i)
      → free_loop L s p old_order i (suc rounds)
        ≡ page_insert L (record s { allocated = sub_size s.allocated (size (old_order - 12)) }) i p
  unfolding free_loop
  ends_lem s p i rounds h =
      let c : not (buddy_get L p i == 0) && (s.order (buddy_get L p i) == i) && ltb i order_max
          ≡ false =
        ground arith in
      rw c refl

  insert-Given :
      (s : Pages) (f : Lists) (i p : ℕ)
      → Sound L s f
      → IsBlock L i p
      → Outside L f i p
      → Becomes L
          (page_insert L
            (record s { allocated = sub_size s.allocated (size (old_order - 12)) })
            i
            p)
          (Given L s f old_order i p)
  insert-Given s f i p sound b out =
      let lt : i < 65 = omega (arith, block-lt laid b) in
      let (s', e, (sound', a, o)) =
        give laid
          (Sound-record (sub_size s.allocated (size (old_order - 12))) s.order_allocated sound) i p
          lt b out in
      (
        s',
        e,
        record {
          lists = update_list f i (p ∷ f i);
          sound = sound';
          rest = λ w add. weight-give L w f i p lt;
          counted = a;
          recorded = o;
        },
      )

  -- The merged block is outside when the buddy has been taken out.
  merged-Outside :
      (f : Lists) (i p q big : ℕ)
      → IsHalved L i p q big
      → Outside L f i p
      → Outside L f i q
      → Outside L f (suc i) big
  merged-Outside f i p q big h out out' x lo hx = elim (h.halves) [
    | inl (e, e') ↦ ground (arith, pow-suc 2 i, out x, out' x)
    | inr (e, e') ↦ ground (arith, pow-suc 2 i, out x, out' x)
  ]

  merged-weight :
      (w : Weight) (i p q big : ℕ)
      → IsAdditive w
      → IsHalved L i p q big
      → w (suc i) (addr_of L big) ≡ w i (addr_of L p) + w i (addr_of L q)
  merged-weight w i p q big add h = elim (h.halves) [
    | inl (e, e') ↦ add i (addr_of L big) ∙ omega (arith, ap (w i) e, ap (w i) e')
    | inr (e, e') ↦ add i (addr_of L big) ∙ omega (arith, ap (w i) e, ap (w i) e')
  ]

  -- The loop of _free.
  pub free_loop-Given :
      (s : Pages) (f : Lists) (i p rounds : ℕ)
      → i + rounds ≡ 65
      → Sound L s f
      → IsBlock L i p
      → Outside L f i p
      → Becomes L (free_loop L s p old_order i rounds) (Given L s f old_order i p)
  unfolding free_loop
  free_loop-Given s f i p zero e sound b out = absurd (omega (arith, block-lt laid b))
  free_loop-Given s f i p (suc rounds) e sound b out =
      let q = buddy_get L p i in
      let here : (buddy_get L p i ≡ 0) ⊎ (s.order (buddy_get L p i) ≢ i)
          → Becomes L (free_loop L s p old_order i (suc rounds)) (Given L s f old_order i p) =
        λ h.
          let (s', e', g) = insert-Given s f i p sound b out in
          (s', ends_lem s p i rounds h ∙ e', g) in
      elim (ℕ_discrete q 0) [
        | yes null ↦ here (inl null)
        | no ne ↦ elim (ℕ_discrete (s.order q) i) [
          | no other ↦ here (inr other)
          | yes same ↦
              let lt : i < 64 = block-lt laid b in
              let m : has q (f i) ≡ true =
                subst (λ k. has q (f k) ≡ true) same
                  (sound.holds.listed q (buddy_get-IsPage laid i p b ne).0 (omega arith)) in
              let hv = get_big_page-IsHalved laid i p b ne (sound.blocks i q (omega arith) m) in
              let f₁ = update_list f i (remove q (f i)) in
              let (s₁, e₁, (sound₁, a₁, o₁, out₁)) = take laid sound i q (omega arith) m in
              let kept : Outside L f₁ i p = λ x lo hx.
                omega (arith, weight-take L (covers x) f i q (omega arith) m, out x lo hx) in
              let (s₂, e₂, g) =
                free_loop-Given s₁ f₁ (suc i) (get_big_page L p q) rounds (omega arith) sound₁
                  hv.block (merged-Outside f₁ i p q (get_big_page L p q) hv kept out₁) in
              (
                s₂,
                merges_lem s s₁ p i rounds ne same lt e₁
                    ∙ ap (λ k. free_loop L s₁ (get_big_page L p q) old_order k rounds) (omega arith)
                    ∙ e₂,
                record {
                  lists = g.lists;
                  sound = g.sound;
                  rest = λ w add. omega (
                    arith,
                    g.rest w add,
                    merged-weight w i p q (get_big_page L p q) add hv,
                    weight-take L w f i q (omega arith) m,
                  );
                  counted = g.counted ∙ ap (λ z. sub_size z (size (old_order - 12))) a₁;
                  recorded = g.recorded ∙ o₁;
                },
              )
        ]
      ]

-- For sound free lists, `os_memory_page_free` of the address of a block that touches no free
-- block and whose page records its order returns, whatever it merges on the way: the lists are
-- sound again, by every weight that is additive over halves the free blocks weigh more by exactly
-- the weight of the block, and page_allocated is less by its pages.
pub page_free-Given :
    {L : Layout} {count : ℕ} (laid : IsLaid L count) {s : Pages} {f : Lists} (i p : ℕ)
    → Sound L s f
    → IsBlock L i p
    → Outside L f i p
    → s.order_allocated p ≡ i
    → Becomes L (page_free L s (addr_of L p)) (Given L s f i i p)
unfolding page_free free
page_free-Given {L} laid {s} {f} i p sound b out e =
    let (lo, hi, _) = addr_of-bounds laid p b.page in
    let page_eq : addr_to_page_metainfo L (addr_of L p) ≡ p = ground (
      arith,
      to_page-eq laid (addr_of L p) (omega (arith, laid.addressable)),
      page_of-addr_of laid p b.page,
    ) in
    let nonnull : (p == 0) ≡ false = ground (arith, page-ne-null laid p b.page) in
    rw (page_eq, nonnull, e)
      (free_loop-Given laid i s f i p (order_uplimit - i) (omega (arith, block-lt laid b)) sound b
        out)
