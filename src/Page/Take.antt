-- ===== src/Page/Take.antt =====
-- _alloc and os_memory_page_alloc over all free lists.
use native.Mathlib.Nat.{pow-le-pow_right}
use dreamos_cversion.Base.{
  ℕ, zero, suc, ◌+◌, ◌-◌, ◌^◌, ◌<◌, ◌≤◌, ◌≡◌, ◌≢◌, refl, sym, ap, subst, ◌∙◌, ◌⊎◌, inl, inr, true,
  false, Option, some, [], arith, ltb, dec_lt, ℕ_discrete,
}
use dreamos_cversion.Word.{size_mod, align_up_min, add_size, size}
use dreamos_cversion.Word.Log.{align_up_min-least}
use dreamos_cversion.Page.{
  size_to_order, page_alloc, Layout, Pages, order_uplimit, head, update, page_remove,
  page_metainfo_to_addr, split, take_page, alloc_loop, alloc,
}
use dreamos_cversion.Page.Addr.{IsLaid, addr_of, to_addr-eq}
use dreamos_cversion.Page.Alloc.{split-Sound}
use dreamos_cversion.Page.Chains.{has, first_of, nil_of}
use dreamos_cversion.Page.Lists.{Lists}
use dreamos_cversion.Page.Sound.{IsBlock, Sound, Outside, take, weight-take}
use dreamos_cversion.Page.Space.{Weight, IsAdditive, weight}

-- The two counters do not matter to the lists.
pub Sound-record :
    {L : Layout} {s : Pages} {f : Lists} (a : ℕ) (o : ℕ → ℕ)
    → Sound L s f
    → Sound L (record s { allocated = a; order_allocated = o }) f
Sound-record a o sound = record {
  holds = record {
    chain = sound.holds.chain;
    distinct = sound.holds.distinct;
    page = sound.holds.page;
    ordered = sound.holds.ordered;
    capped = sound.holds.capped;
    listed = sound.holds.listed;
  };
  blocks = sound.blocks;
  once = sound.once;
}

-- The block of order `order` at `addr` has left the free lists `f` of `s`, which are those of `s'`
-- now but for the halves that were split off: it touches no free block, and what the free blocks
-- weigh is less by its weight.
pub record Taken (L : Layout) (s : Pages) (f : Lists) (order addr : ℕ) (s' : Pages) : Type 0 where
  pub lists : Lists
  pub sound : Sound L s' lists
  pub page : ℕ
  pub block : IsBlock L order page
  pub at : addr_of L page ≡ addr
  pub outside : Outside L lists order page
  pub rest : (w : Weight) → IsAdditive w → weight L w lists + w order addr ≡ weight L w f
  pub counted : s'.allocated ≡ add_size s.allocated (size (order - 12))
  pub recorded : s'.order_allocated ≡ update s.order_allocated page order

-- The result of _alloc: the address of a block that is taken, or 0 when every list from `i` on is empty.
abbrev pub Result : (L : Layout) (s : Pages) (f : Lists) (order i : ℕ) → Option (ℕ × Pages) → Type 0
Result L s f order i o =
    ((addr : ℕ) × (s' : Pages) × (o ≡ some (addr, s')) × Taken L s f order addr s')
    ⊎ ((o ≡ some (0, s)) × ((j : ℕ) → i ≤ j → j < 65 → f j ≡ []))

module _ {L : Layout} {count : ℕ} (laid : IsLaid L count) {s : Pages} {f : Lists}
    (sound : Sound L s f) (order : ℕ) (least : 12 ≤ order) where
  take_page-eq :
      (n : ℕ) (s₁ s₂ : Pages)
      → page_remove L s (s.next (head L (order + n))) ≡ some s₁
      → split L
          (record s₁ {
            order_allocated = update s₁.order_allocated (s.next (head L (order + n))) order;
          })
          (page_metainfo_to_addr L (s.next (head L (order + n))))
          order
          n
        ≡ some s₂
      → take_page L s order (order + n)
        ≡ some (
          page_metainfo_to_addr L (s.next (head L (order + n))),
          record s₂ { allocated = add_size s₂.allocated (size (order - 12)) },
        )
  unfolding take_page
  take_page-eq n s₁ s₂ e e' =
      let d : order + n - order ≡ n = omega arith in rw (e, take_page, d, e') refl

  take_page-Taken :
      (n : ℕ)
      → order + n < 65
      → s.next (head L (order + n)) ≢ 0
      → (addr : ℕ) × (s' : Pages) × (take_page L s order (order + n) ≡ some (addr, s'))
        × Taken L s f order addr s'
  take_page-Taken n lt ne =
      let i = order + n in
      let p = s.next (head L i) in
      let m : has p (f i) ≡ true = ground (arith, first_of (sound.holds.chain i lt)) in
      let b = sound.blocks i p lt m in
      let e = to_addr-eq laid p b.page in
      let (s₁, e₁, (sound₁, a₁, o₁, out₁)) = take laid sound i p lt m in
      let (s₂, e₂, (f₂, sound₂, b₂, out₂, w₂, a₂, o₂)) =
        split-Sound laid (record s₁ { order_allocated = update s₁.order_allocated p order }) _ order
          n p least (Sound-record s₁.allocated (update s₁.order_allocated p order) sound₁) b out₁ in
      (
        page_metainfo_to_addr L p,
        record s₂ { allocated = add_size s₂.allocated (size (order - 12)) },
        take_page-eq n s₁ s₂ e₁ (
            ap
              (λ a.
                split L (record s₁ { order_allocated = update s₁.order_allocated p order }) a order
                  n)
              e
            ∙ e₂),
        record {
          lists = f₂;
          sound =
              Sound-record (add_size s₂.allocated (size (order - 12))) s₂.order_allocated sound₂;
          page = p;
          block = b₂;
          at = sym e;
          outside = out₂;
          rest = λ w add. omega (arith, w₂ w add, weight-take L w f i p lt m, ap (w order) e);
          counted = ap (λ a. add_size a (size (order - 12))) (a₂ ∙ a₁);
          recorded = o₂ ∙ ap (λ o. update o p order) o₁;
        },
      )

  empty_lem :
      (i rounds : ℕ)
      → s.next (head L i) ≡ 0
      → alloc_loop L s order i (suc rounds) ≡ alloc_loop L s order (i + 1) rounds
  unfolding alloc_loop
  empty_lem i rounds e = rw e refl

  filled_lem :
      (i rounds : ℕ)
      → s.next (head L i) ≢ 0
      → alloc_loop L s order i (suc rounds) ≡ take_page L s order i
  unfolding alloc_loop
  filled_lem i rounds ne = ground arith

  next_list : (n : ℕ) → order + n + 1 ≡ order + suc n
  next_list n = omega arith

  later :
      (i : ℕ) {o o' : Option (ℕ × Pages)}
      → f i ≡ []
      → o ≡ o'
      → Result L s f order (i + 1) o'
      → Result L s f order i o
  later i empty e (inl (addr, s', e', t)) = inl (addr, s', e ∙ e', t)
  later i empty e (inr (e', rest)) = inr (
    e ∙ e',
    λ j lo hj. elim (ℕ_discrete j i) [
      | yes same ↦ ap f same ∙ empty
      | no other ↦ rest j (omega arith) hj
    ],
  )

  alloc_loop-Result :
      (n rounds : ℕ)
      → order + n + rounds ≡ 65
      → Result L s f order (order + n) (alloc_loop L s order (order + n) rounds)
  unfolding alloc_loop
  alloc_loop-Result n zero e = inr (refl, λ j lo hj. absurd (omega arith))
  alloc_loop-Result n (suc rounds) e =
      let lt : order + n < 65 = omega arith in
      let rest = alloc_loop-Result (suc n) rounds (omega arith) in
      elim (ℕ_discrete (s.next (head L (order + n))) 0) [
        | yes none' ↦
            later (order + n) (nil_of (sound.holds.chain (order + n) lt) none')
              (empty_lem (order + n) rounds none')
              (subst (λ i. Result L s f order i (alloc_loop L s order i rounds)) (sym (next_list n))
                rest)
        | no some' ↦
            let (addr, s', e', t) = take_page-Taken n lt some' in
            inl (addr, s', filled_lem (order + n) rounds some' ∙ e', t)
      ]

  -- For sound free lists and an order from PAGE_BITS to BUDDY_ORDER_MAX, `_alloc` returns. Either
  -- it gives an address, and the block of that order there has left the free lists: the lists are
  -- sound again, no free block touches it, by every weight that is additive over halves the free
  -- blocks weigh less by exactly its weight, its page records the order, and page_allocated has
  -- grown by its pages. Or it gives 0 and changes nothing, and every list of that order or a
  -- higher one is empty.
  pub alloc-Result : order < 65 → Result L s f order order (alloc L s order)
  unfolding alloc
  alloc-Result lt =
      subst (λ i. Result L s f order i (alloc_loop L s order i (order_uplimit - order)))
        (omega arith) (alloc_loop-Result 0 (order_uplimit - order) (omega arith))

-- os_size_to_order
pub size_to_order-least :
    (bytes : ℕ)
    → 0 < bytes
    → bytes < size_mod
    → (12 ≤ size_to_order bytes)
      × (size_to_order bytes < 65)
      × (bytes ≤ 2 ^ size_to_order bytes)
      × ((k : ℕ) → 12 ≤ k → bytes ≤ 2 ^ k → size_to_order bytes ≤ k)
unfolding size_to_order
size_to_order-least bytes pos h =
    let (fits, least) = align_up_min-least bytes pos h in
    let top : align_up_min bytes ≤ 64 = least 64 (omega arith) in
    elim (dec_lt (align_up_min bytes) 12) [
      | yes low ↦
          let b : ltb (align_up_min bytes) 12 ≡ true = ground arith in
          let mono : 2 ^ align_up_min bytes ≤ 2 ^ 12 =
            pow-le-pow_right (omega arith) {j = 12} (omega arith) in
          rw b (omega arith, omega arith, omega (arith, fits, mono), λ k le _. le)
      | no high ↦
          let b : ltb (align_up_min bytes) 12 ≡ false = ground arith in
          rw b (omega arith, omega arith, fits, λ k _ le. least k le)
    ]

-- For sound free lists and a size that is not 0 and fits os_size_t, `os_memory_page_alloc` does
-- what `_alloc` does for the least order, from PAGE_BITS on, whose block has room for the size.
pub page_alloc-Result :
    {L : Layout} {count : ℕ} (laid : IsLaid L count) {s : Pages} {f : Lists}
    → Sound L s f
    → (bytes : ℕ) → 0 < bytes
    → bytes < size_mod
    → Result L s f (size_to_order bytes) (size_to_order bytes) (page_alloc L s bytes)
      × (bytes ≤ 2 ^ size_to_order bytes)
      × ((k : ℕ) → 12 ≤ k → bytes ≤ 2 ^ k → size_to_order bytes ≤ k)
unfolding page_alloc
page_alloc-Result laid sound bytes pos h =
    let (least, low, fits, minimal) = size_to_order-least bytes pos h in
    (alloc-Result laid sound (size_to_order bytes) least low, fits, minimal)
