-- ===== src/Page/Lists.antt =====
-- The free lists of a state, one list of pages for each order, and what page_insert and page_remove
-- do to them.
use dreamos_cversion.Base.{
  ℕ, ◌<◌, ◌≤◌, ◌≡◌, ◌≢◌, refl, sym, subst, ◌∙◌, inl, inr, true, false, ◌||◌, not, Option, some,
  List, ◌∷◌, arith, ◌==◌, if◌then◌else◌, Bool-cases,
}
use dreamos_cversion.Page.{Layout, Pages, head, update, order_uplimit, page_insert, page_remove}
use dreamos_cversion.Page.Addr.{IsLaid, IsPage, page-ne-head, page-ne-null}
use dreamos_cversion.Page.Chains.{
  has, remove, has-remove, Distinct-remove, Distinct, Chain, Chain-frame, first_of, next_in,
  prev_in, ne_null, Chain-insert, Chain-remove, insert_next, insert_prev, remove_next, remove_prev,
}

abbrev pub Lists : Type 0
Lists = ℕ → List ℕ

-- The list of order `i` becomes `xs`.
abbrev pub update_list : Lists → ℕ → List ℕ → Lists
update_list f i xs j = if i == j then xs else f j

-- page_list[i] leads through the pages of `f i`, and the order of a page says in which list it is.
pub record Holds (L : Layout) (s : Pages) (f : Lists) : Type 0 where
  pub chain : (i : ℕ) → i < 65 → Chain s.next s.prev (head L i) (f i)
  pub distinct : (i : ℕ) → i < 65 → Distinct (f i)
  pub page : (i p : ℕ) → i < 65 → has p (f i) ≡ true → IsPage L p
  pub ordered : (i p : ℕ) → i < 65 → has p (f i) ≡ true → s.order p ≡ i
  pub capped : (p : ℕ) → IsPage L p → s.order p ≤ 65
  pub listed : (p : ℕ) → IsPage L p → s.order p < 65 → has p (f (s.order p)) ≡ true

-- What a call leaves when it does not fail.
abbrev pub Becomes : Layout → Option Pages → (Pages → Type 0) → Type 0
Becomes L o P = (s' : Pages) × (o ≡ some s') × P s'

module _ {L : Layout} {count : ℕ} (laid : IsLaid L count) {s : Pages} {f : Lists}
    (h : Holds L s f) where
  not_head : (i j : ℕ) → i < 65 → j < 65 → has (head L i) (f j) ≡ false
  not_head i j hi hj = elim (Bool-cases (has (head L i) (f j))) [
    | inl yes' ↦ absurd (page-ne-head laid (head L i) i (h.page j (head L i) hj yes') hi refl)
    | inr no' ↦ no'
  ]

  not_listed : (p : ℕ) → s.order p ≡ order_uplimit → (j : ℕ) → j < 65 → has p (f j) ≡ false
  not_listed p e j hj = elim (Bool-cases (has p (f j))) [
    | inl yes' ↦ absurd (omega (arith, h.ordered j p hj yes'))
    | inr no' ↦ no'
  ]

  -- The lists of two orders share no page.
  apart : (i j p : ℕ) → i < 65 → j < 65 → i ≢ j → has p (f i) ≡ true → has p (f j) ≡ false
  apart i j p hi hj ne m = elim (Bool-cases (has p (f j))) [
    | inl yes' ↦ absurd (ne (sym (h.ordered i p hi m) ∙ h.ordered j p hj yes'))
    | inr no' ↦ no'
  ]

  module _ (i p : ℕ) (hi : i < 65) (page : IsPage L p) (out : s.order p ≡ order_uplimit) where
    -- The state that page_insert leaves.
    abbrev inserted : Pages
    inserted = record s {
      prev = insert_prev s.next s.prev (head L i) p;
      next = insert_next s.next (head L i) p;
      order = update s.order p i;
    }

    page_insert-eq : page_insert L s i p ≡ some inserted
    unfolding page_insert
    page_insert-eq = ground (arith, page-ne-null laid p page)

    -- The page that was first in list `i` is in no other list.
    first_apart :
        (j : ℕ)
        → j < 65
        → i ≢ j
        → (s.next (head L i) == 0 || not (has (s.next (head L i)) (f j))) ≡ true
    first_apart j hj ne =
        ground (arith, first_of (h.chain i hi), apart i j (s.next (head L i)) hi hj ne)

    inserted-Chain :
        (j : ℕ)
        → j < 65
        → Chain inserted.next inserted.prev (head L j) (update_list f i (p ∷ f i) j)
    inserted-Chain j hj = elim (Bool-cases (i == j)) [
      | inl same ↦
          let e : i ≡ j = ground arith in
          rw same (
            subst (λ k. Chain inserted.next inserted.prev (head L k) (p ∷ f i)) e
              (Chain-insert p (h.chain i hi) (h.distinct i hi) (not_head i i hi hi)
                (not_listed p out i hi) (page-ne-null laid p page) (page-ne-head laid p i page hi)))
      | inr other ↦
          let spared = first_apart j hj (ground arith) in
          rw other (
            Chain-frame (h.chain j hj) (ground (arith, page-ne-head laid p j page hj)) (λ q m. (
              ground (arith, not_head i j hi hj, not_listed p out j hj),
              ground (arith, spared, not_listed p out j hj),
            )))
    ]

    -- page_insert of a page that is in no list puts it in front of list `i` and leaves the other
    -- lists, the counter and the recorded orders as they are.
    pub page_insert-Holds : Becomes L (page_insert L s i p) (λ s'.
        Holds L s' (update_list f i (p ∷ f i))
        × (s'.allocated ≡ s.allocated)
        × (s'.order_allocated ≡ s.order_allocated))
    page_insert-Holds = (
      inserted,
      page_insert-eq,
      (
        record {
          chain = inserted-Chain;
          distinct = λ j hj. ground (arith, h.distinct j hj, not_listed p out i hi);
          page = λ j q hj m. elim (Bool-cases (q == p)) [
            | inl same ↦ let e : p ≡ q = ground arith in subst (IsPage L) e page
            | inr other ↦ h.page j q hj (ground arith)
          ];
          ordered = λ j q hj m. ground (arith, h.ordered j q hj, not_listed p out j hj);
          capped = λ q pq. ground (arith, h.capped q pq);
          listed = λ q pq lt. ground (arith, h.listed q pq);
        },
        refl,
        refl,
      ),
    )

  module _ (i p : ℕ) (hi : i < 65) (member : has p (f i) ≡ true) where
    abbrev removed : Pages
    removed = record s {
      prev = remove_prev s.next s.prev p;
      next = remove_next s.next s.prev p;
      order = update s.order p order_uplimit;
    }

    prev_ne_null : s.prev p ≢ 0
    prev_ne_null =
        ground (
          arith,
          prev_in p (h.chain i hi) member,
          ne_null (s.prev p) (h.chain i hi),
          laid.list_above,
        )

    page_remove-eq : page_remove L s p ≡ some removed
    unfolding page_remove
    page_remove-eq = ground (arith, ne_null p (h.chain i hi) member, prev_ne_null)

    next_apart : (j : ℕ) → j < 65 → i ≢ j → (s.next p == 0 || not (has (s.next p) (f j))) ≡ true
    next_apart j hj ne =
        ground (arith, next_in p (h.chain i hi) member, apart i j (s.next p) hi hj ne)

    prev_apart :
        (j : ℕ) → j < 65 → i ≢ j → (s.prev p == head L i || not (has (s.prev p) (f j))) ≡ true
    prev_apart j hj ne =
        ground (arith, prev_in p (h.chain i hi) member, apart i j (s.prev p) hi hj ne)

    prev-ne-head : (j : ℕ) → j < 65 → i ≢ j → s.prev p ≢ head L j
    prev-ne-head j hj ne = ground (arith, prev_in p (h.chain i hi) member, not_head j i hj hi)

    removed-Chain :
        (j : ℕ)
        → j < 65
        → Chain removed.next removed.prev (head L j) (update_list f i (remove p (f i)) j)
    removed-Chain j hj = elim (Bool-cases (i == j)) [
      | inl same ↦
          let e : i ≡ j = ground arith in
          rw same (
            subst (λ k. Chain removed.next removed.prev (head L k) (remove p (f i))) e
              (Chain-remove p (h.chain i hi) (h.distinct i hi) (not_head i i hi hi) member))
      | inr other ↦
          let ne : i ≢ j = ground arith in
          rw other (
            Chain-frame (h.chain j hj) (ground (arith, prev-ne-head j hj ne)) (λ q m. (
              ground (arith, prev_apart j hj ne, not_head i j hi hj),
              ground (arith, next_apart j hj ne),
            )))
    ]

    -- page_remove of a page that is in list `i` takes it out of that list, whichever place it has
    -- there, and leaves the other lists as they are; its order becomes BUDDY_ORDER_UPLIMIT, and
    -- the counter and the recorded orders stay.
    pub page_remove-Holds : Becomes L (page_remove L s p) (λ s'.
        Holds L s' (update_list f i (remove p (f i)))
        × (s'.allocated ≡ s.allocated)
        × (s'.order_allocated ≡ s.order_allocated)
        × (s'.order p ≡ order_uplimit))
    page_remove-Holds = (
      removed,
      page_remove-eq,
      (
        record {
          chain = removed-Chain;
          distinct =
              λ j hj. ground (arith, h.distinct j hj, Distinct-remove p (f j) (h.distinct j hj));
          page = λ j q hj m. h.page j q hj (ground (arith, has-remove p q (f j) (h.distinct j hj)));
          ordered = λ j q hj m.
              ground (
                arith,
                h.ordered j q hj,
                has-remove p q (f j) (h.distinct j hj),
                apart i j p hi hj,
              );
          capped = λ q pq. ground (arith, h.capped q pq);
          listed = λ q pq lt. ground (arith, h.listed q pq, has-remove p q (f i) (h.distinct i hi));
        },
        refl,
        refl,
        ground arith,
      ),
    )
