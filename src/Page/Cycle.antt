-- ===== src/Page/Cycle.antt =====
-- _alloc and then os_memory_page_free.
use dreamos_cversion.Base.{
  ℕ, ◌-◌, ◌<◌, ◌≤◌, ◌≡◌, ◌≢◌, sym, ap, subst, ◌∙◌, inl, inr, Option, none, some, arith,
}
use dreamos_cversion.Word.{size_mod, sub_size, size}
use dreamos_cversion.Page.{Layout, Pages, alloc, page_free}
use dreamos_cversion.Page.Addr.{IsLaid}
use dreamos_cversion.Page.Free.{page_free-Given}
use dreamos_cversion.Page.Lists.{Lists, Becomes}
use dreamos_cversion.Page.Sound.{Sound}
use dreamos_cversion.Page.Space.{Weight, IsAdditive, weight}
use dreamos_cversion.Page.Take.{Taken, Result, alloc-Result}

-- `s` and `s'` have the same memory free: the free blocks weigh the same by every additive weight,
-- and page_allocated is the same.
pub record IsRestored (L : Layout) (s : Pages) (f : Lists) (s' : Pages) : Type 0 where
  pub lists : Lists
  pub sound : Sound L s' lists
  pub same : (w : Weight) → IsAdditive w → weight L w lists ≡ weight L w f
  pub allocated : s'.allocated ≡ s.allocated

page_free-Taken :
    {L : Layout} {count : ℕ} (laid : IsLaid L count) {s s' : Pages} {f : Lists} (order addr : ℕ)
    → s.allocated < size_mod
    → Taken L s f order addr s'
    → Becomes L (page_free L s' addr) (IsRestored L s f)
page_free-Taken {L} laid {s} {s'} {f} order addr small t =
    let recorded : s'.order_allocated t.page ≡ order =
      ap (λ o. o t.page) t.recorded ∙ ground arith in
    let (s₂, e, g) = page_free-Given laid order t.page t.sound t.block t.outside recorded in
    (
      s₂,
      ap (page_free L s') (sym t.at) ∙ e,
      record {
        lists = g.lists;
        sound = g.sound;
        same = λ w add. omega (arith, g.rest w add, t.rest w add, ap (w order) t.at);
        allocated = g.counted ∙ ap (λ a. sub_size a (size (order - 12))) t.counted ∙ omega arith;
      },
    )

-- A result with an address is the first case.
given_lem :
    {L : Layout} {s s' : Pages} {f : Lists} (order addr : ℕ) {o : Option (ℕ × Pages)}
    → o ≡ some (addr, s')
    → addr ≢ 0
    → Result L s f order order o
    → Taken L s f order addr s'
given_lem {L} {s} {s'} {f} order addr {o} e nz (inl (addr', s₂, e', t)) =
    subst (λ (r : ℕ × Pages). Taken L s f order r.0 r.1)
      (ap (λ r. elim r [ none ↦ (addr, s') | some x ↦ x ]) (sym e' ∙ e)) t
given_lem order addr {o} e nz (inr (e', _)) =
    absurd (nz (sym (ap (λ r. elim r as (λ z. ℕ) [ none ↦ 0 | some x ↦ x.0 ]) (sym e' ∙ e))))

-- For sound free lists, an order from PAGE_BITS to BUDDY_ORDER_MAX and a page_allocated that fits
-- os_size_t: if `_alloc` gives an address that is not OS_NULL, then `os_memory_page_free` of this
-- address in the state that `_alloc` left returns and restores the free memory. The lists are
-- sound, by every additive weight the free blocks weigh what they did before the allocation, and
-- page_allocated is what it was.
pub page_free-alloc :
    {L : Layout} {count : ℕ} (laid : IsLaid L count) {s s' : Pages} {f : Lists} (order addr : ℕ)
    → Sound L s f
    → 12 ≤ order
    → order < 65
    → s.allocated < size_mod
    → alloc L s order ≡ some (addr, s')
    → addr ≢ 0
    → Becomes L (page_free L s' addr) (IsRestored L s f)
page_free-alloc laid order addr sound least low small e nz =
    page_free-Taken laid order addr small
      (given_lem order addr e nz (alloc-Result laid sound order least low))
