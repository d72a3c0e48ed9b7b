-- ===== src/Page/Tests.antt =====
-- The allocator on a memory of four pages.
use dreamos_cversion.Base.{
  ℕ, ◌%◌, ◌^◌, ◌<◌, ◌≤◌, ◌≡◌, refl, sym, ap, subst, ◌∙◌, ◌⊎◌, Option, none, some, [], ◌∷◌, arith,
  ◌==◌, if◌then◌else◌,
}
use dreamos_cversion.Word.{size_mod}
use dreamos_cversion.Page.{
  size_to_order, page_alloc, buddy_get, get_big_page, Layout, Pages, page_insert, page_remove,
  page_metainfo_to_addr, addr_to_page_metainfo, alloc_loop, take_page, split, alloc, page_free,
}
use dreamos_cversion.Page.Addr.{IsLaid, IsPage, addr_to_page_metainfo-inverse}
use dreamos_cversion.Page.Alloc.{first_half-IsBlock}
use dreamos_cversion.Page.Buddy.{IsHalved, get_big_page-IsHalved}
use dreamos_cversion.Page.Chains.{remove, nil}
use dreamos_cversion.Page.Init.{layout, page_count, cleared, layout-IsLaid, cleared-Sound}
use dreamos_cversion.Page.Space.{covers, weight_below-nil}
use dreamos_cversion.Page.Lists.{
  Lists, update_list, Holds, Becomes, page_insert-Holds, page_remove-Holds,
}
use dreamos_cversion.Page.Sound.{IsBlock, Sound, Outside, give}
use dreamos_cversion.Page.Take.{Result, alloc-Result, page_alloc-Result}
use dreamos_cversion.Page.Free.{Given, page_free-Given}
use dreamos_cversion.Page.Cycle.{IsRestored, page_free-alloc}

abbrev four : Layout
four = record {
  page_list = 4096;
  metainfo_start = 8192;
  metainfo_end = 8320;
  memory_start = 16384;
  memory_end = 32768;
  metainfo_bits = 5;
}

four-IsLaid : IsLaid four 4
four-IsLaid = record {
  list_above = omega arith;
  list_below = omega arith;
  bits = refl;
  metainfo = refl;
  between = omega arith;
  aligned = refl;
  memory = refl;
  addressable = omega arith;
}

-- No page is free.
abbrev full : Pages
full = record {
  allocated = 4;
  order = λ p. 65;
  order_allocated = λ p. 14;
  prev = λ p. 0;
  next = λ p. 0;
}

abbrev none_free : Lists
none_free i = []

full-Sound : Sound four full none_free
full-Sound = record {
  holds = record {
    chain = λ i h. nil refl;
    distinct = λ i h. tt;
    page = λ i p h m. absurd (ground arith);
    ordered = λ i p h m. absurd (ground arith);
    capped = λ p h. omega arith;
    listed = λ p h m. absurd (omega arith);
  };
  blocks = λ i p h m. absurd (ground arith);
  once = λ x. omega (arith, weight_below-nil four (covers x) 65);
}

first-IsPage : IsPage four 8192
first-IsPage = record { from = omega arith; to = omega arith; step = refl }

whole-IsBlock : IsBlock four 14 8192
whole-IsBlock = record {
  page = first-IsPage;
  least = omega arith;
  aligned = refl;
  within = omega arith;
}

full-Outside : Outside four none_free 14 8192
full-Outside x lo hi = weight_below-nil four (covers x) 65

-- All four pages are free, in one block.
abbrev empty : Pages
empty = record {
  allocated = 4;
  order = λ p. if 8192 == p then 14 else 65;
  order_allocated = λ p. 14;
  prev = λ p. if 8192 == p then 4544 else 0;
  next = λ p. if 4544 == p then 8192 else if 8192 == p then 0 else 0;
}

abbrev one_block : Lists
one_block = update_list none_free 14 (8192 ∷ [])

settled : {o : Option Pages} {s : Pages} (P : Pages → Type 0) → o ≡ some s → Becomes four o P → P s
settled {o} {s} P e (s', e', h) =
    subst P (ap (λ r. elim r [ none ↦ s | some x ↦ x ]) (sym e' ∙ e)) h

inserted_lem : page_insert four full 14 8192 ≡ some empty
unfolding page_insert
inserted_lem = refl

empty-Sound : Sound four empty one_block
empty-Sound =
    (settled _ inserted_lem
      (give four-IsLaid full-Sound 14 8192 (omega arith) whole-IsBlock full-Outside)).0

-- The address that alloc gives, 0 also if it fails.
abbrev addr_given : Option (ℕ × Pages) → ℕ
addr_given none = 0
addr_given (some (addr, s)) = addr

allocates : (addr_given (alloc four empty 12) ≡ 16384) × (addr_given (alloc four empty 15) ≡ 0)
unfolding alloc alloc_loop take_page split page_metainfo_to_addr addr_to_page_metainfo page_insert
    page_remove
allocates = (refl, refl)

addr_to_page_metainfo-inverse_example :
    ((p : ℕ) → IsPage four p → addr_to_page_metainfo four (page_metainfo_to_addr four p) ≡ p)
    × ((addr : ℕ)
        → 16384 ≤ addr
        → addr < 32768
        → addr % 4096 ≡ 0
        → page_metainfo_to_addr four (addr_to_page_metainfo four addr) ≡ addr)
    × ((addr : ℕ)
        → addr < size_mod
        → (addr < 16384) ⊎ (32768 ≤ addr)
        → addr_to_page_metainfo four addr ≡ 0)
addr_to_page_metainfo-inverse_example = addr_to_page_metainfo-inverse four-IsLaid

page_insert-Holds_example : Becomes four (page_insert four full 14 8192) (λ s'.
    Holds four s' one_block × (s'.allocated ≡ 4) × (s'.order_allocated ≡ full.order_allocated))
page_insert-Holds_example =
    page_insert-Holds four-IsLaid full-Sound.holds 14 8192 (omega arith) first-IsPage refl

page_remove-Holds_example : Becomes four (page_remove four empty 8192) (λ s'.
    Holds four s' (update_list one_block 14 (remove 8192 (8192 ∷ [])))
    × (s'.allocated ≡ 4)
    × (s'.order_allocated ≡ full.order_allocated)
    × (s'.order 8192 ≡ 65))
page_remove-Holds_example =
    page_remove-Holds four-IsLaid empty-Sound.holds 14 8192 (omega arith) refl

alloc-Result_example : Result four empty one_block 12 12 (alloc four empty 12)
alloc-Result_example = alloc-Result four-IsLaid empty-Sound 12 (omega arith) (omega arith)

page_free-Given_example :
    Becomes four (page_free four full 16384) (Given four full none_free 14 14 8192)
page_free-Given_example =
    page_free-Given four-IsLaid 14 8192 full-Sound whole-IsBlock full-Outside refl

-- The state after the block of all four pages is allocated.
state_given : Option (ℕ × Pages) → Pages
state_given none = full
state_given (some (addr, s)) = s

abbrev taken : Pages
taken = state_given (alloc four empty 14)

taken_lem : alloc four empty 14 ≡ some (16384, taken)
unfolding alloc alloc_loop take_page split state_given page_metainfo_to_addr addr_to_page_metainfo
    page_insert page_remove
taken_lem = refl

page_free-alloc_example :
    Becomes four (page_free four taken 16384) (IsRestored four empty one_block)
page_free-alloc_example =
    page_free-alloc four-IsLaid 14 16384 empty-Sound (omega arith) (omega arith) (omega arith)
      taken_lem (omega arith)

-- The two pages of order 12 at the start of the memory.
page-IsBlock : IsBlock four 12 8192
page-IsBlock =
    first_half-IsBlock four-IsLaid (first_half-IsBlock four-IsLaid whole-IsBlock (omega arith))
      (omega arith)

second-IsBlock : IsBlock four 12 8224
second-IsBlock = record {
  page = record { from = omega arith; to = omega arith; step = refl };
  least = omega arith;
  aligned = refl;
  within = omega arith;
}

buddy_lem : buddy_get four 8192 12 ≡ 8224
unfolding buddy_get page_metainfo_to_addr addr_to_page_metainfo
buddy_lem = refl

get_big_page-IsHalved_example :
    IsHalved four 12 8192 (buddy_get four 8192 12) (get_big_page four 8192 (buddy_get four 8192 12))
get_big_page-IsHalved_example =
    get_big_page-IsHalved four-IsLaid 12 8192 page-IsBlock (omega (arith, buddy_lem))
      (subst (IsBlock four 12) (sym buddy_lem) second-IsBlock)

page_alloc-Result_example :
    Result four empty one_block
      (size_to_order 5000)
      (size_to_order 5000)
      (page_alloc four empty 5000)
    × (5000 ≤ 2 ^ size_to_order 5000)
    × ((k : ℕ) → 12 ≤ k → 5000 ≤ 2 ^ k → size_to_order 5000 ≤ k)
page_alloc-Result_example =
    page_alloc-Result four-IsLaid empty-Sound 5000 (omega arith) (omega arith)

layout-IsLaid_example :
    IsLaid (layout 4096 8192 65536) (page_count 8192 65536)
    × (8192 ≤ (layout 4096 8192 65536).metainfo_start)
    × ((layout 4096 8192 65536).memory_end ≤ 65536)
layout-IsLaid_example =
    layout-IsLaid 4096 8192 65536 (omega arith) (omega arith) (omega arith) (omega arith)

cleared-Sound_example : Sound four (cleared four empty 4) (λ i. [])
cleared-Sound_example = cleared-Sound four-IsLaid empty
