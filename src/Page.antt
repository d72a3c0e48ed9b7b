-- ===== src/Page.antt =====
-- src/memory/os_memory_page.c: the buddy allocator of pages.
--
-- A pointer is its number, 0 is OS_NULL. The static variables and the fields of every
-- page_metainfo_t, by the address of the structure, are one record; page_list[i] is the structure at
-- `head i`. `none` stands for an access through OS_NULL.
pub mod Addr
pub mod Alloc
pub mod Buddy
pub mod Chains
pub mod Cycle
pub mod Free
pub mod Halves
pub mod Init
pub mod Lists
pub mod Sound
pub mod Space
pub mod Take
mod Tests
use Prim.Native.Nat.{bit_xor}
use dreamos_cversion.Base.{
  ℕ, zero, suc, ◌+◌, ◌-◌, ◌*◌, ◌/◌, ◌%◌, ◌^◌, ◌<◌, ◌≤◌, ◌≡◌, ◌≢◌, ◌↔◌, refl, sym, ap, subst, ◌∙◌,
  ◌⊎◌, inl, inr, min, max, bit_and, bit_or, bit_xor, Bool, true, false, ◌&&◌, ◌||◌, not, Option,
  none, some, List, [], ◌∷◌, ◌++◌, map, arith, ltb, leb, ◌==◌, if◌then◌else◌, Bool-cases,
  Option-cases, is_some, dec_lt, ℕ_discrete, length, get_or, get_elem?, set, take, drop, replicate,
  length-append, length-set, get_or-set_self, get_or-set_ne, length-replicate, get_or-replicate,
  set-set_self, ==_iff,
}
use dreamos_cversion.Word.{add_size, sub_size, shl, shr, size, align_up_min}

-- PAGE_BITS, BUDDY_ORDER_MAX, BUDDY_ORDER_UPLIMIT
abbrev pub page_bits : ℕ
page_bits = 12

abbrev pub order_max : ℕ
order_max = 64

abbrev pub order_uplimit : ℕ
order_uplimit = 65

-- What os_memory_page_init lays out, and the address of page_list: constant from then on.
pub record Layout : Type 0 where
  pub page_list : ℕ
  pub metainfo_start : ℕ
  pub metainfo_end : ℕ
  pub memory_start : ℕ
  pub memory_end : ℕ
  pub metainfo_bits : ℕ

-- page_allocated, and the fields of the structures.
pub record Pages : Type 0 where
  pub allocated : ℕ
  pub order : ℕ → ℕ
  pub order_allocated : ℕ → ℕ
  pub prev : ℕ → ℕ
  pub next : ℕ → ℕ

-- A field of the structure at `p` is written.
abbrev pub update : (ℕ → ℕ) → ℕ → ℕ → ℕ → ℕ
update f p v q = if p == q then v else f q

-- os_size_to_order
unfoldable pub size_to_order : ℕ → ℕ
size_to_order bytes = let pos = align_up_min bytes in if ltb pos page_bits then page_bits else pos

module _ (L : Layout) where
  -- &page_list[i]; a page_metainfo_t has 32 bytes.
  abbrev pub head : ℕ → ℕ
  head i = L.page_list + 32 * i

  -- addr_to_page_metainfo, page_metainfo_to_addr
  pub addr_to_page_metainfo : ℕ → ℕ
  addr_to_page_metainfo addr =
      let r =
        add_size (shl (shr (sub_size addr L.memory_start) page_bits) L.metainfo_bits)
          L.metainfo_start in
      if ltb addr L.memory_start then 0 else if leb L.metainfo_end r then 0 else r

  pub page_metainfo_to_addr : ℕ → ℕ
  page_metainfo_to_addr page =
      let r =
        add_size (shl (shr (sub_size page L.metainfo_start) L.metainfo_bits) page_bits)
          L.memory_start in
      if leb L.memory_end r then 0 else r

  -- buddy_get, which lacks its return statement: what it computes
  pub buddy_get : ℕ → ℕ → ℕ
  buddy_get page order = addr_to_page_metainfo (bit_xor (page_metainfo_to_addr page) (size order))

  -- page_insert
  pub page_insert : Pages → (order page : ℕ) → Option Pages
  page_insert s order page =
      let first = s.next (head order) in
      let s' = record s {
        prev = update s.prev page (head order);
        next = update (update s.next page first) (head order) page;
        order = update s.order page order;
      } in
      if page == 0
      then none
      else if first == 0
      then some s'
      else some (record s' { prev = update s'.prev first page })

  -- page_remove
  pub page_remove : Pages → (page : ℕ) → Option Pages
  page_remove s page =
      let s' = record s {
        next = update s.next (s.prev page) (s.next page);
        order = update s.order page order_uplimit;
      } in
      if page == 0
      then none
      else if s.prev page == 0
      then none
      else if s.next page == 0
      then some s'
      else some (record s' { prev = update s.prev (s.next page) (s.prev page) })

  -- get_big_page
  abbrev pub get_big_page : ℕ → ℕ → ℕ
  get_big_page page buddy = if leb page buddy then page else buddy

  -- The inner loop of _alloc, from i = order + rounds down to i = order.
  pub split : Pages → (addr order rounds : ℕ) → Option Pages
  split s addr order zero = some s
  split s addr order (suc rounds) =
      let i = order + rounds in
      elim (page_insert s i (addr_to_page_metainfo (add_size addr (size i)))) [
        | none ↦ none
        | some s' ↦ split s' addr order rounds
      ]

  -- What _alloc does with the first page of list `i`.
  pub take_page : Pages → (order i : ℕ) → Option (ℕ × Pages)
  unfolding split
  take_page s order i =
      let page = s.next (head i) in
      let addr = page_metainfo_to_addr page in
      elim (page_remove s page) [
        | none ↦ none
        | some s₁ ↦
            elim (split (record s₁ { order_allocated = update s₁.order_allocated page order }) addr
              order (i - order)) [
                | none ↦ none
                | some s₂ ↦ some (
                  addr,
                  record s₂ { allocated = add_size s₂.allocated (size (order - page_bits)) },
                )
              ]
      ]

  -- The outer loop of _alloc, with `rounds` orders left from `i` on. The result is the address, 0 if
  -- there is no page, and the state.
  pub alloc_loop : Pages → (order i rounds : ℕ) → Option (ℕ × Pages)
  unfolding take_page
  alloc_loop s order i zero = some (0, s)
  alloc_loop s order i (suc rounds) =
      let later = alloc_loop s order (i + 1) rounds in
      if s.next (head i) == 0 then later else take_page s order i

  -- _alloc
  pub alloc : Pages → (order : ℕ) → Option (ℕ × Pages)
  unfolding alloc_loop
  alloc s order = alloc_loop s order order (order_uplimit - order)

  -- os_memory_page_alloc
  pub page_alloc : Pages → (bytes : ℕ) → Option (ℕ × Pages)
  page_alloc s bytes = alloc s (size_to_order bytes)

  -- The loop of _free, with `rounds` orders left from `i` on.
  pub free_loop : Pages → (page old_order i rounds : ℕ) → Option Pages
  free_loop s page old_order i zero = some s
  free_loop s page old_order i (suc rounds) =
      let buddy = buddy_get page i in
      let merged : Option Pages = elim (page_remove s buddy) [
        | none ↦ none
        | some s' ↦ free_loop s' (get_big_page page buddy) old_order (i + 1) rounds
      ] in
      let inserted =
        page_insert (record s { allocated = sub_size s.allocated (size (old_order - page_bits)) }) i
          page in
      if not (buddy == 0) && (s.order buddy == i) && ltb i order_max then merged else inserted

  -- _free
  pub free : Pages → (addr old_order : ℕ) → Option Pages
  unfolding free_loop
  free s addr old_order =
      free_loop s (addr_to_page_metainfo addr) old_order old_order (order_uplimit - old_order)

  -- os_memory_page_free
  pub page_free : Pages → (addr : ℕ) → Option Pages
  page_free s addr =
      let page = addr_to_page_metainfo addr in
      if page == 0 then none else free s addr (s.order_allocated page)

  -- os_memory_page_get_allocated_page_count and its two companions
  pub allocated_page_count : Pages → ℕ
  allocated_page_count s = s.allocated

  pub total_page_count : ℕ
  total_page_count = shr (sub_size L.memory_end L.memory_start) page_bits

  pub free_page_count : Pages → ℕ
  free_page_count s = sub_size total_page_count (allocated_page_count s)
