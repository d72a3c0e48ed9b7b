-- ===== src/Page/Init.antt =====
-- os_memory_page_init, up to the loop that frees the pages.
use native.Mathlib.Nat.{pow-le-pow_right}
use dreamos_cversion.Base.{
  ℕ, zero, suc, ◌+◌, ◌*◌, ◌/◌, ◌%◌, ◌^◌, ◌<◌, ◌≤◌, ◌≡◌, refl, [], arith, dec_lt,
}
use dreamos_cversion.Word.{
  size_mod, add_size, sub_size, shl, size, align_up, align_down, align_up_min,
}
use dreamos_cversion.Word.Align.{align_up-eq, align_down-eq}
use dreamos_cversion.Word.Log.{align_up_min-least}
use dreamos_cversion.Page.{Layout, Pages, head, update, order_uplimit, page_bits}
use dreamos_cversion.Page.Addr.{IsLaid, IsPage}
use dreamos_cversion.Page.Chains.{nil}
use dreamos_cversion.Page.Sound.{Sound}
use dreamos_cversion.Page.Space.{covers, weight_below-nil}

-- OS_MMU_PAGE_SIZE, and sizeof(page_metainfo_t)
abbrev page_size : ℕ
page_size = 4096

abbrev metainfo_size : ℕ
metainfo_size = 32

-- page_num, from &_heap_start and the end of the kernel's memory
pub page_count : (heap_start kernel_end : ℕ) → ℕ
page_count heap_start kernel_end =
    let mem_start = align_up heap_start page_size in
    let mem_end = align_down kernel_end page_size in
    sub_size mem_end mem_start / add_size (size (align_up_min metainfo_size)) page_size

-- The static variables that describe the layout, from page_metainfo_start and page_num on; `list` is
-- the address of page_list.
abbrev arrange : (list mem_start page_num : ℕ) → Layout
arrange list mem_start page_num =
    let bits = align_up_min metainfo_size in
    let metainfo_end = add_size mem_start (shl page_num bits) in
    let memory_start = align_up metainfo_end page_size in
    record {
      page_list = list;
      metainfo_start = mem_start;
      metainfo_end = metainfo_end;
      memory_start = memory_start;
      memory_end = add_size memory_start (shl page_num page_bits);
      metainfo_bits = bits;
    }

pub layout : (list heap_start kernel_end : ℕ) → Layout
layout list heap_start kernel_end =
    arrange list (align_up heap_start page_size) (page_count heap_start kernel_end)

module _ (L : Layout) where
  -- The loop over page_list, and the one over the metadata, each up to `n`.
  pub clear_lists : Pages → (n : ℕ) → Pages
  clear_lists s zero = s
  clear_lists s (suc n) =
      let s' = clear_lists s n in
      record s' {
        order = update s'.order (head L n) n;
        prev = update s'.prev (head L n) 0;
        next = update s'.next (head L n) 0;
      }

  pub clear_metainfo : Pages → (n : ℕ) → Pages
  clear_metainfo s zero = s
  clear_metainfo s (suc n) =
      let s' = clear_metainfo s n in
      let page = add_size L.metainfo_start (shl n L.metainfo_bits) in
      record s' {
        order = update s'.order page order_uplimit;
        prev = update s'.prev page 0;
        next = update s'.next page 0;
      }

  -- The state before the pages are freed.
  pub cleared : Pages → (page_num : ℕ) → Pages
  unfolding clear_lists clear_metainfo
  cleared s page_num = record (clear_metainfo (clear_lists s order_uplimit) page_num) {
    allocated = page_num;
  }

metainfo_bits-eq : align_up_min metainfo_size ≡ 5
metainfo_bits-eq =
    let (fits, least) = align_up_min-least 32 (omega arith) (omega arith) in
    let most = least 5 (omega arith) in
    elim (dec_lt (align_up_min 32) 5) [
      | no high ↦ omega arith
      | yes low ↦
          let small : 2 ^ align_up_min 32 ≤ 2 ^ 4 =
            pow-le-pow_right (omega arith) {j = 4} (omega arith) in
          absurd (omega (arith, small, fits))
    ]

arrange-IsLaid :
    (list mem_start page_num : ℕ)
    → 0 < list
    → list + 32 * 65 ≤ mem_start
    → mem_start + 4128 * page_num + 8192 < size_mod
    → IsLaid (arrange list mem_start page_num) page_num
arrange-IsLaid list mem_start page_num pos below small =
    let end : add_size mem_start (shl page_num 5) ≡ mem_start + 32 * page_num = omega arith in
    let up : align_up (mem_start + 32 * page_num) page_size
        ≡ (mem_start + 32 * page_num + 4095) / 4096 * 4096 =
      align_up-eq 12 (mem_start + 32 * page_num) (omega arith) (omega arith) in
    rw (metainfo_bits-eq, end, up)
      (record {
        list_above = pos;
        list_below = below;
        bits = refl;
        metainfo = refl;
        between = omega arith;
        aligned = omega arith;
        memory = omega arith;
        addressable = omega arith;
      })

-- The end of the pages.
arrange_end :
    (list mem_start page_num : ℕ)
    → mem_start + 4128 * page_num + 8192 < size_mod
    → (arrange list mem_start page_num).memory_end
      ≡ (mem_start + 32 * page_num + 4095) / 4096 * 4096 + 4096 * page_num
arrange_end list mem_start page_num small =
    let end : add_size mem_start (shl page_num 5) ≡ mem_start + 32 * page_num = omega arith in
    let up : align_up (mem_start + 32 * page_num) page_size
        ≡ (mem_start + 32 * page_num + 4095) / 4096 * 4096 =
      align_up-eq 12 (mem_start + 32 * page_num) (omega arith) (omega arith) in
    rw (metainfo_bits-eq, end, up) (omega arith)

-- The pages and their metadata fit between the two ends.
page_count-le :
    (heap_start kernel_end : ℕ)
    → heap_start + 4096 ≤ kernel_end
    → kernel_end + 8192 < size_mod
    → (align_up heap_start page_size + 4128 * page_count heap_start kernel_end
        ≤ kernel_end / 4096 * 4096)
      × (heap_start ≤ align_up heap_start page_size)
      × (align_up heap_start page_size % 4096 ≡ 0)
unfolding page_count
page_count-le heap_start kernel_end room small =
    let up : align_up heap_start page_size ≡ (heap_start + 4095) / 4096 * 4096 =
      align_up-eq 12 heap_start (omega arith) (omega arith) in
    let down : align_down kernel_end page_size ≡ kernel_end / 4096 * 4096 =
      align_down-eq 12 kernel_end (omega arith) (omega arith) in
    rw (metainfo_bits-eq, up, down) (omega arith, omega arith, omega arith)

-- If page_list lies below the heap, a page at least lies between the start of the heap and the
-- end of the kernel's memory, and that end is two pages or more from the end of the addresses,
-- then os_memory_page_init lays the metadata and the pages out one behind the other, behind
-- page_list, the pages aligned, as many of the one as of the other, all between the start of the
-- heap and the end of the kernel's memory.
pub layout-IsLaid :
    (list heap_start kernel_end : ℕ)
    → 0 < list
    → list + 32 * 65 ≤ heap_start
    → heap_start + 4096 ≤ kernel_end
    → kernel_end + 8192 < size_mod
    → IsLaid (layout list heap_start kernel_end) (page_count heap_start kernel_end)
      × (heap_start ≤ (layout list heap_start kernel_end).metainfo_start)
      × ((layout list heap_start kernel_end).memory_end ≤ kernel_end)
unfolding layout
layout-IsLaid list heap_start kernel_end pos below room small =
    let (fits, from, al) = page_count-le heap_start kernel_end room small in
    let mem_start = align_up heap_start page_size in
    let page_num = page_count heap_start kernel_end in
    let inside : mem_start + 4128 * page_num + 8192 < size_mod = omega (arith, fits) in
    (
      arrange-IsLaid list mem_start page_num pos (omega (arith, from)) inside,
      from,
      omega (arith, arrange_end list mem_start page_num inside, fits, al),
    )

module _ {L : Layout} {count : ℕ} (laid : IsLaid L count) (s : Pages) where
  clear_lists-next : (n i : ℕ) → i < n → (clear_lists L s n).next (head L i) ≡ 0
  unfolding clear_lists
  clear_lists-next zero i h = elim h [ ]
  clear_lists-next (suc n) i h = ground (arith, clear_lists-next n i)

  page_lem :
      (n : ℕ)
      → n < count
      → add_size L.metainfo_start (shl n L.metainfo_bits) ≡ L.metainfo_start + 32 * n
  page_lem n h =
      rw laid.bits (omega (arith, laid.metainfo, laid.between, laid.memory, laid.addressable))

  clear_metainfo-next :
      (n i : ℕ) → n ≤ count → i < 65 → (clear_metainfo L (clear_lists L s 65) n).next (head L i) ≡ 0
  unfolding clear_metainfo
  clear_metainfo-next zero i h lt = clear_lists-next 65 i lt
  clear_metainfo-next (suc n) i h lt = ground (arith, clear_metainfo-next n i)

  clear_metainfo-order :
      (n p : ℕ)
      → n ≤ count
      → IsPage L p
      → p < L.metainfo_start + 32 * n
      → (clear_metainfo L (clear_lists L s 65) n).order p ≡ 65
  unfolding clear_metainfo
  clear_metainfo-order zero p h page lt = absurd (omega (arith, page.from))
  clear_metainfo-order (suc n) p h page lt =
      ground (arith, clear_metainfo-order n p, page_lem n h, page.step, page.from)

  -- In a memory that is laid out, the two loops of os_memory_page_init leave sound free lists,
  -- all of them empty, whatever the structures held before.
  pub cleared-Sound : Sound L (cleared L s count) (λ i. [])
  unfolding cleared
  cleared-Sound = record {
    holds = record {
      chain = λ i h. nil (clear_metainfo-next count i (omega arith) h);
      distinct = λ i h. tt;
      page = λ i p h m. cc;
      ordered = λ i p h m. cc;
      capped = λ p h. omega (
        arith,
        clear_metainfo-order count p (omega arith) h (omega (arith, h.to, laid.metainfo)),
      );
      listed = λ p h m. absurd (
          omega (
            arith,
            clear_metainfo-order count p (omega arith) h (omega (arith, h.to, laid.metainfo)),
          ));
    };
    blocks = λ i p h m. cc;
    once = λ x. omega (arith, weight_below-nil L (covers x) 65);
  }
