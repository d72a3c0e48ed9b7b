-- ===== src/Page/Addr.antt =====
-- Pages and their metadata: the two address translations.
use dreamos_cversion.Base.{
  ℕ, ◌+◌, ◌-◌, ◌*◌, ◌/◌, ◌%◌, ◌<◌, ◌≤◌, ◌≡◌, ◌≢◌, ◌∙◌, ◌⊎◌, arith, ltb, leb, if◌then◌else◌,
}
use dreamos_cversion.Word.{size_mod}
use dreamos_cversion.Page.{Layout, head, addr_to_page_metainfo, page_metainfo_to_addr}

-- os_memory_page_init lays `count` pages out behind their metadata, which lies behind page_list.
pub record IsLaid (L : Layout) (count : ℕ) : Type 0 where
  pub list_above : 0 < L.page_list
  pub list_below : L.page_list + 32 * 65 ≤ L.metainfo_start
  pub bits : L.metainfo_bits ≡ 5
  pub metainfo : L.metainfo_end ≡ L.metainfo_start + 32 * count
  pub between : L.metainfo_end ≤ L.memory_start
  pub aligned : L.memory_start % 4096 ≡ 0
  pub memory : L.memory_end ≡ L.memory_start + 4096 * count
  pub addressable : L.memory_end < size_mod

-- `p` is the metadata of a page.
pub record IsPage (L : Layout) (p : ℕ) : Type 0 where
  pub from : L.metainfo_start ≤ p
  pub to : p < L.metainfo_end
  pub step : (p - L.metainfo_start) % 32 ≡ 0

-- The page of a structure, and the structure of an address.
abbrev pub addr_of : Layout → ℕ → ℕ
addr_of L p = L.memory_start + (p - L.metainfo_start) / 32 * 4096

abbrev pub page_of : Layout → ℕ → ℕ
page_of L addr = L.metainfo_start + (addr - L.memory_start) / 4096 * 32

module _ {L : Layout} {count : ℕ} (laid : IsLaid L count) where
  open laid use {list_above, list_below, bits, metainfo, between, aligned, memory, addressable}

  pub to_addr-eq : (p : ℕ) → IsPage L p → page_metainfo_to_addr L p ≡ addr_of L p
  unfolding page_metainfo_to_addr
  to_addr-eq p h = rw bits (ground arith)

  pub to_page-eq :
      (addr : ℕ)
      → addr < size_mod
      → addr_to_page_metainfo L addr ≡ (
          if ltb addr L.memory_start
          then 0
          else if ltb addr L.memory_end
          then page_of L addr
          else 0)
  unfolding addr_to_page_metainfo
  to_page-eq addr h = rw bits (ground arith)

  pub page_of-IsPage :
      (addr : ℕ) → L.memory_start ≤ addr → addr < L.memory_end → IsPage L (page_of L addr)
  page_of-IsPage addr lo hi = omega arith

  pub addr_of-bounds :
      (p : ℕ)
      → IsPage L p
      → (L.memory_start ≤ addr_of L p) × (addr_of L p < L.memory_end) × (addr_of L p % 4096 ≡ 0)
  addr_of-bounds p h = omega arith

  pub page_of-addr_of : (p : ℕ) → IsPage L p → page_of L (addr_of L p) ≡ p
  page_of-addr_of p h = omega arith

  pub addr_of-page_of :
      (addr : ℕ) → L.memory_start ≤ addr → addr % 4096 ≡ 0 → addr_of L (page_of L addr) ≡ addr
  addr_of-page_of addr lo a = omega arith

  -- In a memory that is laid out as page_list, the metadata and the pages, page_metainfo_to_addr
  -- and addr_to_page_metainfo are inverse to each other, on the metadata and on the addresses of
  -- the pages; and addr_to_page_metainfo gives OS_NULL outside the memory.
  pub addr_to_page_metainfo-inverse :
      ((p : ℕ) → IsPage L p → addr_to_page_metainfo L (page_metainfo_to_addr L p) ≡ p)
      × ((addr : ℕ)
          → L.memory_start ≤ addr
          → addr < L.memory_end
          → addr % 4096 ≡ 0
          → page_metainfo_to_addr L (addr_to_page_metainfo L addr) ≡ addr)
      × ((addr : ℕ)
          → addr < size_mod
          → (addr < L.memory_start) ⊎ (L.memory_end ≤ addr)
          → addr_to_page_metainfo L addr ≡ 0)
  addr_to_page_metainfo-inverse = (
    λ p h.
        rw (to_addr-eq p h)
          (ground (arith, to_page-eq (addr_of L p), addr_of-bounds p h, page_of-addr_of p h)),
    λ addr lo hi al.
        let e : addr_to_page_metainfo L addr ≡ page_of L addr = ground (arith, to_page-eq addr) in
        rw e (to_addr-eq (page_of L addr) (page_of-IsPage addr lo hi) ∙ addr_of-page_of addr lo al),
    λ addr lt out. ground (arith, to_page-eq addr lt),
  )

  -- The pages are in the order of their metadata.
  pub addr_of-le : (p q : ℕ) → IsPage L p → IsPage L q → leb p q ≡ leb (addr_of L p) (addr_of L q)
  addr_of-le p q h k = ground arith

  pub page-ne-head : (p i : ℕ) → IsPage L p → i < 65 → p ≢ head L i
  page-ne-head p i h lt = omega arith

  pub page-ne-null : (p : ℕ) → IsPage L p → p ≢ 0
  page-ne-null p h = omega arith
