-- ===== src/Page/Buddy.antt =====
-- buddy_get and get_big_page against the two halves of a block.
use native.Mathlib.Nat.{pow-suc, one-le-pow, div-eq_of_lt}
use dreamos_cversion.Base.{
  ℕ, suc, ◌+◌, ◌-◌, ◌/◌, ◌%◌, ◌^◌, ◌<◌, ◌≤◌, ◌≡◌, ◌≢◌, refl, sym, ap, subst, ◌∙◌, ◌⊎◌, inl, inr,
  bit_xor, arith, ◌==◌, if◌then◌else◌, dec_lt, ℕ_discrete,
}
use dreamos_cversion.Word.{size_mod, size}
use dreamos_cversion.Word.Bits.{shl_one}
use dreamos_cversion.Word.Xor.{bit_xor-pow, bit-div}
use dreamos_cversion.Page.{
  Layout, buddy_get, get_big_page, addr_to_page_metainfo, page_metainfo_to_addr,
}
use dreamos_cversion.Page.Addr.{
  IsLaid, IsPage, addr_of, page_of, to_addr-eq, to_page-eq, page_of-IsPage, addr_of-page_of,
  addr_of-le,
}
use dreamos_cversion.Page.Alloc.{block-lt}
use dreamos_cversion.Page.Halves.{halve, whole, page_aligned, second_half, second_odd}
use dreamos_cversion.Page.Sound.{IsBlock}

-- `p` and `q` are the two halves, in either order, of the block of order `i + 1` at `big`.
pub record IsHalved (L : Layout) (i p q big : ℕ) : Type 0 where
  pub block : IsBlock L (suc i) big
  pub halves :
      ((addr_of L p ≡ addr_of L big) × (addr_of L q ≡ addr_of L big + 2 ^ i))
      ⊎ ((addr_of L q ≡ addr_of L big) × (addr_of L p ≡ addr_of L big + 2 ^ i))

-- The address of the buddy.
abbrev other_half : (a i : ℕ) → ℕ
other_half a i = if a / 2 ^ i % 2 == 0 then a + 2 ^ i else a - 2 ^ i

-- The lower half of two starts a block of the next order.
upper_lem :
    (i a : ℕ) → a % 2 ^ i ≡ 0 → a / 2 ^ i % 2 ≢ 0 → (2 ^ i ≤ a) × ((a - 2 ^ i) % 2 ^ suc i ≡ 0)
upper_lem i a al odd =
    let pos : 1 ≤ 2 ^ i = one-le-pow i 2 (omega arith) in
    let ge : 2 ^ i ≤ a = elim (dec_lt a (2 ^ i)) [
      | yes low ↦ absurd (ground (arith, div-eq_of_lt low))
      | no high ↦ omega arith
    ] in
    let back : a - 2 ^ i + 2 ^ i ≡ a = omega arith in
    (
      ge,
      whole i (a - 2 ^ i) (sym (second_half i (a - 2 ^ i)) ∙ ap (λ z. z % 2 ^ i) back ∙ al) (
          let e : a / 2 ^ i ≡ (a - 2 ^ i) / 2 ^ i + 1 =
            ap (λ z. z / 2 ^ i) (sym back) ∙ second_odd i (a - 2 ^ i) in
          omega arith),
    )

other_half-aligned : (i a : ℕ) → a % 2 ^ i ≡ 0 → other_half a i % 2 ^ i ≡ 0
other_half-aligned i a al = elim (ℕ_discrete (a / 2 ^ i % 2) 0) [
  | yes even ↦ ground (arith, second_half i a)
  | no odd ↦ ground (arith, (halve i (a - 2 ^ i) (upper_lem i a al odd).1).0)
]

module _ {L : Layout} {count : ℕ} (laid : IsLaid L count) where
  IsPage-at :
      (x : ℕ)
      → x < size_mod
      → x % 4096 ≡ 0
      → addr_to_page_metainfo L x ≢ 0
      → IsPage L (addr_to_page_metainfo L x) × (addr_of L (addr_to_page_metainfo L x) ≡ x)
  IsPage-at x lt al ne =
      let lo : L.memory_start ≤ x = ground (arith, to_page-eq laid x lt) in
      let hi : x < L.memory_end = ground (arith, to_page-eq laid x lt) in
      let e : page_of L x ≡ addr_to_page_metainfo L x = ground (arith, to_page-eq laid x lt) in
      subst (λ q. IsPage L q × (addr_of L q ≡ x)) e
        (page_of-IsPage laid x lo hi, addr_of-page_of laid x lo al)

  module _ (i p : ℕ) (b : IsBlock L i p) where
    buddy_addr : bit_xor (page_metainfo_to_addr L p) (size i) ≡ other_half (addr_of L p) i
    buddy_addr =
        let e : size i ≡ 2 ^ i = shl_one i (block-lt laid b) in
        rw (to_addr-eq laid p b.page, e, bit_xor-pow, bit-div) refl

    -- buddy_get gives OS_NULL, or the metadata of the other half.
    pub buddy_get-IsPage :
        buddy_get L p i ≢ 0
        → IsPage L (buddy_get L p i) × (addr_of L (buddy_get L p i) ≡ other_half (addr_of L p) i)
    unfolding buddy_get
    buddy_get-IsPage ne =
        let x = other_half (addr_of L p) i in
        let e : addr_to_page_metainfo L x ≡ buddy_get L p i =
          ap (addr_to_page_metainfo L) (sym buddy_addr) in
        let small : x < size_mod = ground (arith, b.within, laid.addressable) in
        subst (λ q. IsPage L q × (addr_of L q ≡ x)) e
          (IsPage-at x small
            (page_aligned i x b.least (other_half-aligned i (addr_of L p) b.aligned))
            (λ z. ne (sym e ∙ z)))

    -- When buddy_get of a block gives metadata and a block of the same order is there, the two
    -- are the halves of a block of the next order, which is aligned to its size and lies within
    -- the memory, and get_big_page gives its page.
    pub get_big_page-IsHalved :
        buddy_get L p i ≢ 0
        → IsBlock L i (buddy_get L p i)
        → IsHalved L i p (buddy_get L p i) (get_big_page L p (buddy_get L p i))
    get_big_page-IsHalved ne b' =
        let q = buddy_get L p i in
        let a = addr_of L p in
        let pos : 1 ≤ 2 ^ i = one-le-pow i 2 (omega arith) in
        let (page, e) = buddy_get-IsPage ne in
        let le = addr_of-le laid p q b.page page in
        elim (ℕ_discrete (a / 2 ^ i % 2) 0) [
          | yes even ↦
              let e' : addr_of L q ≡ a + 2 ^ i = ground arith in
              let big : p ≡ get_big_page L p q = ground (arith, le) in
              subst (IsHalved L i p q) big (record {
                block = record {
                  page = b.page;
                  least = omega (arith, b.least);
                  aligned = whole i a b.aligned even;
                  within = omega (arith, pow-suc 2 i, b'.within);
                };
                halves = inl (refl, e');
              })
          | no odd ↦
              let (ge, al) = upper_lem i a b.aligned odd in
              let e' : addr_of L q ≡ a - 2 ^ i = ground arith in
              let big : q ≡ get_big_page L p q = ground (arith, le) in
              subst (IsHalved L i p q) big (record {
                block = record {
                  page = page;
                  least = omega (arith, b.least);
                  aligned = subst (λ z. z % 2 ^ suc i ≡ 0) (sym e') al;
                  within = omega (arith, pow-suc 2 i, b.within);
                };
                halves = inr (refl, omega arith);
              })
        ]
