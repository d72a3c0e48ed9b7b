-- ===== src/Files/Table/Tests.antt =====
-- The table of descriptors on concrete inputs.
use dreamos_cversion.Base.{
  ℕ, zero, suc, ◌%◌, ◌<◌, ◌≡◌, refl, true, some, List, [], ◌∷◌, arith, get_or,
}
use dreamos_cversion.Word.{size_mod}
use dreamos_cversion.Bitmap.{Bitmap}
use dreamos_cversion.Hashmap.{Hashmap, Item}
use dreamos_cversion.Bitmap.View.{bit_at}
use dreamos_cversion.Word.Bits.{bit}
use dreamos_cversion.Files.Table.{FdTable, FdCreated, fdid_create}
use dreamos_cversion.Files.Table.Create.{InTable, Creates, fdid_create-Creates}
use dreamos_cversion.Files.Table.Fill.{
  create_fds, given_from, NoNull, Filled, TakenBelow, create_fds-Filled,
}

-- Three ids, of which 1 and 2 are free, and a map of two buckets without an item.
abbrev some_bits : Bitmap
some_bits = record { memory = 6 ∷ []; capacity = 64; size = 3; allocated = true }

abbrev no_items : Hashmap
no_items = record {
  list = [] ∷ [] ∷ [];
  count = 2;
  count_bit = 1;
  hash_function = λ bits key. key % 2;
}

abbrev some_table : FdTable
some_table = record { fd_bitmap = some_bits; fd_hashmap = no_items; refcnt = 1; lock = 0 }

one_word : (g : ℕ) → get_or (6 ∷ []) g 0 < size_mod
one_word zero = omega arith
one_word (suc g) = omega arith

no_item : (i : ℕ) → ◌≡◌ {A = List Item} (get_or ([] ∷ [] ∷ []) i []) []
no_item zero = refl
no_item (suc zero) = refl
no_item (suc (suc i)) = refl

some_table-InTable : InTable some_table
some_table-InTable = record {
  bitmap = record {
    sized = omega arith;
    tight = omega arith;
    aligned = refl;
    grouped = omega arith;
    small = omega arith;
    words = one_word;
  };
  hashmap = record {
    sized = refl;
    hashed = λ key. omega arith;
    distinct = λ key. rw (no_item (key % 2)) refl;
  };
  absent = λ fdid h. rw (no_item (fdid % 2)) refl;
}

fdid_create-Creates_example :
    (r : FdCreated) × (t' : FdTable) × (fdid_create some_table 77 true ≡ some (r, t'))
    × InTable t'
    × Creates some_table 77 true r t'
fdid_create-Creates_example = fdid_create-Creates some_table 77 true some_table-InTable

no_null : NoNull (70 ∷ 71 ∷ [])
no_null zero fd e = cc
no_null (suc zero) fd e = cc
no_null (suc (suc i)) fd e = cc

id_0_taken : TakenBelow some_table 1
unfolding bit_at bit
id_0_taken zero h = refl
id_0_taken (suc zero) h = refl
id_0_taken (suc (suc zero)) h = refl
id_0_taken (suc (suc (suc j))) h = absurd (omega arith)

create_fds-Filled_example :
    (t' : FdTable) × (create_fds some_table (70 ∷ 71 ∷ []) ≡ some (given_from 1 (70 ∷ 71 ∷ []), t'))
    × Filled some_table 1 (70 ∷ 71 ∷ []) t'
create_fds-Filled_example =
    create_fds-Filled some_table 1 (70 ∷ 71 ∷ []) some_table-InTable id_0_taken no_null
      (omega arith)
