-- ===== src/Pages/Compression.antt =====
-- compress_test/compression_test.c: get_raw_page, compress_data, decompress_data and bytea_size.
use pg_plugins.Base.{
  ℕ, ◌-◌, ◌^◌, ◌%◌, Bool, true, false, not, ◌||◌, Option, none, some, List, ◌++◌, Bytes, ltb, leb,
  ◌==◌, if◌then◌else◌, take, drop, length,
}
use pg_plugins.Base.Int.{ℤ, pos, negsuc, sub_ℕ, ◌+ℤ◌}
use pg_plugins.Pages.Store.{get_page}
use pg_plugins.Base.Result.{Result, ok, err, ◌>>◌, raise_if}

-- The conversion of an int to int16.
unfoldable pub int16 : ℤ → ℤ
int16 (pos n) =
    if ltb (n % 2 ^ 16) (2 ^ 15) then pos (n % 2 ^ 16) else negsuc (2 ^ 16 - 1 - n % 2 ^ 16)
int16 (negsuc n) =
    if ltb (n % 2 ^ 16) (2 ^ 15) then negsuc (n % 2 ^ 16) else pos (2 ^ 16 - 1 - n % 2 ^ 16)

-- A relation as the server gives it: what get_raw_page asks of it, and its main fork.
pub record Relation : Type 0 where
  pub relkind : ℕ
  pub is_other_temp : Bool
  pub pages : List Bytes

-- The codes of relkind, BLCKSZ, and pd_lower and pd_upper of a page, which are of 16 bits.
pub record Server : Type 0 where
  pub relkind_view : ℕ
  pub relkind_composite_type : ℕ
  pub relkind_foreign_table : ℕ
  pub blcksz : ℕ
  pub pd_lower : Bytes → ℕ
  pub pd_upper : Bytes → ℕ

-- The errors raised, the last where get_call_result_type fails, and an access outside of an object.
pub data PageError : Type 0 where
  not_superuser raw_page_of_view raw_page_of_composite_type : PageError
  raw_page_of_foreign_table other_temp not_row_type fault : PageError
  block_out_of_range : ℕ → PageError

module _ (server : Server) where
  open server use {blcksz, pd_lower, pd_upper}

  -- The copies from the local array, from the offset, the length and the end of the hole. With the
  -- hole, the zeros are written to the array when its copy is made already. An access outside of it
  -- is none.
  unfoldable pub copy_around :
      (with_hole : Bool) → (offset len end : ℤ) → Bytes → Option (Bytes × ℕ)
  copy_around true (pos offset) (pos len) (pos end) page =
      if ltb blcksz end then none else some (page, 0)
  copy_around true _ _ _ page = none
  copy_around false (pos offset) len (pos end) page =
      if ltb blcksz offset || ltb blcksz end
      then none
      else some (take offset page ++ drop end page, offset)
  copy_around false _ len _ page = none

  -- The page that is returned, and the offset of the hole.
  unfoldable pub copy_page : (with_hole : Bool) → Bytes → Option (Bytes × ℕ)
  unfolding copy_around int16
  copy_page with_hole page =
      let hole_length = int16 (sub_ℕ (pd_upper page) (pd_lower page)) in
      let hole_offset = int16 (pos (pd_lower page)) in
      copy_around with_hole hole_offset hole_length (hole_offset +ℤ hole_length) page

  unfoldable pub get_raw_page :
      (superuser row_type : Bool)
      → Relation
      → (blkno : ℕ) → (with_hole : Bool) → Result PageError (Bytes × ℕ)
  unfolding copy_page
  get_raw_page superuser row_type rel blkno with_hole = do
    raise_if (not superuser) not_superuser
    raise_if (rel.relkind == server.relkind_view) raw_page_of_view
    raise_if (rel.relkind == server.relkind_composite_type) raw_page_of_composite_type
    raise_if (rel.relkind == server.relkind_foreign_table) raw_page_of_foreign_table
    raise_if rel.is_other_temp other_temp
    raise_if (leb (length rel.pages) blkno) (block_out_of_range blkno)
    raise_if (not row_type) not_row_type
    elim (copy_page with_hole (get_page rel.pages blkno)) [
      | none ↦ err fault
      | some copied ↦ ok copied
    ]

-- PGLZ_Strategy, whose fields come from the arguments of the call where there are seven.
pub record Strategy : Type 0 where
  pub min_input_size : ℤ
  pub max_input_size : ℤ
  pub min_comp_rate : ℤ
  pub first_success_by : ℤ
  pub match_size_good : ℤ
  pub match_size_drop : ℤ

-- pglz_compress, none where it gives a negative length; pglz_decompress of a text to a length, none
-- where it fails; and PGLZ_strategy_always.
pub record Pglz : Type 0 where
  pub compress : Strategy → Bytes → Option Bytes
  pub decompress : Bytes → (raw_len : ℕ) → Option Bytes
  pub strategy_always : Strategy

pub data DecompressError : Type 0 where
  decompression_failed invalid_size : DecompressError

module _ (pglz : Pglz) where
  abbrev pub strategy_of : (custom : Option Strategy) → Strategy
  strategy_of none = pglz.strategy_always
  strategy_of (some s) = s

  unfoldable pub compress_data : Bytes → (custom : Option Strategy) → Bytes
  compress_data raw_data custom = elim (pglz.compress (strategy_of custom) raw_data) [
    | none ↦ raw_data
    | some compressed ↦ compressed
  ]

  -- A palloc of a negative length fails.
  unfoldable pub decompress_data : Bytes → (raw_len : ℤ) → Result DecompressError Bytes
  decompress_data compressed (negsuc _) = err invalid_size
  decompress_data compressed (pos raw_len) = elim (pglz.decompress compressed raw_len) [
    | none ↦ err decompression_failed
    | some data_ ↦ ok data_
  ]

unfoldable pub bytea_size : Bytes → ℤ
bytea_size data_ = pos (length data_)
