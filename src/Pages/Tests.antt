-- ===== src/Pages/Tests.antt =====
-- Runs of the plugins on pages, and their theorems at concrete inputs.
use pg_plugins.Base.{
  ◌<◌, ℕ, ◌≡◌, ◌⊎◌, refl, true, false, Option, none, some, List, [], ◌∷◌, Bytes, arith, length,
  ◌==◌, if◌then◌else◌,
}
use pg_plugins.Base.Int.{pos, negsuc, ◌+ℤ◌}
use pg_plugins.Base.Result.{ok, err}
use pg_plugins.Pages.Compression
use pg_plugins.Pages.Compression.{
  Server, copy_page, get_raw_page, raw_page_of_view, block_out_of_range, fault, Strategy, Pglz,
  compress_data, decompress_data, bytea_size, strategy_of, invalid_size, decompression_failed,
}
use pg_plugins.Pages.Hole.{page_roundtrip, refill}
use pg_plugins.Pages.Swap.{pg_swap_pages, block_out_of_range_2}
use pg_plugins.Pages.Store.{get_page}
use pg_plugins.Pages.Swapped.{Swaps, swap_calls, logged, pg_swap_pages_lem}
use pg_plugins.Pages.Truncation.{
  Kinds, pg_truncate_fsm, not_a_table, open_exclusive, close_exclusive, log_truncate,
  prepare_truncate,
}

-- Pages of eight bytes, whose first two are pd_lower and pd_upper.
abbrev server : Server
server = record {
  relkind_view = 1;
  relkind_composite_type = 2;
  relkind_foreign_table = 3;
  blcksz = 8;
  pd_lower = λ page. get_byte page 0;
  pd_upper = λ page. get_byte page 1;
}
  where
    get_byte : Bytes → ℕ → ℕ
    get_byte [] i = 0
    get_byte (b ∷ s) ℕ.zero = b
    get_byte (b ∷ s) (ℕ.suc i) = get_byte s i

abbrev page : Bytes
page = 3 ∷ 6 ∷ 9 ∷ 5 ∷ 5 ∷ 5 ∷ 7 ∷ 8 ∷ []

abbrev table : Compression.Relation
table = record { relkind = 0; is_other_temp = false; pages = page ∷ [] }

abbrev strategy : Strategy
strategy = record {
  min_input_size = pos 0;
  max_input_size = pos 100;
  min_comp_rate = pos 0;
  first_success_by = pos 0;
  match_size_good = pos 0;
  match_size_drop = pos 0;
}

-- A compressor that marks its texts.
abbrev unmark : Bytes → ℕ → Option Bytes
unmark [] raw_len = none
unmark (m ∷ s) raw_len = if length s == raw_len then some s else none

abbrev pglz : Pglz
pglz = record { compress = λ s x. some (99 ∷ x); decompress = unmark; strategy_always = strategy }

unmark-mark : (s : Strategy) (x y : Bytes) → some (99 ∷ x) ≡ some y → unmark y (length x) ≡ some x
unmark-mark s x [] e = absurd (ground arith)
unmark-mark s x (m ∷ y) e = ground arith

page_roundtrip_example :
    (data_ : Bytes) × (offset : ℕ) × (get_raw_page server true true table 0 false
      ≡ ok (data_, offset))
    × ((decompress_data pglz (compress_data pglz data_ none) (bytea_size data_) ≡ ok data_)
        ⊎ ((pglz.compress (strategy_of pglz none) data_ ≡ none)
            × (compress_data pglz data_ none ≡ data_)))
    × (refill 8 offset data_ ≡ 3 ∷ 6 ∷ 9 ∷ 0 ∷ 0 ∷ 0 ∷ 7 ∷ 8 ∷ [])
    × (get_raw_page server true true table 0 true ≡ ok (page, 0))
page_roundtrip_example =
    page_roundtrip server pglz table 0 none
      (ground arith, ground arith, ground arith, refl, omega arith) (omega arith) refl (omega arith)
      (omega arith) unmark-mark

without_hole_test : get_raw_page server true true table 0 false ≡ ok (3 ∷ 6 ∷ 9 ∷ 7 ∷ 8 ∷ [], 3)
unfolding get_raw_page ◌+ℤ◌
without_hole_test = refl

-- A page whose pd_upper is behind its end.
broken_page_test :
    get_raw_page server true true (record table { pages = (3 ∷ 9 ∷ []) ∷ [] }) 0 false ≡ err fault
unfolding get_raw_page ◌+ℤ◌
broken_page_test = refl

view_test :
    get_raw_page server true true (record table { relkind = 1 }) 0 false ≡ err raw_page_of_view
unfolding get_raw_page ◌+ℤ◌
view_test = refl

out_of_range_test : get_raw_page server true true table 1 true ≡ err (block_out_of_range 1)
unfolding get_raw_page ◌+ℤ◌
out_of_range_test = refl

negative_length_test : decompress_data pglz [] (negsuc 0) ≡ err invalid_size
unfolding decompress_data
negative_length_test = refl

not_compressed_test : decompress_data pglz (1 ∷ 2 ∷ []) (pos 9) ≡ err decompression_failed
unfolding decompress_data
not_compressed_test = refl

abbrev three_pages : List Bytes
three_pages = (1 ∷ []) ∷ (2 ∷ []) ∷ (3 ∷ []) ∷ []

-- The end of a record, which stamps a page.
abbrev stamp : ℕ → Bytes → Bytes
stamp lsn page = lsn ∷ page

pg_swap_pages_lem_example :
    (once twice : List Bytes) × Swaps (stamp 7) 100 0 2 three_pages once
    × (pg_swap_pages (stamp 8) 100 0 2 once ≡ ok (swap_calls 0 2, twice))
    × ((i : ℕ)
        → i < 3
        → get_page twice i
          ≡ logged (λ (p : Bytes). stamp 8 (stamp 7 p)) 0 2 i (get_page three_pages i))
pg_swap_pages_lem_example =
    pg_swap_pages_lem (stamp 7) (stamp 8) 100 0 2 three_pages (omega arith) (omega arith)
      (omega arith) (omega arith)

swap_test :
    pg_swap_pages (stamp 7) 100 0 2 three_pages
    ≡ ok (swap_calls 0 2, (7 ∷ 3 ∷ []) ∷ (2 ∷ []) ∷ (7 ∷ 1 ∷ []) ∷ [])
unfolding pg_swap_pages
swap_test = refl

swap_out_of_range_test : pg_swap_pages (stamp 7) 100 0 3 three_pages ≡ err (block_out_of_range_2 3)
unfolding pg_swap_pages
swap_out_of_range_test = refl

abbrev kinds : Kinds
kinds = record {
  relkind_relation = 0;
  relkind_matview = 1;
  relkind_toastvalue = 2;
  smgr_truncate_fsm = 4;
}

truncate_test :
    pg_truncate_fsm kinds (record { relkind = 1; main_blocks = 7; needs_wal = true })
    ≡ ok (open_exclusive ∷ log_truncate 7 4 ∷ prepare_truncate 7 ∷ close_exclusive ∷ [])
unfolding pg_truncate_fsm
truncate_test = refl

truncate_index_test :
    pg_truncate_fsm kinds (record { relkind = 5; main_blocks = 7; needs_wal = true })
    ≡ err not_a_table
unfolding pg_truncate_fsm
truncate_index_test = refl
