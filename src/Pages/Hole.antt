-- ===== src/Pages/Hole.antt =====
-- compress_test/compression_test.c: a page, its hole, and the way back from the compressed copy.
use pg_plugins.Base.{
  ℕ, zero, suc, ◌-◌, ◌≤◌, ◌<◌, ◌^◌, ◌≡◌, true, false, Bool, Option, Option-cases, ◌≢◌, ◌⊎◌, inl,
  inr, none, some, [], ◌∷◌, ◌++◌, Bytes, arith, take, drop, length, length-append, length-take,
  length-drop, take-append, drop-append,
}
use pg_plugins.Base.Int.{pos, sub_ℕ, ◌+ℤ◌}
use pg_plugins.Base.Result.{ok}
use pg_plugins.Pages.Store.{get_page}
use pg_plugins.Pages.Compression.{
  int16, Relation, Server, get_raw_page, strategy_of, copy_page, copy_around, Pglz, Strategy,
  compress_data, decompress_data, bytea_size,
}

abbrev pub zeros : ℕ → Bytes
zeros zero = []
zeros (suc n) = 0 ∷ zeros n

-- A page with zeros from lower to upper.
abbrev pub without_hole_content : (lower upper : ℕ) → Bytes → Bytes
without_hole_content lower upper page =
    take lower page ++ (zeros (upper - lower) ++ drop upper page)

-- A page again from its bytes around the hole and the offset of the hole.
abbrev pub refill : (blcksz offset : ℕ) → Bytes → Bytes
refill blcksz offset data_ =
    take offset data_ ++ (zeros (blcksz - length data_) ++ drop offset data_)

take_of_length : (n : ℕ) (xs ys : Bytes) → length xs ≡ n → take n (xs ++ ys) ≡ xs
take_of_length n xs ys e = rw (← e) (take-append xs ys)

drop_of_length : (n : ℕ) (xs ys : Bytes) → length xs ≡ n → drop n (xs ++ ys) ≡ ys
drop_of_length n xs ys e = rw (← e) (drop-append xs ys)

int16_small : (n : ℕ) → n < 2 ^ 15 → int16 (pos n) ≡ pos n
unfolding int16
int16_small n h = ground arith

module _ (server : Server) (page : Bytes) where
  open server use {blcksz, pd_lower, pd_upper}

  module _ (small : blcksz < 2 ^ 15) (whole : length page ≡ blcksz)
      (ordered : pd_lower page ≤ pd_upper page) (inside : pd_upper page ≤ blcksz) where
    length_sub : sub_ℕ (pd_upper page) (pd_lower page) ≡ pos (pd_upper page - pd_lower page)
    length_sub = ground arith

    end_add : pos (pd_lower page) +ℤ pos (pd_upper page - pd_lower page) ≡ pos (pd_upper page)
    unfolding ◌+ℤ◌
    end_add = ground arith

    copy_page-without :
        copy_page server false page
        ≡ some (take (pd_lower page) page ++ drop (pd_upper page) page, pd_lower page)
    unfolding copy_page copy_around
    copy_page-without =
        rw
          (
            copy_page,
            length_sub,
            int16_small (pd_upper page - pd_lower page) (omega arith),
            int16_small (pd_lower page) (omega arith),
            end_add,
          )
          (ground arith)

    copy_page-with : copy_page server true page ≡ some (page, 0)
    unfolding copy_page copy_around
    copy_page-with =
        rw
          (
            copy_page,
            length_sub,
            int16_small (pd_upper page - pd_lower page) (omega arith),
            int16_small (pd_lower page) (omega arith),
            end_add,
          )
          (ground arith)

    length-lower : length (take (pd_lower page) page) ≡ pd_lower page
    length-lower = omega (arith, length-take (pd_lower page) page)

    -- What is returned without the hole gives the page back, but for the content of the hole.
    refill-kept :
        refill blcksz (pd_lower page) (take (pd_lower page) page ++ drop (pd_upper page) page)
        ≡ without_hole_content (pd_lower page) (pd_upper page) page
    refill-kept =
        let hole : blcksz - length (take (pd_lower page) page ++ drop (pd_upper page) page)
            ≡ pd_upper page - pd_lower page =
          omega (
            arith,
            length-append {0} (take (pd_lower page) page) (drop (pd_upper page) page),
            length-lower,
            length-drop (pd_upper page) page,
          ) in
        rw (
          hole,
          take_of_length (pd_lower page) (take (pd_lower page) page) (drop (pd_upper page) page)
              length-lower,
          drop_of_length (pd_lower page) (take (pd_lower page) page) (drop (pd_upper page) page)
              length-lower,
        )

-- The relations and the blocks that get_raw_page does not refuse.
abbrev pub Readable : Server → Relation → ℕ → Type 0
Readable server rel blkno =
    (rel.relkind ≢ server.relkind_view)
    × (rel.relkind ≢ server.relkind_composite_type)
    × (rel.relkind ≢ server.relkind_foreign_table)
    × (rel.is_other_temp ≡ false)
    × (blkno < length rel.pages)

get_raw_page-copies :
    (server : Server) (rel : Relation) (blkno : ℕ) (with_hole : Bool) (copied : Bytes × ℕ)
    → Readable server rel blkno
    → copy_page server with_hole (get_page rel.pages blkno) ≡ some copied
    → get_raw_page server true true rel blkno with_hole ≡ ok copied
unfolding get_raw_page
get_raw_page-copies server rel blkno with_hole copied readable e =
    rw (get_raw_page, e) (ground arith)

decompress-compress :
    (pglz : Pglz) (custom : Option Strategy) (data_ : Bytes)
    → ((s : Strategy) (x y : Bytes)
        → pglz.compress s x ≡ some y
        → pglz.decompress y (length x) ≡ some x)
    → (decompress_data pglz (compress_data pglz data_ custom) (bytea_size data_) ≡ ok data_)
      ⊎ ((pglz.compress (strategy_of pglz custom) data_ ≡ none)
          × (compress_data pglz data_ custom ≡ data_))
unfolding decompress_data compress_data bytea_size
decompress-compress pglz custom data_ inverse =
    elim (Option-cases (pglz.compress (strategy_of pglz custom) data_)) [
      | inl failed ↦ inr (failed, rw (compress_data, failed))
      | inr (y, e) ↦
          inl (rw (compress_data, e) (rw (decompress_data, bytea_size, inverse _ data_ y e)))
    ]

-- Of a page that get_raw_page does not refuse, of less than 2 ^ 15 bytes and with its hole inside, the
-- call without the hole returns the bytes around the hole and its offset. Where pglz_decompress undoes
-- pglz_compress, decompress_data with bytea_size gives them back from compress_data, unless the
-- compression failed: then compress_data has returned them as they are. Zeros put back at the offset
-- give the page with its hole filled with zeros. The call with the hole returns the page as it is,
-- whatever its hole holds.
pub page_roundtrip :
    (server : Server) (pglz : Pglz) (rel : Relation) (blkno : ℕ) (custom : Option Strategy)
    → Readable server rel blkno
    → server.blcksz < 2 ^ 15
    → length (get_page rel.pages blkno) ≡ server.blcksz
    → server.pd_lower (get_page rel.pages blkno) ≤ server.pd_upper (get_page rel.pages blkno)
    → server.pd_upper (get_page rel.pages blkno) ≤ server.blcksz
    → ((s : Strategy) (x y : Bytes)
        → pglz.compress s x ≡ some y
        → pglz.decompress y (length x) ≡ some x)
    → (data_ : Bytes) × (offset : ℕ) × (get_raw_page server true true rel blkno false
        ≡ ok (data_, offset))
      × ((decompress_data pglz (compress_data pglz data_ custom) (bytea_size data_) ≡ ok data_)
          ⊎ ((pglz.compress (strategy_of pglz custom) data_ ≡ none)
              × (compress_data pglz data_ custom ≡ data_)))
      × (refill server.blcksz offset data_
          ≡ without_hole_content
              (server.pd_lower (get_page rel.pages blkno))
              (server.pd_upper (get_page rel.pages blkno))
              (get_page rel.pages blkno))
      × (get_raw_page server true true rel blkno true ≡ ok (get_page rel.pages blkno, 0))
page_roundtrip server pglz rel blkno custom readable small whole ordered inside inverse =
    let page = get_page rel.pages blkno in
    (
      take (server.pd_lower page) page ++ drop (server.pd_upper page) page,
      server.pd_lower page,
      get_raw_page-copies server rel blkno false _ readable
          (copy_page-without server page small whole ordered inside),
      decompress-compress pglz custom
          (take (server.pd_lower page) page ++ drop (server.pd_upper page) page) inverse,
      refill-kept server page small whole ordered inside,
      get_raw_page-copies server rel blkno true _ readable
          (copy_page-with server page small whole ordered inside),
    )
