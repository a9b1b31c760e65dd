-- ===== src/Pages/Swap.antt =====
-- pg_swap_pages/pg_swap_pages.c: the exchange of two pages of a relation.
use pg_plugins.Base.{ℕ, List, [], ◌∷◌, ◌++◌, Bytes, ltb, leb, length, ◌==◌, if◌then◌else◌}
use pg_plugins.Pages.Store.{get_page, set_page}
use pg_plugins.Base.Result.{Result, ok, ◌>>◌, raise_if}

pub data LockMode : Type 0 where
  share unlock : LockMode

-- The calls on the relation, on buffers, by their block, and on generic WAL.
pub data Event : Type 0 where
  read_buffer release_buffer register_full_image : (blkno : ℕ) → Event
  lock_buffer : (blkno : ℕ) → LockMode → Event
  open_relation close_relation xlog_start xlog_finish : Event

pub data SwapError : Type 0 where
  invalid_block_number_1 invalid_block_number_2 : SwapError
  block_out_of_range_1 block_out_of_range_2 : ℕ → SwapError

-- The three calls of memcpy, through raw_page. A page is that of its buffer, so two buffers of one
-- block are one page.
unfoldable pub switch_pages : (blkno1 blkno2 : ℕ) → List Bytes → List Bytes
switch_pages blkno1 blkno2 pages =
    let raw_page = get_page pages blkno1 in
    let pages1 = set_page pages blkno1 (get_page pages blkno2) in set_page pages1 blkno2 raw_page

-- GenericXLogFinish on the registered pages, for what it does to one page: it puts the position of the
-- record into it and zeroes its hole. Two registrations of one buffer are one page.
unfoldable pub finish_pages : (Bytes → Bytes) → (blkno1 blkno2 : ℕ) → List Bytes → List Bytes
finish_pages finish blkno1 blkno2 pages =
    let pages1 = set_page pages blkno1 (finish (get_page pages blkno1)) in
    if blkno1 == blkno2 then pages1 else set_page pages1 blkno2 (finish (get_page pages1 blkno2))

-- pg_swap_pages on the pages of a relation, for MaxBlockNumber and what GenericXLogFinish does to a page:
-- the calls, the exchange being between the registrations and the end of the record, and the pages.
unfoldable pub pg_swap_pages :
    (finish : Bytes → Bytes) (max_block_number blkno1 blkno2 : ℕ)
    → List Bytes
    → Result SwapError (List Event × List Bytes)
unfolding switch_pages finish_pages
pg_swap_pages finish max_block_number blkno1 blkno2 pages = do
  raise_if (ltb max_block_number blkno1) invalid_block_number_1
  raise_if (ltb max_block_number blkno2) invalid_block_number_2
  raise_if (leb (length pages) blkno1) (block_out_of_range_1 blkno1)
  raise_if (leb (length pages) blkno2) (block_out_of_range_2 blkno2)
  let before =
      open_relation
      ∷ read_buffer blkno1
      ∷ lock_buffer blkno1 share
      ∷ read_buffer blkno2
      ∷ lock_buffer blkno2 share
      ∷ xlog_start
      ∷ register_full_image blkno1
      ∷ register_full_image blkno2
      ∷ []
  let after =
      xlog_finish
      ∷ lock_buffer blkno1 unlock
      ∷ lock_buffer blkno2 unlock
      ∷ release_buffer blkno1
      ∷ release_buffer blkno2
      ∷ close_relation
      ∷ []
  ok (before ++ after, finish_pages finish blkno1 blkno2 (switch_pages blkno1 blkno2 pages))
