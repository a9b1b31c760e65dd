-- ===== src/Pages/Swapped.antt =====
-- pg_swap_pages/pg_swap_pages.c: the pages after the exchange.
use pg_plugins.Base.{
  ℕ, zero, suc, ◌≤◌, ◌<◌, ◌≡◌, refl, List, [], ◌∷◌, Bytes, arith, length, ◌==◌, if◌then◌else◌, ap,
  ◌∙◌,
}
use pg_plugins.Base.Result.{ok}
use pg_plugins.Pages.Store.{get_page, set_page}
use pg_plugins.Pages.Swap.{
  share, unlock, Event, read_buffer, release_buffer, register_full_image, lock_buffer,
  open_relation, close_relation, xlog_start, xlog_finish, switch_pages, finish_pages, pg_swap_pages,
}

get_page-set_page :
    (pages : List Bytes) (i j : ℕ) (v : Bytes)
    → j < length pages
    → get_page (set_page pages i v) j ≡ (if i == j then v else get_page pages j)
get_page-set_page [] i j v h = absurd (omega arith)
get_page-set_page (p ∷ ps) zero zero v h = refl
get_page-set_page (p ∷ ps) zero (suc j) v h = ground arith
get_page-set_page (p ∷ ps) (suc i) zero v h = ground arith
get_page-set_page (p ∷ ps) (suc i) (suc j) v h = ground (arith, get_page-set_page ps i j v)

length-set_page :
    (pages : List Bytes) (i : ℕ) (v : Bytes) → length (set_page pages i v) ≡ length pages
length-set_page [] i v = refl
length-set_page (p ∷ ps) zero v = refl
length-set_page (p ∷ ps) (suc i) v = omega (arith, length-set_page ps i v)

length-switch_pages :
    (a b : ℕ) (pages : List Bytes) → length (switch_pages a b pages) ≡ length pages
unfolding switch_pages
length-switch_pages a b pages = omega (
  arith,
  length-set_page (set_page pages a (get_page pages b)) b (get_page pages a),
  length-set_page pages a (get_page pages b),
)

-- The block whose page a block has after the exchange.
abbrev pub partner : (blkno1 blkno2 i : ℕ) → ℕ
partner blkno1 blkno2 i = if i == blkno1 then blkno2 else if i == blkno2 then blkno1 else i

get_page-switch_pages :
    (a b i : ℕ) (pages : List Bytes)
    → a < length pages
    → b < length pages
    → i < length pages
    → get_page (switch_pages a b pages) i ≡ get_page pages (partner a b i)
unfolding switch_pages
get_page-switch_pages a b i pages ha hb hi =
    let inner = length-set_page pages a (get_page pages b) in
    ground (
      arith,
      inner,
      get_page-set_page (set_page pages a (get_page pages b)) b i (get_page pages a),
      get_page-set_page pages a i (get_page pages b),
    )

partner-lt : (a b i n : ℕ) → a < n → b < n → i < n → partner a b i < n
partner-lt a b i n ha hb hi = ground arith

partner_twice : (a b i : ℕ) → partner a b (partner a b i) ≡ i
partner_twice a b i = ground arith

-- What the end of the record does to the page of a block: something to those of the two blocks only.
abbrev pub logged : (finish : Bytes → Bytes) (blkno1 blkno2 i : ℕ) → Bytes → Bytes
logged finish blkno1 blkno2 i page =
    if i == blkno1 then finish page else if i == blkno2 then finish page else page

get_page-finish_pages :
    (f : Bytes → Bytes) (a b i : ℕ) (pages : List Bytes)
    → a < length pages
    → b < length pages
    → i < length pages
    → get_page (finish_pages f a b pages) i ≡ logged f a b i (get_page pages i)
unfolding finish_pages
get_page-finish_pages f a b i pages ha hb hi =
    let one = set_page pages a (f (get_page pages a)) in
    let same = length-set_page pages a (f (get_page pages a)) in
    ground (
      arith,
      same,
      get_page-set_page pages a i (f (get_page pages a)),
      get_page-set_page pages a b (f (get_page pages a)),
      get_page-set_page one b i (f (get_page one b)),
    )

length-finish_pages :
    (f : Bytes → Bytes) (a b : ℕ) (pages : List Bytes)
    → length (finish_pages f a b pages) ≡ length pages
unfolding finish_pages
length-finish_pages f a b pages =
    let one = set_page pages a (f (get_page pages a)) in
    ground (
      arith,
      length-set_page pages a (f (get_page pages a)),
      length-set_page one b (f (get_page one b)),
    )

-- All the calls, in order.
abbrev pub swap_calls : (blkno1 blkno2 : ℕ) → List Event
swap_calls blkno1 blkno2 =
    open_relation
    ∷ read_buffer blkno1
    ∷ lock_buffer blkno1 share
    ∷ read_buffer blkno2
    ∷ lock_buffer blkno2 share
    ∷ xlog_start
    ∷ register_full_image blkno1
    ∷ register_full_image blkno2
    ∷ xlog_finish
    ∷ lock_buffer blkno1 unlock
    ∷ lock_buffer blkno2 unlock
    ∷ release_buffer blkno1
    ∷ release_buffer blkno2
    ∷ close_relation
    ∷ []

-- A call that is accepted exchanges the pages of two blocks and logs them.
abbrev pub Swaps :
    (finish : Bytes → Bytes) (max_block_number a b : ℕ) (before after : List Bytes) → Type 0
Swaps finish max_block_number a b before after =
    (pg_swap_pages finish max_block_number a b before ≡ ok (swap_calls a b, after))
    × (length after ≡ length before)
    × ((i : ℕ)
        → i < length before
        → get_page after i ≡ logged finish a b i (get_page before (partner a b i)))

swaps :
    (finish : Bytes → Bytes) (max_block_number a b : ℕ) (pages : List Bytes)
    → a ≤ max_block_number
    → b ≤ max_block_number
    → a < length pages
    → b < length pages
    → Swaps finish max_block_number a b pages (finish_pages finish a b (switch_pages a b pages))
unfolding pg_swap_pages
swaps finish max_block_number a b pages h1 h2 h3 h4 =
    let same = length-switch_pages a b pages in
    (
      ground arith,
      length-finish_pages finish a b (switch_pages a b pages) ∙ same,
      λ i below.
          get_page-finish_pages finish a b i (switch_pages a b pages) (omega (arith, same))
            (omega (arith, same)) (omega (arith, same))
          ∙ ap (logged finish a b i) (get_page-switch_pages a b i pages h3 h4 below),
    )

logged_twice :
    (f g : Bytes → Bytes) (a b i : ℕ) (page : Bytes)
    → logged g a b i (logged f a b (partner a b i) page)
      ≡ logged (λ (p : Bytes). g (f p)) a b i page
logged_twice f g a b i page = ground arith

-- On two blocks within the limit and within the relation, also on the same block twice: pg_swap_pages
-- reads, locks in share mode and registers the two buffers, ends the record, and unlocks and releases
-- them. The page of each of the two blocks is then that of the other as GenericXLogFinish leaves it, and
-- every other page is as it was. A second call with these blocks brings each page back to its block, as
-- the two calls of GenericXLogFinish leave it.
pub pg_swap_pages_lem :
    (finish finish_again : Bytes → Bytes) (max_block_number blkno1 blkno2 : ℕ) (pages : List Bytes)
    → blkno1 ≤ max_block_number
    → blkno2 ≤ max_block_number
    → blkno1 < length pages
    → blkno2 < length pages
    → (once twice : List Bytes) × Swaps finish max_block_number blkno1 blkno2 pages once
      × (pg_swap_pages finish_again max_block_number blkno1 blkno2 once
          ≡ ok (swap_calls blkno1 blkno2, twice))
      × ((i : ℕ)
          → i < length pages
          → get_page twice i
            ≡ logged (λ (p : Bytes). finish_again (finish p)) blkno1 blkno2 i (get_page pages i))
pg_swap_pages_lem f g max_block_number a b pages h1 h2 h3 h4 =
    let once = finish_pages f a b (switch_pages a b pages) in
    let (accepted, same, moved) = swaps f max_block_number a b pages h1 h2 h3 h4 in
    let (accepted', same', moved') =
      swaps g max_block_number a b once h1 h2 (omega (arith, same)) (omega (arith, same)) in
    (
      once,
      finish_pages g a b (switch_pages a b once),
      (accepted, same, moved),
      accepted',
      λ i below.
          moved' i (omega (arith, same))
          ∙ ap (logged g a b i)
              (moved (partner a b i) (partner-lt a b i (length pages) h3 h4 below))
          ∙ logged_twice f g a b i (get_page pages (partner a b (partner a b i)))
          ∙ ap (λ (j : ℕ). logged (λ (p : Bytes). g (f p)) a b i (get_page pages j))
              (partner_twice a b i),
    )
