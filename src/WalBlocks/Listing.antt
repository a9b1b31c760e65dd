-- ===== src/WalBlocks/Listing.antt =====
-- pg_wal_blocks/pg_wal_blocks.c: what a run of the program writes.
use pg_plugins.Base.{
  ℕ, suc, ◌≡◌, ◌≢◌, refl, ap, ◌∙◌, Bool, true, false, Bool-cases, Option, none, some, List, [], ◌∷◌,
  ◌++◌, map, Bytes, codes, arith, str_eq, str_eq→eq, strchr, ◌⊎◌, inl, inr, ◌==◌, if◌then◌else◌,
}
use pg_plugins.Base.Result.{ok}
use pg_plugins.WalBlocks.Split.{split_path-join}
use pg_plugins.WalBlocks.Parsing.{
  BlockTag, Reader, record_read, null_record, stops, next_record, parsed, Server, block_touched,
  extract_block_info, reading_error, read_records, do_wal_parsing,
}
use pg_plugins.WalBlocks.Command.{
  Host, wal_blocks_main, first_argument, process_options, input_file,
}

-- The tags that are found.
abbrev pub present : {A : Type 0} → List (Option A) → List A
present [] = []
present (none ∷ xs) = present xs
present (some x ∷ xs) = x ∷ present xs

abbrev pub filter : {A : Type 0} → (A → Bool) → List A → List A
filter p [] = []
filter p (x ∷ xs) = let rest = filter p xs in if p x then x ∷ rest else rest

-- The block tags of all records that the reader gives, in their order.
abbrev pub tags : Reader → List BlockTag
tags (record_read blocks errormsg rest) = present blocks ++ tags rest
tags (null_record errormsg) = []
tags (stops failure) = []

-- No call of XLogReadRecord exits, and none has a message together with a record.
abbrev pub Reads : Reader → Type 0
Reads (record_read blocks errormsg rest) = (errormsg ≡ none) × Reads rest
Reads (null_record errormsg) = Unit
Reads (stops failure) = ⊥

map-append : {A B : Type 0} (f : A → B) (xs ys : List A) → map f (xs ++ ys) ≡ map f xs ++ map f ys
map-append f [] ys = refl
map-append f (x ∷ xs) ys = ap (λ (t : List _). f x ∷ t) (map-append f xs ys)

filter-append :
    {A : Type 0} (p : A → Bool) (xs ys : List A) → filter p (xs ++ ys) ≡ filter p xs ++ filter p ys
filter-append p [] ys = refl
filter-append p (x ∷ xs) ys = let rest = filter-append p xs ys in ground arith

module _ (server : Server) where
  abbrev pub in_main_fork : BlockTag → Bool
  in_main_fork tag = tag.forknum == server.main_forknum

  -- The lines of the main fork's blocks.
  abbrev pub main_lines : List BlockTag → List Bytes
  main_lines ts = map (block_touched server) (filter in_main_fork ts)

  extract_block_info_lem :
      (blocks : List (Option BlockTag))
      → extract_block_info server blocks ≡ main_lines (present blocks)
  unfolding extract_block_info
  extract_block_info_lem [] = refl
  extract_block_info_lem (none ∷ blocks) = extract_block_info_lem blocks
  extract_block_info_lem (some tag ∷ blocks) =
      let rest = extract_block_info_lem blocks in ground arith

  main_lines-append :
      (xs ys : List BlockTag) → main_lines (xs ++ ys) ≡ main_lines xs ++ main_lines ys
  main_lines-append xs ys =
      rw (filter-append in_main_fork xs ys)
        (map-append (block_touched server) (filter in_main_fork xs) (filter in_main_fork ys))

  read_records_lem :
      (path : Bytes) (reader : Reader)
      → Reads reader
      → read_records server path reader ≡ parsed (main_lines (tags reader))
  unfolding read_records reading_error
  read_records_lem path (record_read blocks errormsg rest) (quiet, reads) = rw (
    quiet,
    extract_block_info_lem blocks,
    read_records_lem path rest reads,
    main_lines-append (present blocks) (tags rest),
  )
  read_records_lem path (null_record errormsg) reads = refl
  read_records_lem path (stops failure) reads = absurd reads

process_options_lem :
    (options : List ℕ) (verbose : Bool)
    → strchr options b'?' ≡ false
    → (v : Bool) × (process_options options verbose ≡ ok v)
unfolding process_options strchr
process_options_lem [] verbose h = (verbose, refl)
process_options_lem (c ∷ options) verbose h =
    let (v, e) = process_options_lem options (if c == b'v' then true else verbose) (ground arith) in
    let passes : process_options (c ∷ options) verbose
        ≡ process_options options (if c == b'v' then true else verbose) =
      ground arith in
    (v, passes ∙ e)

str_eq-false : (a b : Bytes) → a ≢ b → str_eq a b ≡ false
str_eq-false a b differ = elim (Bool-cases (str_eq a b)) [
  | inl e ↦ absurd (differ (str_eq→eq a b e))
  | inr e ↦ e
]

-- The options that main tests before getopt_long.
abbrev pub Asks : Bytes → Type 0
Asks arg =
    (arg ≡ codes "--help") ⊎ (arg ≡ codes "-?") ⊎ (arg ≡ codes "--version") ⊎ (arg ≡ codes "-V")

first_argument_lem :
    (arg : Bytes) (args : List Bytes) → ¬ Asks arg → first_argument (arg ∷ args) ≡ ok tt
unfolding first_argument
first_argument_lem arg args h = rw (
  str_eq-false arg (codes "--help") (λ e. h (inl e)),
  str_eq-false arg (codes "-?") (λ e. h (inr (inl e))),
  str_eq-false arg (codes "--version") (λ e. h (inr (inr (inl e)))),
  str_eq-false arg (codes "-V") (λ e. h (inr (inr (inr e)))),
)

module _ (host : Host) (server : Server) where
  input_file_lem :
      (directory fname : Bytes) (timeline segno : ℕ)
      → strchr fname b'/' ≡ false
      → host.opens (directory ++ b'/' ∷ fname) ≡ true
      → host.xlog_from_file_name fname ≡ (timeline, segno)
      → input_file host ((directory ++ b'/' ∷ fname) ∷ [])
        ≡ ok (directory ++ b'/' ∷ fname, timeline, segno)
  unfolding input_file
  input_file_lem directory fname timeline segno no_slash opens named =
      rw (input_file, opens, (split_path-join directory fname no_slash).1, named)

  do_wal_parsing_lem :
      (path : Bytes) (timeline segno lsn : ℕ) (errormsg : Option Bytes) (reader : Reader)
      → server.xlog_find_next_record path timeline (server.segment_start segno)
        ≡ next_record (suc lsn) errormsg reader
      → Reads reader
      → do_wal_parsing server path segno timeline ≡ parsed (main_lines server (tags reader))
  unfolding do_wal_parsing
  do_wal_parsing_lem path timeline segno lsn errormsg reader found reads =
      let valid : (suc lsn == 0) ≡ false = ground arith in
      rw (do_wal_parsing, found, valid, read_records_lem server path reader reads)

  -- A run whose first argument asks for neither help nor version, with known options and one path, in
  -- a directory, that opens; whose first record is found; and whose reading does not exit and gives no
  -- record with a message: it writes one line for each block of the main fork that a record touches,
  -- in the order of the records and of their block references, and nothing else, and its status is 0.
  -- The timeline and the segment are those of the name behind the last slash. This holds whether the
  -- reading ends at the end of the WAL or with the message of an error.
  pub wal_blocks_listing :
      (arg : Bytes) (args : List Bytes) (options : List ℕ) (directory fname : Bytes)
      (timeline segno lsn : ℕ) (errormsg : Option Bytes) (reader : Reader)
      → ¬ Asks arg
      → host.getopt_long (arg ∷ args)
        ≡ record { options = options; operands = (directory ++ b'/' ∷ fname) ∷ [] }
      → strchr options b'?' ≡ false
      → strchr fname b'/' ≡ false
      → host.opens (directory ++ b'/' ∷ fname) ≡ true
      → host.xlog_from_file_name fname ≡ (timeline, segno)
      → server.xlog_find_next_record
          (directory ++ b'/' ∷ fname)
          timeline
          (server.segment_start segno)
        ≡ next_record (suc lsn) errormsg reader
      → Reads reader
      → wal_blocks_main host server (arg ∷ args) ≡ ok (main_lines server (tags reader), 0)
  unfolding wal_blocks_main
  wal_blocks_listing arg args options directory fname timeline segno lsn errormsg reader no_question
        given known no_slash opens named found reads =
      let path = directory ++ b'/' ∷ fname in
      let (verbose, processed) = process_options_lem options false known in
      rw (
        wal_blocks_main,
        first_argument_lem arg args no_question,
        given,
        processed,
        input_file_lem directory fname timeline segno no_slash opens named,
        do_wal_parsing_lem path timeline segno lsn errormsg reader found reads,
      )
