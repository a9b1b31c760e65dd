-- ===== src/WalBlocks/Parsing.antt =====
-- pg_wal_blocks/pg_wal_blocks.c: XLogReadPageBlock, extract_block_info and do_wal_parsing.
use pg_plugins.Base.{
  ℕ, ◌/◌, ◌%◌, ◌^◌, not, Option, none, some, List, [], ◌∷◌, ◌++◌, Bytes, codes, ◌==◌, if◌then◌else◌,
}
use pg_plugins.Base.Int.{ℤ}

-- RelFileLocator, the fork and the block that XLogRecGetBlockTagExtended gives.
pub record BlockTag : Type 0 where
  pub db_oid : ℕ
  pub rel_number : ℕ
  pub forknum : ℕ
  pub blkno : ℕ

-- WALReadError.
pub record WalReadError : Type 0 where
  pub wre_errno : ℕ
  pub wre_off : ℕ
  pub wre_req : ℕ
  pub wre_read : ℤ
  pub ws_tli : ℕ
  pub ws_segno : ℕ

-- What ends the reading from within a callback: the file does not open, or a page is not read.
pub data PageFailure : Type 0 where
  not_opened : (strerror : Bytes) → PageFailure
  not_read : WalReadError → PageFailure

-- What the calls of XLogReadRecord give, one after another: a record, as its block references by
-- their ids (none: XLogRecGetBlockTagExtended fails on it), with the message; the end; or a failure.
pub data Reader : Type 0 where
  record_read : List (Option BlockTag) → (errormsg : Option Bytes) → Reader → Reader
  null_record : (errormsg : Option Bytes) → Reader
  stops : PageFailure → Reader

-- What XLogFindNextRecord gives: a position, 0 where it is invalid, with the message and what is
-- read from there; or a failure.
pub data FirstRecord : Type 0 where
  next_record : ℕ → (errormsg : Option Bytes) → Reader → FirstRecord
  find_stops : PageFailure → FirstRecord

-- The lines written to stderr, and EXIT_FAILURE or a return.
pub data Parsed : Type 0 where
  parsed : List Bytes → Parsed
  exit_failure : List Bytes → Parsed

abbrev pub put : List Bytes → Parsed → Parsed
put lines (parsed rest) = parsed (lines ++ rest)
put lines (exit_failure rest) = exit_failure (lines ++ rest)

-- The printing of C (%u and %d, %X), strerror, XLogFileName, MAIN_FORKNUM, the start of a segment
-- (XLogSegNoOffsetToRecPtr with offset 0), and the reader of the timeline from a position.
pub record Server : Type 0 where
  pub print_unsigned : ℕ → Bytes
  pub print_int : ℤ → Bytes
  pub print_hex : ℕ → Bytes
  pub strerror : ℕ → Bytes
  pub xlog_file_name : (tli segno : ℕ) → Bytes
  pub main_forknum : ℕ
  pub segment_start : ℕ → ℕ
  pub xlog_find_next_record : (full_path : Bytes) (timeline first_record : ℕ) → FirstRecord

module _ (server : Server) where
  -- The message of XLogReadPageBlock on a failure of WALRead.
  unfoldable pub read_page_error : WalReadError → Bytes
  read_page_error e =
      let start =
        codes "could not read from file "
        ++ server.xlog_file_name e.ws_tli e.ws_segno
        ++ codes ", offset "
        ++ server.print_unsigned e.wre_off
        ++ codes ": " in
      if not (e.wre_errno == 0)
      then start ++ server.strerror e.wre_errno
      else start
        ++ codes "read "
        ++ server.print_int e.wre_read
        ++ codes " of "
        ++ server.print_unsigned e.wre_req

  -- XLogOpenSegment and XLogReadPageBlock, where they exit.
  unfoldable pub page_failure : Bytes → PageFailure → Bytes
  unfolding read_page_error
  page_failure full_path (not_opened strerror) =
      codes "could not open file \"" ++ full_path ++ codes "\": " ++ strerror
  page_failure full_path (not_read e) = read_page_error e

  unfoldable pub block_touched : BlockTag → Bytes
  block_touched tag =
      codes "Block touched: dboid = "
      ++ server.print_unsigned tag.db_oid
      ++ codes ", relid = "
      ++ server.print_unsigned tag.rel_number
      ++ codes ", block = "
      ++ server.print_unsigned tag.blkno

  unfoldable pub extract_block_info : List (Option BlockTag) → List Bytes
  unfolding block_touched
  extract_block_info [] = []
  extract_block_info (none ∷ blocks) = extract_block_info blocks
  extract_block_info (some tag ∷ blocks) =
      let rest = extract_block_info blocks in
      if not (tag.forknum == server.main_forknum) then rest else block_touched tag ∷ rest

  -- `if (errormsg) fprintf(stderr, "error reading xlog record: %s\n", errormsg);`
  unfoldable pub reading_error : Option Bytes → List Bytes
  reading_error none = []
  reading_error (some message) = (codes "error reading xlog record: " ++ message) ∷ []

  -- The loop through all the records.
  unfoldable pub read_records : Bytes → Reader → Parsed
  unfolding page_failure extract_block_info reading_error
  read_records full_path (record_read blocks errormsg rest) =
      put (reading_error errormsg ++ extract_block_info blocks) (read_records full_path rest)
  read_records full_path (null_record errormsg) = parsed []
  read_records full_path (stops failure) = exit_failure (page_failure full_path failure ∷ [])

  unfoldable pub no_first_record : ℕ → Option Bytes → Bytes
  no_first_record first errormsg =
      let start =
        codes "could not find valid first record after "
        ++ server.print_hex (first / 2 ^ 32 % 2 ^ 32)
        ++ codes "/"
        ++ server.print_hex (first % 2 ^ 32) in
      elim errormsg [ some message ↦ start ++ codes ": " ++ message | none ↦ start ]

  unfoldable pub do_wal_parsing : (full_path : Bytes) (segno timeline : ℕ) → Parsed
  unfolding read_records no_first_record page_failure
  do_wal_parsing full_path segno timeline =
      let first_record = server.segment_start segno in
      elim (server.xlog_find_next_record full_path timeline first_record) [
        | find_stops failure ↦ exit_failure (page_failure full_path failure ∷ [])
        | next_record lsn errormsg reader ↦
            if lsn == 0
            then exit_failure (no_first_record first_record errormsg ∷ [])
            else read_records full_path reader
      ]
