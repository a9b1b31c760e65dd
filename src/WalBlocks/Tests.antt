-- ===== src/WalBlocks/Tests.antt =====
-- Runs of pg_wal_blocks, and its theorems at concrete inputs.
use pg_plugins.Base.{
  ℕ, ◌+◌, ◌%◌, ◌≡◌, refl, true, Option, none, some, List, [], ◌∷◌, ◌++◌, Bytes, codes, arith,
  str_eq, strchr,
}
use pg_plugins.Base.Int.{pos}
use pg_plugins.Base.Result.{ok, err}
use pg_plugins.WalBlocks.Path.{split_path}
use pg_plugins.WalBlocks.Split.{split_path-join}
use pg_plugins.WalBlocks.Parsing.{
  BlockTag, WalReadError, not_opened, not_read, Reader, record_read, null_record, stops,
  next_record, exit_failure, Server, block_touched, read_records, do_wal_parsing,
}
use pg_plugins.WalBlocks.Command.{
  Host, wal_blocks_main, usage, try_help, too_many_arguments, no_input_file,
}
use pg_plugins.WalBlocks.Listing.{wal_blocks_listing}

abbrev digit : ℕ → Bytes
digit n = (b'0' + n % 10) ∷ []

abbrev tag : (forknum blkno : ℕ) → Option BlockTag
tag forknum blkno = some (record { db_oid = 5; rel_number = 7; forknum = forknum; blkno = blkno })

abbrev short_read : WalReadError
short_read = record {
  wre_errno = 0;
  wre_off = 3;
  wre_req = 8;
  wre_read = pos 2;
  ws_tli = 1;
  ws_segno = 4;
}

-- A record with a block in another fork and one that is not found, then one without blocks.
abbrev two_records : Reader
two_records =
    record_read (tag 0 1 ∷ tag 1 2 ∷ none ∷ tag 0 3 ∷ []) none
      (record_read [] none (null_record (some (codes "invalid record length"))))

abbrev server : Reader → Server
server reader = record {
  print_unsigned = digit;
  print_int = λ _. codes "2";
  print_hex = digit;
  strerror = λ _. codes "error";
  xlog_file_name = λ tli segno. digit tli ++ digit segno;
  main_forknum = 0;
  segment_start = λ segno. segno;
  xlog_find_next_record = λ path timeline first. next_record 9 none reader;
}

-- A getopt_long that has these options and operands for any arguments, and files that open.
abbrev host : List ℕ → List Bytes → Host
host options operands = record {
  getopt_long = λ _. record { options = options; operands = operands };
  opens = λ _. true;
  xlog_from_file_name = λ _. (1, 4);
}

split_path_test : split_path (codes "a/b/c") ≡ (some (codes "a/b/"), codes "c")
unfolding split_path
split_path_test = refl

split_path-join_example :
    (split_path (codes "c") ≡ (none, codes "c"))
    × (split_path (codes "a/b" ++ b'/' ∷ codes "c") ≡ (some (codes "a/b" ++ codes "/"), codes "c"))
unfolding strchr
split_path-join_example = split_path-join (codes "a/b") (codes "c") refl

wal_blocks_listing_example :
    wal_blocks_main
      (host (b'v' ∷ []) (codes "d/s" ∷ []))
      (server two_records)
      (codes "-v" ∷ codes "d/s" ∷ [])
    ≡ ok (
      codes "Block touched: dboid = 5, relid = 7, block = 1"
          ∷ codes "Block touched: dboid = 5, relid = 7, block = 3"
          ∷ [],
      0,
    )
unfolding block_touched strchr
wal_blocks_listing_example =
    wal_blocks_listing (host (b'v' ∷ []) (codes "d/s" ∷ [])) (server two_records) (codes "-v")
      (codes "d/s" ∷ []) (b'v' ∷ []) (codes "d") (codes "s") 1 4 8 none two_records
      (λ asked. ground (asked, arith)) refl refl refl refl refl refl (refl, (refl, tt))

-- With two operands the argument printed is the NULL behind the last one.
too_many_arguments_test :
    wal_blocks_main
      (host [] (codes "a" ∷ codes "b" ∷ []))
      (server two_records)
      (codes "a" ∷ codes "b" ∷ [])
    ≡ err (too_many_arguments none)
unfolding wal_blocks_main str_eq
too_many_arguments_test = refl

unknown_option_test :
    wal_blocks_main (host (b'?' ∷ []) []) (server two_records) (codes "-x" ∷ []) ≡ err try_help
unfolding wal_blocks_main str_eq
unknown_option_test = refl

no_input_file_test :
    wal_blocks_main (host (b'v' ∷ []) []) (server two_records) (codes "-v" ∷ []) ≡ err no_input_file
unfolding wal_blocks_main str_eq
no_input_file_test = refl

usage_test : wal_blocks_main (host [] []) (server two_records) (codes "--help" ∷ []) ≡ err usage
unfolding wal_blocks_main str_eq
usage_test = refl

short_read_test :
    do_wal_parsing (server (stops (not_read short_read))) (codes "s") 4 1
    ≡ exit_failure (codes "could not read from file 14, offset 3: read 2 of 8" ∷ [])
unfolding do_wal_parsing
short_read_test = refl

not_opened_test :
    read_records (server two_records) (codes "s") (stops (not_opened (codes "gone")))
    ≡ exit_failure (codes "could not open file \"s\": gone" ∷ [])
unfolding read_records
not_opened_test = refl
