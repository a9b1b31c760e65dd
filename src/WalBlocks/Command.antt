-- ===== src/WalBlocks/Command.antt =====
-- pg_wal_blocks/pg_wal_blocks.c: main.
use pg_plugins.Base.{
  ℕ, Bool, true, false, ◌||◌, Option, none, some, List, [], ◌∷◌, Bytes, codes, ◌==◌, if◌then◌else◌,
  str_eq,
}
use pg_plugins.Base.Result.{Result, ok, err, ◌>>=◌, ◌>>◌}
use pg_plugins.WalBlocks.Path.{split_path}
use pg_plugins.WalBlocks.Parsing.{Parsed, parsed, exit_failure, Server, do_wal_parsing}

-- What getopt_long gives of the arguments: the options, then what argv holds from optind on.
pub record Options : Type 0 where
  pub options : List ℕ
  pub operands : List Bytes

-- getopt_long, whether a path opens, and XLogFromFileName: the timeline and the number of the segment.
pub record Host : Type 0 where
  pub getopt_long : List Bytes → Options
  pub opens : Bytes → Bool
  pub xlog_from_file_name : Bytes → ℕ × ℕ

-- The reasons to end without parsing. The argument of too_many_arguments is NULL where argv ends.
pub data Stop : Type 0 where
  no_arguments usage version try_help no_input_file : Stop
  too_many_arguments : Option Bytes → Stop
  could_not_open : (fname : Bytes) → Stop

abbrev pub exit_code : Stop → ℕ
exit_code usage = 0
exit_code version = 0
exit_code _ = 1

-- The exit status with the lines written to stderr by the parsing, or the reason to end before it.
abbrev pub Outcome : Type 0
Outcome = Result Stop (List Bytes × ℕ)

-- The tests of argv[1].
unfoldable pub first_argument : List Bytes → Result Stop (Unit {0})
first_argument [] = err no_arguments
first_argument (arg ∷ _) =
    if str_eq arg (codes "--help") || str_eq arg (codes "-?")
    then err usage
    else if str_eq arg (codes "--version") || str_eq arg (codes "-V")
    then err version
    else ok tt

-- The loop on getopt_long, which leaves by exit on '?' and sets verbose on 'v'.
unfoldable pub process_options : List ℕ → Bool → Result Stop Bool
process_options [] verbose = ok verbose
process_options (c ∷ options) verbose =
    if c == b'?'
    then err try_help
    else process_options options (if c == b'v' then true else verbose)

-- `(optind + 1) < argc`, where argv[optind + 2] is printed.
unfoldable pub check_operands : List Bytes → Result Stop (Unit {0})
check_operands (_ ∷ _ ∷ []) = err (too_many_arguments none)
check_operands (_ ∷ _ ∷ arg ∷ _) = err (too_many_arguments (some arg))
check_operands _ = ok tt

module _ (host : Host) where
  -- full_path, the timeline and segno.
  unfoldable pub input_file : List Bytes → Result Stop (Bytes × ℕ × ℕ)
  unfolding split_path
  input_file [] = err no_input_file
  input_file (full_path ∷ _) =
      let fname = (split_path full_path).1 in
      let (timeline, segno) = host.xlog_from_file_name fname in
      if host.opens full_path then ok (full_path, timeline, segno) else err (could_not_open fname)

  unfoldable pub finish : Parsed → List Bytes × ℕ
  finish (parsed lines) = (lines, 0)
  finish (exit_failure lines) = (lines, 1)

  -- main, of the arguments behind argv[0].
  unfoldable pub wal_blocks_main : Server → List Bytes → Outcome
  unfolding first_argument process_options check_operands input_file do_wal_parsing finish
  wal_blocks_main server argv = do
    first_argument argv
    let given = host.getopt_long argv
    verbose ← process_options given.options false
    check_operands given.operands
    (full_path, timeline, segno) ← input_file given.operands
    ok (finish (do_wal_parsing server full_path segno timeline))
