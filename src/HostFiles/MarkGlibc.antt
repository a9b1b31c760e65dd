-- ===== src/HostFiles/MarkGlibc.antt =====
-- pg_mark_glibc/pg_mark_glibc.c: main and write_marker_file.
use pg_plugins.Base.{
  ℕ, ◌||◌, Option, none, some, List, [], ◌∷◌, ◌++◌, Bytes, codes, str_eq, ◌==◌, if◌then◌else◌,
}
use pg_plugins.Base.Result.{Result, ok, err, ◌>>=◌, ◌>>◌}

-- What getopt_long gives of the arguments: each option with its optarg, which is NULL where it takes
-- none, then what argv holds from optind on.
pub record Options : Type 0 where
  pub options : List (ℕ × Option Bytes)
  pub operands : List Bytes

-- What fopen, fprintf and fclose do with the file: it does not open, it is not written, or it is.
pub data Writing : Type 0 where
  not_opened not_written written : Writing

pub record Host : Type 0 where
  pub getopt_long : List Bytes → Options
  pub pgdata : Option Bytes
  pub gnu_get_libc_version : Bytes
  pub write : (path : Bytes) → Writing

-- The reasons to end before the file is written, or in the writing.
pub data Stop : Type 0 where
  usage version try_help no_data_directory : Stop
  too_many_arguments could_not_open could_not_write : Bytes → Stop

abbrev pub exit_code : Stop → ℕ
exit_code usage = 0
exit_code version = 0
exit_code _ = 1

-- The tests of argv[1], where there is one.
unfoldable pub first_argument : List Bytes → Result Stop (Unit {0})
first_argument [] = ok tt
first_argument (arg ∷ _) =
    if str_eq arg (codes "--help") || str_eq arg (codes "-?")
    then err usage
    else if str_eq arg (codes "--version") || str_eq arg (codes "-V")
    then err version
    else ok tt

-- The loop on getopt_long: DataDir, with which it starts as NULL.
unfoldable pub process_options : List (ℕ × Option Bytes) → Option Bytes → Result Stop (Option Bytes)
process_options [] data_dir = ok data_dir
process_options ((c, optarg) ∷ options) data_dir =
    if c == b'D' then process_options options optarg else err try_help

module _ (host : Host) where
  -- DataDir from the option, the next argument or PGDATA, and the arguments that remain.
  unfoldable pub data_directory : Option Bytes → List Bytes → Result Stop (Bytes × List Bytes)
  data_directory (some dir) operands = ok (dir, operands)
  data_directory none (dir ∷ operands) = ok (dir, operands)
  data_directory none [] = elim host.pgdata [
    | none ↦ err no_data_directory
    | some dir ↦ ok (dir, [])
  ]

  unfoldable pub no_more_arguments : List Bytes → Result Stop (Unit {0})
  no_more_arguments [] = ok tt
  no_more_arguments (arg ∷ _) = err (too_many_arguments arg)

  -- The path of the file, with what is written to it.
  unfoldable pub write_marker_file : Bytes → Result Stop (Bytes × Bytes)
  write_marker_file data_dir =
      let path = data_dir ++ codes "/" ++ codes "GLIBC_VERSION" in
      elim (host.write path) [
        | not_opened ↦ err (could_not_open path)
        | not_written ↦ err (could_not_write path)
        | written ↦ ok (path, host.gnu_get_libc_version ++ codes "\n")
      ]

  -- main, of the arguments behind argv[0].
  unfoldable pub mark_glibc_main : List Bytes → Result Stop (Bytes × Bytes)
  unfolding first_argument process_options data_directory no_more_arguments write_marker_file
  mark_glibc_main argv = do
    first_argument argv
    let given = host.getopt_long argv
    option ← process_options given.options none
    (dir, rest) ← data_directory option given.operands
    no_more_arguments rest
    write_marker_file dir
