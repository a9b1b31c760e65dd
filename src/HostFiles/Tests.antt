-- ===== src/HostFiles/Tests.antt =====
-- The plugins of HostFiles on concrete hosts.
use pg_plugins.Base.Int.{ℤ, pos, negsuc}
use pg_plugins.Base.{
  ◌-◌, ◌^◌, ◌≤◌, ◌≡◌, refl, true, false, none, some, List, [], ◌∷◌, Bytes, codes, str_eq,
  starts_with, if◌then◌else◌,
}
use pg_plugins.Base.Result.{ok, err}
use pg_plugins.HostFiles.Statvfs.{
  Host, FsData, pg_statvfs, convert_and_check_filename, flag_names, not_superuser, not_row_type,
  parent_reference, absolute_path, not_below_cwd, could_not_stat,
}
use pg_plugins.HostFiles.MarkGlibc
use pg_plugins.HostFiles.MarkGlibc.{
  Options, not_opened, not_written, written, usage, version, try_help, no_data_directory,
  too_many_arguments, could_not_open, could_not_write, first_argument, process_options,
  data_directory, no_more_arguments, write_marker_file, mark_glibc_main,
}
use pg_plugins.HostFiles.Allowed.{Allowed, pg_statvfs_reads}

abbrev disk : FsData
disk = record {
  f_bsize = 4096;
  f_frsize = 4096;
  f_blocks = 100;
  f_bfree = 50;
  f_bavail = 40;
  f_files = 10;
  f_ffree = 5;
  f_favail = 4;
  f_fsid = 2 ^ 64 - 7;
  f_flag = 5;
  f_namemax = 255;
}

-- A host with the data directory /data, the logs in /log, and one disk on everything but /data/none.
abbrev host : Host
host = record {
  canonicalize_path = λ path. path;
  is_absolute_path = starts_with (codes "/");
  path_contains_parent_reference = starts_with (codes "/data/..");
  path_is_prefix_of_path = starts_with;
  path_is_relative_and_below_cwd = starts_with (codes "base");
  data_dir = codes "/data";
  log_directory = codes "/log";
  statvfs = λ path. if◌then◌else◌ (str_eq path (codes "/data/none")) none (some disk);
  st_nosuid = 2;
  st_rdonly = 1;
  st_mandlock = 64;
  st_noatime = 1024;
  st_nodev = 4;
  st_nodiratime = 2048;
  st_noexec = 8;
  st_relatime = 4096;
  st_synchronous = 16;
}

abbrev numbers : List ℤ
numbers =
    pos 4096
    ∷ pos 4096
    ∷ pos 100
    ∷ pos 50
    ∷ pos 40
    ∷ pos 10
    ∷ pos 5
    ∷ pos 4
    ∷ negsuc 6
    ∷ pos 255
    ∷ []

pg_statvfs_reads_example :
    (true ≡ true)
    × Allowed host (codes "/log/x")
    × (d : FsData) × (host.statvfs (codes "/log/x") ≡ some d)
    × (codes "rdonly" ∷ codes "nodev" ∷ [] ≡ flag_names host d.f_flag)
    × (2 ≤ 9)
unfolding pg_statvfs convert_and_check_filename flag_names starts_with str_eq
pg_statvfs_reads_example =
    pg_statvfs_reads host true true (codes "/log/x") (numbers, codes "rdonly" ∷ codes "nodev" ∷ [])
      refl

refusals_test :
    (pg_statvfs host false true (some (codes "/data")) ≡ err not_superuser)
    × (pg_statvfs host true true (some (codes "/data/../etc")) ≡ err parent_reference)
    × (pg_statvfs host true true (some (codes "/etc")) ≡ err absolute_path)
    × (pg_statvfs host true true (some (codes "etc")) ≡ err not_below_cwd)
    × (pg_statvfs host true false (some (codes "base")) ≡ err not_row_type)
    × (pg_statvfs host true true (some (codes "/data/none"))
        ≡ err (could_not_stat (codes "/data/none")))
unfolding pg_statvfs convert_and_check_filename flag_names starts_with str_eq
refusals_test = (refl, refl, refl, refl, refl, refl)

-- getopt_long that reads one option -D and leaves the rest.
abbrev getopt : List Bytes → Options
getopt [] = record { options = []; operands = [] }
getopt (arg ∷ []) =
    if◌then◌else◌ (str_eq arg (codes "-v")) (record { options = (b'v', none) ∷ []; operands = [] })
      (record { options = []; operands = arg ∷ [] })
getopt (arg ∷ value ∷ rest) =
    if◌then◌else◌ (str_eq arg (codes "-D"))
      (record { options = (b'D', some value) ∷ []; operands = rest })
      (record { options = []; operands = arg ∷ value ∷ rest })

abbrev machine : MarkGlibc.Host
machine = record {
  getopt_long = getopt;
  pgdata = some (codes "/env");
  gnu_get_libc_version = codes "2.36";
  write = λ path.
      if◌then◌else◌ (str_eq path (codes "/full/GLIBC_VERSION")) not_written
        (if◌then◌else◌ (str_eq path (codes "/none/GLIBC_VERSION")) not_opened written);
}

marked_test :
    (mark_glibc_main machine (codes "-D" ∷ codes "/d" ∷ [])
      ≡ ok (codes "/d/GLIBC_VERSION", codes "2.36\n"))
    × (mark_glibc_main machine (codes "/e" ∷ []) ≡ ok (codes "/e/GLIBC_VERSION", codes "2.36\n"))
    × (mark_glibc_main machine [] ≡ ok (codes "/env/GLIBC_VERSION", codes "2.36\n"))
unfolding mark_glibc_main first_argument process_options data_directory no_more_arguments
    write_marker_file str_eq
marked_test = (refl, refl, refl)

stopped_test :
    (mark_glibc_main machine (codes "-?" ∷ []) ≡ err usage)
    × (mark_glibc_main machine (codes "-V" ∷ codes "x" ∷ []) ≡ err version)
    × (mark_glibc_main machine (codes "-v" ∷ []) ≡ err try_help)
    × (mark_glibc_main (record machine { pgdata = none }) [] ≡ err no_data_directory)
    × (mark_glibc_main machine (codes "-D" ∷ codes "/d" ∷ codes "x" ∷ [])
        ≡ err (too_many_arguments (codes "x")))
    × (mark_glibc_main machine (codes "/full" ∷ [])
        ≡ err (could_not_write (codes "/full/GLIBC_VERSION")))
    × (mark_glibc_main machine (codes "/none" ∷ [])
        ≡ err (could_not_open (codes "/none/GLIBC_VERSION")))
unfolding mark_glibc_main first_argument process_options data_directory no_more_arguments
    write_marker_file str_eq
stopped_test = (refl, refl, refl, refl, refl, refl, refl)
