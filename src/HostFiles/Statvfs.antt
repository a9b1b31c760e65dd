-- ===== src/HostFiles/Statvfs.antt =====
-- pg_statvfs/pg_statvfs.c: convert_and_check_filename and pg_statvfs, on Linux.
use Prim.Native.Nat.{bit_and}
use pg_plugins.Base.{
  ℕ, ◌-◌, ◌%◌, ◌^◌, ltb, Bool, not, ◌&&◌, ◌||◌, Option, none, some, List, [], ◌∷◌, ◌++◌, Bytes,
  codes, ◌==◌, if◌then◌else◌,
}
use pg_plugins.Base.Int.{ℤ, pos, negsuc}
use pg_plugins.Base.Result.{Result, ok, err, ◌>>=◌, ◌>>◌, raise_if}

-- Int64GetDatum of an unsigned number.
unfoldable pub int64_datum : ℕ → ℤ
int64_datum n =
    if ltb (n % 2 ^ 64) (2 ^ 63) then pos (n % 2 ^ 64) else negsuc (2 ^ 64 - 1 - n % 2 ^ 64)

-- struct statvfs.
pub record FsData : Type 0 where
  pub f_bsize : ℕ
  pub f_frsize : ℕ
  pub f_blocks : ℕ
  pub f_bfree : ℕ
  pub f_bavail : ℕ
  pub f_files : ℕ
  pub f_ffree : ℕ
  pub f_favail : ℕ
  pub f_fsid : ℕ
  pub f_flag : ℕ
  pub f_namemax : ℕ

-- The path functions of the server, DataDir and Log_directory, the call statvfs, and the masks ST_*.
pub record Host : Type 0 where
  pub canonicalize_path : Bytes → Bytes
  pub is_absolute_path : Bytes → Bool
  pub path_contains_parent_reference : Bytes → Bool
  pub path_is_prefix_of_path : (prefix path : Bytes) → Bool
  pub path_is_relative_and_below_cwd : Bytes → Bool
  pub data_dir : Bytes
  pub log_directory : Bytes
  pub statvfs : Bytes → Option FsData
  pub st_nosuid : ℕ
  pub st_rdonly : ℕ
  pub st_mandlock : ℕ
  pub st_noatime : ℕ
  pub st_nodev : ℕ
  pub st_nodiratime : ℕ
  pub st_noexec : ℕ
  pub st_relatime : ℕ
  pub st_synchronous : ℕ

pub data StatError : Type 0 where
  parent_reference absolute_path not_below_cwd not_superuser not_row_type : StatError
  could_not_stat : Bytes → StatError
  -- The function is not strict: a NULL path is read through.
  fault : StatError

module _ (host : Host) where
  open host use {
    canonicalize_path, is_absolute_path, path_contains_parent_reference, path_is_prefix_of_path,
    path_is_relative_and_below_cwd, data_dir, log_directory,
  }

  unfoldable pub convert_and_check_filename : Bytes → Result StatError Bytes
  convert_and_check_filename arg =
      let filename = canonicalize_path arg in
      if is_absolute_path filename
      then if path_contains_parent_reference filename
        then err parent_reference
        else if not (path_is_prefix_of_path data_dir filename)
            && (not (is_absolute_path log_directory)
                || not (path_is_prefix_of_path log_directory filename))
        then err absolute_path
        else ok filename
      else if not (path_is_relative_and_below_cwd filename)
      then err not_below_cwd
      else ok filename

  -- `if (fsdata.f_flag & mask) flags[nflags++] = name;`
  abbrev pub flag : (f_flag mask : ℕ) (name : Bytes) → List Bytes
  flag f_flag mask name = if not (bit_and f_flag mask == 0) then name ∷ [] else []

  unfoldable pub flag_names : (f_flag : ℕ) → List Bytes
  flag_names f_flag =
      flag f_flag host.st_nosuid (codes "nosuid")
      ++ (flag f_flag host.st_rdonly (codes "rdonly")
          ++ (flag f_flag host.st_mandlock (codes "mandlock")
              ++ (flag f_flag host.st_noatime (codes "noatime")
                  ++ (flag f_flag host.st_nodev (codes "nodev")
                      ++ (flag f_flag host.st_nodiratime (codes "nodiratime")
                          ++ (flag f_flag host.st_noexec (codes "noexec")
                              ++ (flag f_flag host.st_relatime (codes "relatime")
                                  ++ flag f_flag host.st_synchronous (codes "synchronous"))))))))

  -- The values of the row: the ten numbers, each converted to a signed one of 64 bits, then the array of
  -- the flags.
  unfoldable pub pg_statvfs :
      (superuser row_type : Bool) (path : Option Bytes) → Result StatError (List ℤ × List Bytes)
  unfolding convert_and_check_filename flag_names int64_datum
  pg_statvfs superuser row_type none = err fault
  pg_statvfs superuser row_type (some path_t) = do
    raise_if (not superuser) not_superuser
    path ← convert_and_check_filename path_t
    raise_if (not row_type) not_row_type
    elim (host.statvfs path) [
      | none ↦ err (could_not_stat path)
      | some d ↦ ok (
        int64_datum d.f_bsize
            ∷ int64_datum d.f_frsize
            ∷ int64_datum d.f_blocks
            ∷ int64_datum d.f_bfree
            ∷ int64_datum d.f_bavail
            ∷ int64_datum d.f_files
            ∷ int64_datum d.f_ffree
            ∷ int64_datum d.f_favail
            ∷ int64_datum d.f_fsid
            ∷ int64_datum d.f_namemax
            ∷ [],
        flag_names d.f_flag,
      )
    ]
