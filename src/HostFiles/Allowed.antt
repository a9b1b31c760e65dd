-- ===== src/HostFiles/Allowed.antt =====
-- pg_statvfs/pg_statvfs.c: the paths that are looked at, and the array of the flags.
use mathlib.Core.Path.{subst}
use pg_plugins.Base.{
  ℕ, ◌+◌, ◌≤◌, ◌≡◌, ◌⊎◌, inl, inr, sym, Bool, Bool-cases, true, false, ◌&&◌, Option-cases, some,
  List, ◌++◌, Bytes, arith, length, length-append,
}
use pg_plugins.Base.Int.{ℤ}
use pg_plugins.Base.Result.{ok, err}
use pg_plugins.HostFiles.Statvfs.{
  Host, FsData, StatError, absolute_path, not_below_cwd, parent_reference,
  convert_and_check_filename, flag, flag_names, pg_statvfs,
}

module _ (host : Host) where
  open host use {
    canonicalize_path, is_absolute_path, path_contains_parent_reference, path_is_prefix_of_path,
    path_is_relative_and_below_cwd, data_dir, log_directory,
  }

  -- An absolute path without a parent reference and within one of the two directories of the server, or
  -- a relative one below the current directory.
  abbrev pub Allowed : Bytes → Type 0
  Allowed path =
      ((is_absolute_path path ≡ true)
        × (path_contains_parent_reference path ≡ false)
        × ((path_is_prefix_of_path data_dir path ≡ true)
            ⊎ ((is_absolute_path log_directory ≡ true)
                × (path_is_prefix_of_path log_directory path ≡ true))))
      ⊎ ((is_absolute_path path ≡ false) × (path_is_relative_and_below_cwd path ≡ true))

  -- Exactly the paths allowed pass the check.
  convert-cases :
      (arg : Bytes)
      → (Allowed (canonicalize_path arg)
          × (convert_and_check_filename host arg ≡ ok (canonicalize_path arg)))
        ⊎ ((e : StatError) × (convert_and_check_filename host arg ≡ err e))
  unfolding convert_and_check_filename
  convert-cases arg = elim (Bool-cases (is_absolute_path (canonicalize_path arg))) [
    | inr relative ↦ elim (Bool-cases (path_is_relative_and_below_cwd (canonicalize_path arg))) [
      | inl below ↦ inl (inr (relative, below), ground arith)
      | inr other ↦ inr (not_below_cwd, ground arith)
    ]
    | inl absolute ↦ elim (Bool-cases (path_contains_parent_reference (canonicalize_path arg))) [
      | inl parent ↦ inr (parent_reference, ground arith)
      | inr clean ↦ elim (Bool-cases (path_is_prefix_of_path data_dir (canonicalize_path arg))) [
        | inl within ↦ inl (inl (absolute, clean, inl within), ground arith)
        | inr outside ↦
            elim (Bool-cases (
              is_absolute_path log_directory
              && path_is_prefix_of_path log_directory (canonicalize_path arg))) [
                | inl logs ↦
                    inl (inl (absolute, clean, inr (ground arith, ground arith)), ground arith)
                | inr neither ↦ inr (absolute_path, ground arith)
              ]
      ]
    ]
  ]

  flag-le : (f_flag mask : ℕ) (name : Bytes) → length (flag host f_flag mask name) ≤ 1
  flag-le f_flag mask name = ground arith

  length-join :
      {m n : ℕ} (xs ys : List Bytes) → length xs ≤ m → length ys ≤ n → length (xs ++ ys) ≤ m + n
  length-join xs ys hx hy = omega (arith, length-append {0} xs ys)

  -- There are nine flags at most.
  length-flag_names : (f_flag : ℕ) → length (flag_names host f_flag) ≤ 9
  unfolding flag_names
  length-flag_names f = length-join _ _ (flag-le f _ _) (
      length-join _ _ (flag-le f _ _) (
        length-join _ _ (flag-le f _ _) (
          length-join _ _ (flag-le f _ _) (
            length-join _ _ (flag-le f _ _) (
              length-join _ _ (flag-le f _ _) (
                length-join _ _ (flag-le f _ _)
                  (length-join _ _ (flag-le f _ _) (flag-le f _ _))))))))

  -- A row is given only to a superuser and only for an allowed path, in its canonical form, of which
  -- the file system has been asked; its flags are those of the answer, at most nine of them, so they fit
  -- the array of sixteen.
  pub pg_statvfs_reads :
      (superuser row_type : Bool) (path_t : Bytes) (row : List ℤ × List Bytes)
      → pg_statvfs host superuser row_type (some path_t) ≡ ok row
      → (superuser ≡ true)
        × Allowed (canonicalize_path path_t)
        × (d : FsData) × (host.statvfs (canonicalize_path path_t) ≡ some d)
        × (row.1 ≡ flag_names host d.f_flag)
        × (length row.1 ≤ 9)
  unfolding pg_statvfs
  pg_statvfs_reads superuser row_type path_t row e = elim (convert-cases path_t) [
    | inl (allowed, passed) ↦ elim (Option-cases (host.statvfs (canonicalize_path path_t))) [
      | inl missing ↦ absurd (ground arith)
      | inr (d, found) ↦
          let flags : row.1 ≡ flag_names host d.f_flag = ground arith in
          (
            ground arith,
            allowed,
            d,
            found,
            flags,
            subst (λ names. length names ≤ 9) (sym flags) (length-flag_names d.f_flag),
          )
    ]
    | inr (reason, refused) ↦ absurd (ground arith)
  ]
