-- ===== src/WalUtils/Archive.antt =====
-- wal_utils/wal_utils.c: check_and_build_filepath, archive_get_size and archive_get_data.
use pg_plugins.Base.{
  ℕ, suc, ◌-◌, Bool, not, Option, none, some, ◌∷◌, ◌++◌, Bytes, ltb, if◌then◌else◌, take, drop,
  length,
}
use pg_plugins.Base.Int.{ℤ, pos, negsuc}
use pg_plugins.Base.Result.{Result, ok, err, ◌>>=◌, ◌>>◌, raise_if}

-- The server and the file system: path tests, PGARCHIVE, MAXPGPATH, canonicalize_path, superuser, the
-- content of a path (none where it cannot be opened), whether a read of it from a position on sets the
-- file's error indicator, and MaxAllocSize - VARHDRSZ.
pub record Host : Type 0 where
  pub is_absolute_path : Bytes → Bool
  pub contains_parent_reference : Bytes → Bool
  pub pgarchive : Option Bytes
  pub maxpgpath : ℕ
  pub canonicalize_path : Bytes → Bytes
  pub superuser : Bool
  pub content : Bytes → Option Bytes
  pub read_fails : (filepath : Bytes) (from bytes_to_read : ℕ) → Bool
  pub max_length : ℕ

pub data ArchiveError : Type 0 where
  not_superuser absolute_path parent_reference archive_undefined : ArchiveError
  negative_length length_too_large : ArchiveError
  could_not_stat could_not_open could_not_seek could_not_read : Bytes → ArchiveError

module _ (host : Host) where
  -- snprintf into a buffer of MAXPGPATH bytes, the terminating NUL included.
  unfoldable pub truncated : Bytes → Bytes
  truncated path = take (host.maxpgpath - 1) path

  unfoldable pub check_and_build_filepath : Bytes → Result ArchiveError Bytes
  check_and_build_filepath filename = do
    raise_if (host.is_absolute_path filename) absolute_path
    raise_if (host.contains_parent_reference filename) parent_reference
    elim host.pgarchive [
      | none ↦ err archive_undefined
      | some archive_path ↦
          ok (host.canonicalize_path (truncated (archive_path ++ (b'/' ∷ filename))))
    ]

  unfoldable pub archive_get_size : Bytes → Result ArchiveError ℕ
  archive_get_size filename = do
    raise_if (not host.superuser) not_superuser
    filepath ← check_and_build_filepath filename
    elim (host.content filepath) [
      | none ↦ err (could_not_stat filepath)
      | some data_ ↦ ok (length data_)
    ]

  -- fseeko from the start of the file, or from its end: a position in front of the start is an
  -- error, one behind the end is not.
  unfoldable pub seek : Bytes → ℤ → Option ℕ
  seek data_ (pos n) = some n
  seek data_ (negsuc n) = if ltb (length data_) (suc n) then none else some (length data_ - suc n)

  unfoldable pub archive_get_data : Bytes → ℤ → ℤ → Result ArchiveError Bytes
  archive_get_data filename seek_offset (negsuc _) = do
    raise_if (not host.superuser) not_superuser
    err negative_length
  archive_get_data filename seek_offset (pos bytes_to_read) = do
    raise_if (not host.superuser) not_superuser
    filepath ← check_and_build_filepath filename
    raise_if (ltb host.max_length bytes_to_read) length_too_large
    elim (host.content filepath) [
      | none ↦ err (could_not_open filepath)
      | some data_ ↦ elim (seek data_ seek_offset) [
        | none ↦ err (could_not_seek filepath)
        | some from ↦ do
          raise_if (host.read_fails filepath from bytes_to_read) (could_not_read filepath)
          ok (take bytes_to_read (drop from data_))
      ]
    ]
