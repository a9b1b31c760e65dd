-- ===== src/WalUtils/Files.antt =====
-- wal_utils/wal_utils.c: reads of archive files by archive_get_data, alone and in chunks.
use pg_plugins.Base.{
  ℕ, zero, suc, ◌+◌, ◌*◌, ◌≤◌, ◌<◌, ◌≡◌, ◌⊎◌, inl, inr, Bool-cases, sym, ◌∙◌, ◌≢◌, refl, ap, true,
  false, none, some, [], ◌∷◌, ◌++◌, arith, Bytes, take, drop, length, take-append-drop,
}
use native.Mathlib.Nat.{suc-mul}
use pg_plugins.Base.Int.{ℤ, pos}
use pg_plugins.Base.Result.{Result, ok, err, ◌>>=◌}
use pg_plugins.WalUtils.Archive.{
  Host, ArchiveError, could_not_read, check_and_build_filepath, archive_get_size, archive_get_data,
  seek,
}

module _ (host : Host) where
  -- A file of which a number of bytes is read: the user is a superuser, its name is not an absolute
  -- path and has no reference to a parent directory, the archive is defined, and the number is not
  -- too large.
  archive_get_data-guards :
      (filename : Bytes) (seek_offset : ℤ) (bytes_to_read : ℕ) (result : Bytes)
      → archive_get_data host filename seek_offset (pos bytes_to_read) ≡ ok result
      → (host.superuser ≡ true)
        × (host.is_absolute_path filename ≡ false)
        × (host.contains_parent_reference filename ≡ false)
        × (host.pgarchive ≢ none)
        × (bytes_to_read ≤ host.max_length)
  unfolding archive_get_data check_and_build_filepath
  archive_get_data-guards filename off len result e = ground arith

  take-nil : (n : ℕ) → take {A = ℕ} n [] ++ [] ≡ []
  take-nil zero = refl
  take-nil (suc n) = refl

  drop-split :
      (offset chunk : ℕ) (data_ : Bytes)
      → take chunk (drop offset data_) ++ drop (offset + chunk) data_ ≡ drop offset data_
  drop-split zero chunk data_ =
      let same : 0 + chunk ≡ chunk = omega arith in rw same (take-append-drop chunk data_)
  drop-split (suc offset) chunk [] =
      let same : suc offset + chunk ≡ suc (offset + chunk) = omega arith in rw same (take-nil chunk)
  drop-split (suc offset) chunk (x ∷ data_) =
      let same : suc offset + chunk ≡ suc (offset + chunk) = omega arith in
      rw same (drop-split offset chunk data_)

  drop-all : (n : ℕ) (data_ : Bytes) → length data_ ≤ n → drop n data_ ≡ []
  drop-all zero [] h = refl
  drop-all zero (x ∷ data_) h = absurd (omega arith)
  drop-all (suc n) [] h = refl
  drop-all (suc n) (x ∷ data_) h = drop-all n data_ (omega arith)

  -- A client that reads chunks of one length, one behind the other, from an offset on.
  abbrev pub read_chunks : Bytes → ℕ → ℕ → ℕ → Result ArchiveError Bytes
  read_chunks filename chunk zero offset = ok []
  read_chunks filename chunk (suc count) offset = do
    piece ← archive_get_data host filename (pos offset) (pos chunk)
    rest ← read_chunks filename chunk count (offset + chunk)
    ok (piece ++ rest)

  module _ (filename filepath data_ : Bytes) (su : host.superuser ≡ true)
      (built : check_and_build_filepath host filename ≡ ok filepath)
      (there : host.content filepath ≡ some data_) where
    archive_get_data-chunk :
        (offset chunk : ℕ)
        → chunk ≤ host.max_length
        → host.read_fails filepath offset chunk ≡ false
        → archive_get_data host filename (pos offset) (pos chunk)
          ≡ ok (take chunk (drop offset data_))
    unfolding archive_get_data seek
    archive_get_data-chunk offset chunk fits read = ground arith

    archive_get_data-fails :
        (offset chunk : ℕ)
        → chunk ≤ host.max_length
        → host.read_fails filepath offset chunk ≡ true
        → archive_get_data host filename (pos offset) (pos chunk) ≡ err (could_not_read filepath)
    unfolding archive_get_data seek
    archive_get_data-fails offset chunk fits read = ground arith

    -- Reads from an offset on, all of them or up to one that fails.
    abbrev AllRead : (chunk count offset : ℕ) → Type 0
    AllRead chunk count offset =
        (i : ℕ) → i < count → host.read_fails filepath (offset + i * chunk) chunk ≡ false

    abbrev SomeFails : (chunk count offset : ℕ) → Type 0
    SomeFails chunk count offset =
        (i : ℕ) × (i < count) × (host.read_fails filepath (offset + i * chunk) chunk ≡ true)

    abbrev Run : (chunk count offset : ℕ) → Type 0
    Run chunk count offset =
        (AllRead chunk count offset
          × (read_chunks filename chunk count offset ≡ ok (drop offset data_)))
        ⊎ (SomeFails chunk count offset
            × (read_chunks filename chunk count offset ≡ err (could_not_read filepath)))

    shifted : (offset chunk i : ℕ) → offset + chunk + i * chunk ≡ offset + suc i * chunk
    shifted offset chunk i = omega (arith, suc-mul i chunk)

    AllRead-suc :
        (chunk count offset : ℕ)
        → host.read_fails filepath offset chunk ≡ false
        → AllRead chunk count (offset + chunk)
        → AllRead chunk (suc count) offset
    AllRead-suc chunk count offset read all zero lt =
        let here : offset + 0 * chunk ≡ offset = omega arith in rw here read
    AllRead-suc chunk count offset read all (suc i) lt =
        ap (λ (at : ℕ). host.read_fails filepath at chunk) (sym (shifted offset chunk i))
        ∙ all i (omega arith)

    read_chunks_lem :
        (chunk count offset : ℕ)
        → chunk ≤ host.max_length
        → length data_ ≤ offset + count * chunk
        → Run chunk count offset
    read_chunks_lem chunk zero offset fits enough =
        inl (λ i lt. absurd (omega arith), rw (drop-all offset data_ (omega arith)))
    read_chunks_lem chunk (suc count) offset fits enough =
        let here : offset + 0 * chunk ≡ offset = omega arith in
        elim (Bool-cases (host.read_fails filepath offset chunk)) [
          | inl fails ↦
              inr (
                (0, omega arith, rw here fails),
                rw (archive_get_data-fails offset chunk fits fails),
              )
          | inr read ↦
              elim (read_chunks_lem chunk count (offset + chunk) fits
                (omega (arith, suc-mul count chunk))) [
                  | inl (all, result) ↦ inl (
                    AllRead-suc chunk count offset read all,
                    rw (archive_get_data-chunk offset chunk fits read, result)
                        (ap ok (drop-split offset chunk data_)),
                  )
                  | inr ((i, lt, fails), result) ↦ inr (
                    (
                      suc i,
                      omega arith,
                      ap (λ (at : ℕ). host.read_fails filepath at chunk)
                            (sym (shifted offset chunk i))
                          ∙ fails,
                    ),
                    rw (archive_get_data-chunk offset chunk fits read, result),
                  )
                ]
        ]

    archive_get_size_lem : archive_get_size host filename ≡ ok (length data_)
    unfolding archive_get_size
    archive_get_size_lem = ground arith

    -- For a superuser and a file that is there: reads of one allowed length, one behind the other
    -- and enough for the size that archive_get_size reports, give the whole file where none of them
    -- sets the error indicator of the file, and the error that the file could not be read otherwise.
    pub chunks_roundtrip :
        (total chunk count : ℕ)
        → archive_get_size host filename ≡ ok total
        → chunk ≤ host.max_length
        → total ≤ count * chunk
        → (((i : ℕ) → i < count → host.read_fails filepath (0 + i * chunk) chunk ≡ false)
            × (read_chunks filename chunk count 0 ≡ ok data_))
          ⊎ (((i : ℕ) × (i < count) × (host.read_fails filepath (0 + i * chunk) chunk ≡ true))
              × (read_chunks filename chunk count 0 ≡ err (could_not_read filepath)))
    chunks_roundtrip total chunk count size fits enough =
        let known : total ≡ length data_ = ground (arith, archive_get_size_lem) in
        read_chunks_lem chunk count 0 fits (omega arith)
