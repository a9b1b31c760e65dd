-- ===== src/WalBlocks/Split.antt =====
-- pg_wal_blocks/pg_wal_blocks.c: split_path against dirname(1) and basename(1).
use pg_plugins.Base.{
  ℕ, suc, ◌+◌, ◌≡◌, refl, ap, false, none, some, [], ◌∷◌, ◌++◌, Bytes, codes, arith, take, drop,
  length, strchr,
}
use pg_plugins.WalBlocks.Path.{strrchr, split_path}

strrchr-none : (s : Bytes) (c : ℕ) → strchr s c ≡ false → strrchr s c ≡ none
unfolding strchr strrchr
strrchr-none [] c h = refl
strrchr-none (b ∷ s) c h =
    let rest : strrchr s c ≡ none = strrchr-none s c (ground arith) in rw rest (ground arith)

strrchr-append :
    (p s : Bytes) (c : ℕ) → strchr s c ≡ false → strrchr (p ++ c ∷ s) c ≡ some (length p)
unfolding strrchr
strrchr-append [] s c h = rw (strrchr-none s c h) (ground arith)
strrchr-append (b ∷ p) s c h = rw (strrchr-append p s c h)

take-behind : (p s : Bytes) (c : ℕ) → take (suc (length p)) (p ++ c ∷ s) ≡ p ++ c ∷ []
take-behind [] s c = refl
take-behind (b ∷ p) s c = ap (λ (t : Bytes). b ∷ t) (take-behind p s c)

drop-behind : (p s : Bytes) (c : ℕ) → drop (suc (length p)) (p ++ c ∷ s) ≡ s
drop-behind [] s c = refl
drop-behind (b ∷ p) s c = drop-behind p s c

-- split_path undoes the joining of a path: a name without a slash has no directory, and of a
-- directory, a slash and such a name it gives the directory with its slash, and the name.
pub split_path-join :
    (directory fname : Bytes)
    → strchr fname b'/' ≡ false
    → (split_path fname ≡ (none, fname))
      × (split_path (directory ++ b'/' ∷ fname) ≡ (some (directory ++ codes "/"), fname))
unfolding split_path
split_path-join directory fname h =
    let next : length directory + 1 ≡ suc (length directory) = omega arith in
    (
      rw (split_path, strrchr-none fname b'/' h),
      rw (
        split_path,
        strrchr-append directory fname b'/' h,
        next,
        take-behind directory fname b'/',
        drop-behind directory fname b'/',
      ),
    )
