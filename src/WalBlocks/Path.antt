-- ===== src/WalBlocks/Path.antt =====
-- pg_wal_blocks/pg_wal_blocks.c: split_path.
use pg_plugins.Base.{
  ℕ, suc, ◌+◌, Option, none, some, [], ◌∷◌, Bytes, ◌==◌, if◌then◌else◌, take, drop,
}

-- strrchr: the position of the last `c`, for a byte `c` that is not NUL.
unfoldable pub strrchr : Bytes → ℕ → Option ℕ
strrchr [] c = none
strrchr (b ∷ s) c = elim (strrchr s c) [
  | some i ↦ some (suc i)
  | none ↦ if b == c then some 0 else none
]

-- The directory, which is NULL where there is none, and the name of the file.
unfoldable pub split_path : Bytes → Option Bytes × Bytes
unfolding strrchr
split_path path = elim (strrchr path b'/') [
  | some sep ↦ (some (take (sep + 1) path), drop (sep + 1) path)
  | none ↦ (none, path)
]
