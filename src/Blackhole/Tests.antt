-- ===== src/Blackhole/Tests.antt =====
-- Sets of rows on concrete numbers.
use pg_plugins.Base.{
  ◌+◌, ◌-◌, ◌^◌, ◌≡◌, refl, true, false, some, none, List, [], ◌∷◌, Bytes, codes, arith, length,
}
use pg_plugins.Base.Int.{ℤ, pos, negsuc, pos_part}
use pg_plugins.Base.Result.{ok, err}
use pg_plugins.Blackhole.Functions.{
  Row, int32, int64, uint64, put_rows, blackhole_tuplestore, per_call, blackhole_value_per_call,
  return_next, return_done, Returned, not_row_type,
}
use pg_plugins.Blackhole.Agreement.{blackhole_agreement}

-- The printing of one digit.
abbrev digit : ℤ → Bytes
digit n = (b'0' + pos_part n) ∷ []

blackhole_agreement_example :
    (rows : List Row) × (blackhole_tuplestore digit (pos 2) ≡ some rows)
    × (length rows ≡ 2)
    × Returned digit (pos 2) none rows
    × ((others : List Row) → Returned digit (pos 2) none others → others ≡ rows)
    × (blackhole_tuplestore digit (negsuc 0) ≡ some [])
    × (more : List Row) × Returned digit (negsuc 0) none more
    × (length more ≡ 2 ^ 64 - 1 - 0)
blackhole_agreement_example = blackhole_agreement digit 2 0 (omega arith) (omega arith)

rows_test :
    blackhole_tuplestore digit (pos 2)
    ≡ some ((pos 0, codes "data 0") ∷ (pos 1, codes "data 1") ∷ [])
unfolding blackhole_tuplestore put_rows
rows_test = refl

calls_test :
    (blackhole_value_per_call digit false (pos 1) none ≡ err not_row_type)
    × (blackhole_value_per_call digit true (pos 1) none
        ≡ ok (return_next (pos 0, codes "data 0"), some 1))
    × (blackhole_value_per_call digit true (pos 1) (some 1) ≡ ok (return_done, none))
    × (int32 (2 ^ 32 - 1) ≡ negsuc 0)
unfolding blackhole_value_per_call per_call int32 int64 uint64
calls_test = (refl, refl, refl, refl)
