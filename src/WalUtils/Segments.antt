-- ===== src/WalUtils/Segments.antt =====
-- wal_utils/wal_utils.c: archive_build_segment_list.
use pg_plugins.Base.{
  ℕ, zero, suc, ◌+◌, ◌-◌, ◌%◌, ◌^◌, ◌&&◌, Option, none, some, List, [], ◌∷◌, ◌++◌, Bytes, ltb, leb,
  ◌==◌, if◌then◌else◌,
}
use pg_plugins.Base.Int.{ℤ, uint32}
use pg_plugins.Base.Result.{Result, ok, err}
use pg_plugins.WalUtils.History.{Entry, Scanner, HistoryError, parse_time_line_history}

-- The server's segments: wal_segment_size, XLByteToPrevSeg and XLogFileName.
pub record Wal : Type 0 where
  pub wal_segment_size : ℕ
  pub prev_seg : ℕ → ℕ
  pub file_name : ℕ → ℕ → Bytes

pub data SegmentError : Type 0 where
  null_argument origin_lsn_newer origin_tli_newer history_empty : SegmentError
  last_tli_newer last_lsn_newer not_a_parent timelines_not_matching : SegmentError
  invalid_history : HistoryError → SegmentError

-- A name in front of the others.
abbrev pub cons_segment : Bytes → Option (List Bytes × ℕ) → Option (List Bytes × ℕ)
cons_segment name none = none
cons_segment name (some (segs, lsn)) = some (name ∷ segs, lsn)

module _ (wal : Wal) where
  -- The start of the segment behind that of a position, on 64 bits.
  unfoldable pub next_segment : ℕ → ℕ
  next_segment lsn =
      let moved : ℕ = (lsn + wal.wal_segment_size) % 2 ^ 64 in moved - moved % wal.wal_segment_size

  -- The inner loop, on fuel: the names, and the position behind. None is out of fuel.
  unfoldable pub entry_segments : ℕ → Entry → ℕ → Option (List Bytes × ℕ)
  entry_segments zero e lsn = none
  entry_segments (suc fuel) e lsn =
      let rest = entry_segments fuel e (next_segment lsn) in
      if leb e.begin lsn && ltb lsn e.end
      then cons_segment (wal.file_name e.tli (wal.prev_seg lsn)) rest
      else some ([], lsn)

  unfoldable pub all_segments : ℕ → List Entry → ℕ → Option (List Bytes)
  all_segments fuel [] lsn = some []
  all_segments fuel (e ∷ es) lsn = elim (entry_segments fuel e lsn) [
    | none ↦ none
    | some (segs, lsn') ↦ elim (all_segments fuel es lsn') [
      | none ↦ none
      | some more ↦ some (segs ++ more)
    ]
  ]

-- The entry of the origin; the search stops at the first.
unfoldable pub find_parent : ℕ → ℕ → List Entry → Option Entry
find_parent origin_tli origin_lsn [] = none
find_parent origin_tli origin_lsn (e ∷ es) =
    let rest = find_parent origin_tli origin_lsn es in
    if leb e.begin origin_lsn && (leb origin_lsn e.end && e.tli == origin_tli) then some e else rest

abbrev pub last_entry : Entry → List Entry → Entry
last_entry e [] = e
last_entry e (e' ∷ es) = last_entry e' es

-- The checks on a parsed history: the start of the last, target timeline.
unfoldable pub check_history : ℕ → ℕ → ℕ → ℕ → List Entry → Result SegmentError ℕ
check_history origin_tli origin_lsn target_tli target_lsn [] = err history_empty
check_history origin_tli origin_lsn target_tli target_lsn (e ∷ es) =
    if leb target_tli (last_entry e es).tli
    then err last_tli_newer
    else if ltb target_lsn (last_entry e es).end
    then err last_lsn_newer
    else elim (find_parent origin_tli origin_lsn (e ∷ es)) [
      | none ↦ err not_a_parent
      | some parent ↦ ok parent.end
    ]

-- The history to follow, with the entry of the target behind it.
unfoldable pub tracked : Scanner → ℕ → ℕ → ℕ → ℕ → Option Bytes → Result SegmentError (List Entry)
tracked sc origin_tli origin_lsn target_tli target_lsn (some history_buf) =
    elim (parse_time_line_history sc history_buf) [
      | err e ↦ err (invalid_history e)
      | ok entries ↦ elim (check_history origin_tli origin_lsn target_tli target_lsn entries) [
        | err e ↦ err e
        | ok start ↦
            ok (entries ++ record { tli = target_tli; begin = start; end = target_lsn } ∷ [])
      ]
    ]
tracked sc origin_tli origin_lsn target_tli target_lsn none =
    if origin_tli == target_tli
    then ok (record { tli = target_tli; begin = origin_lsn; end = target_lsn } ∷ [])
    else err timelines_not_matching

-- The arguments behind the test for NULL, and the segments: a row for each.
unfoldable pub build_segments :
    Wal → Scanner → ℕ → ℕ → ℕ → ℕ → ℕ → Option Bytes → Result SegmentError (Option (List Bytes))
build_segments wal sc fuel origin_tli origin_lsn target_tli target_lsn history_buf =
    if ltb target_lsn origin_lsn
    then err origin_lsn_newer
    else if ltb target_tli origin_tli
    then err origin_tli_newer
    else elim (tracked sc origin_tli origin_lsn target_tli target_lsn history_buf) [
      | err e ↦ err e
      | ok entries ↦ elim (all_segments wal fuel entries (next_segment wal origin_lsn)) [
        | none ↦ ok none
        | some segs ↦ ok (some (segs ++ wal.file_name target_tli (wal.prev_seg target_lsn) ∷ []))
      ]
    ]

-- The timelines are int32 arguments, taken as uint32.
unfoldable pub archive_build_segment_list :
    Wal
    → Scanner
    → ℕ
    → Option ℤ
    → Option ℕ
    → Option ℤ
    → Option ℕ
    → Option Bytes
    → Result SegmentError (Option (List Bytes))
archive_build_segment_list wal sc fuel (some origin_tli) (some origin_lsn) (some target_tli)
      (some target_lsn) history_buf =
    build_segments wal sc fuel (uint32 origin_tli) origin_lsn (uint32 target_tli) target_lsn
      history_buf
archive_build_segment_list wal sc fuel _ _ _ _ history_buf = err null_argument
