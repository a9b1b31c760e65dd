-- ===== src/WalUtils/Tests.antt =====
-- Timeline histories, segment lists and archive files on small inputs: tests, and the theorems
-- applied.
use pg_plugins.Base.{
  ◌^◌, ◌*◌, ◌%◌, ◌⊎◌, false, suc, ℕ, ◌+◌, ◌-◌, ◌/◌, ◌≤◌, ◌<◌, ◌≡◌, refl, true, ◌||◌, none, some,
  List, [], ◌∷◌, ◌++◌, map, arith, Bytes, codes, ◌==◌, strstr, starts_with,
}
use pg_plugins.Base.Int.{pos, negsuc}
use pg_plugins.Base.Result.{err, ok, is_ok}
use pg_plugins.WalUtils.History.{
  Entry, Scanner, lines_of, is_skipped, parse_fields, add_entry, parse_line, parse_lines,
  parse_time_line_history, archive_parse_history, history_row,
}
use pg_plugins.WalUtils.Parsed.{
  Chained, values_of, end_points, content, history_entries, are_valid_fields, history_accepts,
}
use pg_plugins.WalUtils.Segments.{
  Wal, next_segment, entry_segments, all_segments, find_parent, check_history, tracked,
  build_segments, archive_build_segment_list,
}
use pg_plugins.WalUtils.Steps.{range, start}
use pg_plugins.WalUtils.Cover.{last_end}
use pg_plugins.WalUtils.Listed.{numbered, segment_list}
use pg_plugins.WalUtils.Archive.{
  Host, check_and_build_filepath, truncated, seek, archive_get_size, archive_get_data,
  could_not_read,
}
use pg_plugins.WalUtils.Files.{read_chunks, chunks_roundtrip}

-- Fields of one character, the digit 0 for 0 and so on.
abbrev scanner : Scanner
scanner = record { isspace = λ c. c == 32 || c == 9; sscanf = map (λ c. c - 48) }

abbrev wal : Wal
wal = record {
  wal_segment_size = 16;
  prev_seg = λ lsn. (lsn + 2 ^ 64 - 1) % 2 ^ 64 / 16;
  file_name = λ tli number. tli ∷ number ∷ [];
}

abbrev history : Bytes
history = codes "# text\n10A\n \n20Q"

abbrev parsed : List Entry
parsed = record { tli = 1; begin = 0; end = 17 } ∷ record { tli = 2; begin = 17; end = 33 } ∷ []

abbrev followed : List Entry
followed = parsed ++ record { tli = 3; begin = 17; end = 60 } ∷ []

parse_test :
    archive_parse_history scanner history
    ≡ ok ((pos 1, none, some 17) ∷ (pos 2, some 17, some 33) ∷ [])
unfolding archive_parse_history parse_time_line_history parse_lines parse_line parse_fields
    add_entry is_skipped lines_of history_row
parse_test = refl

-- One name on each timeline, and that of the target.
list_test :
    archive_build_segment_list wal scanner 6
      (some (pos 1))
      (some 5)
      (some (pos 3))
      (some 60)
      (some history)
    ≡ ok (some ((1 ∷ 0 ∷ []) ∷ (2 ∷ 1 ∷ []) ∷ (3 ∷ 2 ∷ []) ∷ (3 ∷ 3 ∷ []) ∷ []))
unfolding archive_build_segment_list build_segments tracked check_history find_parent all_segments
    entry_segments next_segment parse_time_line_history parse_lines parse_line parse_fields
    add_entry is_skipped lines_of
list_test = refl

history_entries_example :
    (end_points parsed ≡ map values_of (content scanner (lines_of history))) × Chained 0 0 parsed
unfolding parse_time_line_history parse_lines parse_line parse_fields add_entry is_skipped lines_of
history_entries_example = history_entries scanner history parsed refl

history_accepts_example :
    is_ok (parse_time_line_history scanner history)
    ≡ are_valid_fields scanner 0 (content scanner (lines_of history))
history_accepts_example = history_accepts scanner history

segment_list_example :
    (n : ℕ) × (archive_build_segment_list wal scanner 5
        (some (pos 1))
        (some 5)
        (some (pos 3))
        (some 60)
        (some history)
      ≡ ok (some (map (numbered wal followed) (range 0 n) ++ (3 ∷ 3 ∷ []) ∷ [])))
    × (last_end followed ≤ start wal (suc (0 + n)))
    × ((i : ℕ) → 0 ≤ i → i < 0 + n → start wal (suc i) < last_end followed)
unfolding tracked check_history find_parent parse_time_line_history parse_lines parse_line
    parse_fields add_entry is_skipped lines_of
segment_list_example =
    segment_list wal (λ lsn. refl) (omega arith) scanner 4 5 60 (pos 1) (pos 3) (some history)
      followed (omega arith) (omega arith) (omega arith) refl (omega arith)

abbrev host : Host
host = record {
  is_absolute_path = λ path. starts_with (codes "/") path;
  contains_parent_reference = λ path. strstr path (codes "..");
  pgarchive = some (codes "/a");
  maxpgpath = 1024;
  canonicalize_path = λ path. path;
  superuser = true;
  content = λ path. some (codes "abcde");
  read_fails = λ path from len. from == 4;
  max_length = 100;
}

-- The last two bytes.
get_data_test : archive_get_data host (codes "f") (negsuc 1) (pos 50) ≡ ok (codes "de")
unfolding archive_get_data check_and_build_filepath seek truncated starts_with strstr
get_data_test = refl

-- The last of the three reads fails, since it starts at position 4.
fails_test : read_chunks host (codes "f") 2 3 0 ≡ err (could_not_read (codes "/a/f"))
unfolding archive_get_data check_and_build_filepath seek truncated starts_with strstr
fails_test = refl

chunks_roundtrip_example :
    (((i : ℕ) → i < 2 → host.read_fails (codes "/a/f") (0 + i * 3) 3 ≡ false)
      × (read_chunks host (codes "f") 3 2 0 ≡ ok (codes "abcde")))
    ⊎ (((i : ℕ) × (i < 2) × (host.read_fails (codes "/a/f") (0 + i * 3) 3 ≡ true))
        × (read_chunks host (codes "f") 3 2 0 ≡ err (could_not_read (codes "/a/f"))))
unfolding archive_get_size check_and_build_filepath truncated starts_with strstr
chunks_roundtrip_example =
    chunks_roundtrip host (codes "f") (codes "/a/f") (codes "abcde") refl refl refl 5 3 2 refl
      (omega arith) (omega arith)
