-- ===== src/Pages.antt =====
-- compress_test/compression_test.c, pg_swap_pages/pg_swap_pages.c and
-- pg_fix_truncation/pg_fix_truncation.c: the plugins that work on the pages of a relation.
pub mod Store
pub mod Compression
pub mod Swap
pub mod Truncation
mod Hole
mod Swapped
mod Tests
