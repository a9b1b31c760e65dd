-- ===== src/HostFiles.antt =====
-- pg_statvfs/pg_statvfs.c and pg_mark_glibc/pg_mark_glibc.c: the plugins that read and write the file
-- system of the host.
pub mod Statvfs
pub mod MarkGlibc
mod Allowed
mod Tests
