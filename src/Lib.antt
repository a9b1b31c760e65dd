-- ===== src/Lib.antt =====
-- Verification of pg_plugins, a set of plugins for PostgreSQL.
--
-- The plugins are separate shared libraries and programs; each is loaded by the server or run on its
-- own, and the server is what they share. A part of the development models one of them:
--
--   PasswordCheck  passwordcheck_extra/passwordcheck_extra.c, the hook check_password that accepts or
--                  rejects a new password. Scan: the classes of characters and their flags; Format: the
--                  list of what lacks; the rest of the file has the hook itself. The ctype functions,
--                  pg_md5_encrypt and cracklib are parameters.
--   ReceiverRaw    receiver_raw/receiver_raw.c, the worker that applies the statements which
--                  decoder_raw writes. Wire: fe_sendint64 and fe_recvint64 on bytes; Message: sendFeedback,
--                  the positions and one message; Loop: the batch, the round and the loop of
--                  receiver_raw_main with its signals; Startup: the whole of receiver_raw_main, from the
--                  connection on; Time: feTimestampDifference. What libpq, the latch and
--                  the clock give is a script (Delivery, Wakeup), what the worker does is a trace. An ERROR
--                  of SPI_execute aborts the transaction and ends the worker with code 1.
--   DecoderRaw     decoder_raw/decoder_raw.c, the output plugin. Print: print_literal, print_value and
--                  the WHERE clause; Statements: decoder_raw_insert, decoder_raw_update,
--                  decoder_raw_delete; Callbacks: the callbacks and the options. The catalog and the output
--                  functions are the parameter Backend. A text is what is appended to the StringInfo.
--   Replication    the two together: Transaction: the callbacks of decoder_raw for one transaction, in the
--                  order in which the server calls them, those of truncations included; Stream: the
--                  messages that carry the texts to receiver_raw. The protocol and the server's reading of the query are hypotheses.
--   WalUtils       wal_utils/wal_utils.c. History: parseTimeLineHistory; Segments:
--                  archive_build_segment_list; Archive: check_and_build_filepath, archive_get_size and
--                  archive_get_data. The C library, the segment macros and the file system are parameters.
--   JsonLog        jsonlog/jsonlog.c. Levels: jsonlog_error_severity and is_log_level_output; Server: what
--                  the hook reads, and the two times; Json: the fields of the object, each as the text that
--                  it appends; Hook: jsonlog_write_json; Chunks: jsonlog_write_pipe_chunks and the output;
--                  Output: what the output is on each destination.
--                  escape_json, the printing of C and the variables of the server are a parameter.
--   Overflow       overflow/. Check: pg_overflow_check of overflow.c; Functions: the SQL functions of int.c
--                  and uint.c. The functions of the server's common/int.h are the parameter IntOps; an
--                  integer of C is read from the bits of its Datum.
--   Pgmpc          pgmpc/pgmpc.c. Client: the connection and the status, pgmpc_init, pgmpc_reset and
--                  pgmpc_print_error; Functions: the SQL functions; Requests: the calls of a session.
--                  libmpdclient is the parameter Mpd, which answers by the calls made so far, and the
--                  client counts what of it is allocated. pgmpc_print_error reads the message of a connection
--                  that it has freed: an outcome of its own, behind which nothing is known, so the model has no
--                  message. The results void and NULL are the same here.
--   Workers        kill_idle/, hello_notify/, count_relations/, hello_signal/ and hello_world/. Loop: events
--                  and rounds; KillIdle, HelloNotify and Simple: the handlers and the loops of the workers.
--                  What a round meets (signals, the configuration file, the answer to the query) is a
--                  script, and what the worker does is a trace.
--   WalBlocks      pg_wal_blocks/pg_wal_blocks.c, a program that lists the blocks which the records of a WAL
--                  segment touch. Path: split_path; Parsing: extract_block_info and do_wal_parsing with
--                  the page callbacks; Command: main. The WAL reader of the server is a parameter: what its
--                  calls give, one after another, is a Reader, which ends, as a segment does.
--   SignalRmgr     signal_rmgr/signal_rmgr.c, WAL records that send a signal when they are replayed. Rmgr: the
--                  SQL function signal_rmgr, and the redo, desc and identify callbacks. A record is its two
--                  fields and the bytes behind them, at the same offset for the writer and the reader.
--   Hooks          hook_utility/hook_utility.c, pg_trunc2del/pg_trunc2del.c and object_hooks/object_hooks.c.
--                  Utility: the two hooks on utility statements, as functions of the hook that was there
--                  before; ObjectAccess: the hook on the access to objects.
--   LwlockTest     lwlock_test/lwlock_test.c, two backends that wait for each other's variables. Locks: the
--                  shared state, the acquisition and the release; Backends: lwlock_test_update and
--                  lwlock_test_wait as steps, one for each access to the shared state; System: the two in any
--                  interleaving. The locks of the server are the parameter LwLocks, with laws; a call that
--                  would sleep is a step that cannot be made yet.
--   Pages          compress_test/compression_test.c, pg_swap_pages/pg_swap_pages.c and
--                  pg_fix_truncation/pg_fix_truncation.c. Store: the pages of a fork; Compression:
--                  get_raw_page and the functions on compressed data; Swap and Truncation: the other two, with
--                  the calls that they make in order. pglz, the header of a page and what GenericXLogFinish does to a
--                  page are parameters.
--   Secrets        scram_utils/scram_utils.c, hmac_funcs/hmac_funcs.c and
--                  pg_sasl_prepare/pg_sasl_prepare.c. Scram: both SQL functions on a catalog of roles; Hmac:
--                  hmac_internal and its SQL functions; SaslPrepare: the one SQL function. SASLprep, the
--                  random bytes, the building of a secret and the HMAC context are parameters.
--   HostFiles      pg_statvfs/pg_statvfs.c, as built on Linux, and pg_mark_glibc/pg_mark_glibc.c. Statvfs: the
--                  check of the path, the flags and the row; MarkGlibc: the command line and the marker file.
--                  The path functions, statvfs, getopt_long and the files are parameters.
--   Blackhole      blackhole/blackhole.c, two functions that return a set of rows. Functions: the loop of
--                  blackhole_tuplestore, and one call of blackhole_value_per_call with the context that it
--                  leaves; the printing of a number is a parameter.
--   HintParser     hint_parser/hint_scanner.l, hint_gram.y and hint_parser.c. Scanner: the rules of the
--                  scanner, by the longest match; Parser: the automaton of the grammar and the SQL function;
--                  Grammar: the rules of the grammar as they are written.
--   Base           what the parts share: C strings as lists of bytes, results, signed integers, bits,
--                  texts joined by a separator.
--
-- In each part the file Tests has runs of the model on small inputs and the theorems applied to them;
-- the other files hold the proofs, named for what they prove.
--
-- Conventions. A C integer is a native number with its wrap-around written out (% 2 ^ w). A read outside
-- an object is none or the outcome fault. ereport(ERROR) and exits are results with their reason.
-- A NULL pointer is none. Assertions are off, as in a production build.
--
-- Fuel. The inner loop of archive_build_segment_list runs on fuel, since on a wrap-around of the position
-- it need not end; a fuel above the number of segments up to each end of an entry is enough without one.
-- The loop of jsonlog_write_pipe_chunks runs on a fuel above the length of the message, that of
-- blackhole_tuplestore on one above the number of rows. All other loops
-- are structural recursions on what they consume: bytes, columns, options, lines, or the script of events.
--
-- Not modelled: the registration of hooks, GUC variables and background workers, logging but for that of
-- the workers of Workers, and memory contexts but for those that decoder_raw switches. Of the plugins,
-- blackhole_am (callbacks of a table access method that do nothing), custom_wal, mcxtalloc_test,
-- pg_panic, pg_rusage and plpgsql_cb, which are one or two calls of the server each.
pub mod Base
pub mod PasswordCheck
pub mod ReceiverRaw
pub mod Blackhole
pub mod HintParser
pub mod Replication
pub mod DecoderRaw
pub mod HostFiles
pub mod Secrets
pub mod Pages
pub mod LwlockTest
pub mod Hooks
pub mod SignalRmgr
pub mod WalBlocks
pub mod WalUtils
pub mod JsonLog
pub mod Overflow
pub mod Pgmpc
pub mod Workers
