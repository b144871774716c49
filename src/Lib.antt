-- ===== src/Lib.antt =====
-- The live stream of mariadb-mysql-cdc, which applies the binlog events of a MariaDB source to a MySQL
-- target, and the synchronisation of tables: their order, and the
-- chunks by which a table is compared and changed.
--
-- The stream reads decoded events, applies row events in a target transaction, groups complete source
-- transactions in it, and stores in the same transaction the coordinate from which it can resume.
-- An attempt that fails is made again from the stored coordinate.
--
-- Prelude        lists, bytes of texts, ordered maps and sets, Boolean tests on native numbers.
-- Stream/Types   BinlogCoordinate (src/probe.rs), Checkpoint (src/checkpoint.rs), the errors of
--                src/live.rs, the events of vendor/mysql_cdc as far as the stream reads them.
-- Stream/Exec    results with the state kept beside an error.
-- Stream/Event   StructuredEventState and the pure decisions of src/live/structured_stream.rs and
--                src/live/structured_stream/event.rs.
-- Stream/Target  the calls of the stream as functions on a world: TransactionalTargetExecutor
--                (src/target.rs), StreamCheckpointStore (src/live/reconnect.rs), the row and
--                statement appliers and the tests on statement texts.
-- Stream/Context StreamEventContext, what it keeps and what it changes.
-- Stream/Checkpoints  which checkpoint may replace which (src/live/reconnect.rs,
--                src/live/structured_stream/ddl.rs).
-- Stream/Handler the event handler (src/live/structured_stream/event.rs, rows.rs beside it).
-- Stream/Transaction  the grouped transaction (src/live/structured_stream/transaction.rs): Trace has
--                the histories, Handled, Commit, Step, Record and Event the invariant of one event.
-- Stream/Contract  the behaviour of a MySQL session that the results rely on, as laws; a call may fail
--                after its effect. Stream/Session is a session that keeps them.
-- Stream/Loop    an attempt (src/live/structured_stream/init.rs and init/completion.rs), and the
--                positions that its read-ahead thread sends with the events.
-- Stream/Reconnect  the loop over attempts (src/live/reconnect.rs).
-- Stream/Progress   the throttle of the progress log (src/live/progress.rs).
-- Stream/Value   cells of row events: src/live/structured_stream/value.rs.
-- Stream/Barrier the barrier of an unresolved DDL: src/live/ddl_replay_journal.rs.
-- Sync/Exec, Sync/Model  errors, rows, progress and the traits of a chunk (src/sync/model.rs,
--                src/database_row.rs).
-- Sync/Owners    the check of the row that owns a unique value, Sync/Mutations the strict mutations
--                that reconcile such owners, Sync/Window the comparison of a window with the target's
--                pages, Sync/Chunk a chunk under its lock and the loop of a phase
--                (src/sync/chunk.rs, run_table_phase of src/sync/phased_run.rs).
-- Sync/Contract  the behaviour of the source, the target session and the progress store that the
--                results on chunks rely on, as laws; Sync/Spec what a phase is to do with one row.
--                Sync/Chunk/Memory is a session that keeps them, as Memory/Fulfils shows.
-- Sync/DependencyOrder  the batches of a sync in foreign-key order (src/sync/dependency_order.rs).
-- Sync/Stages    the schema stages around the rows of a synchronisation (src/sync/orchestrate.rs).
-- Sync/Selection  the tables that a synchronisation may select (src/sync/orchestrate.rs).
-- Sync/PhaseStore  the progress of a phase behind that of earlier runs
--                (src/sync/phase_progress.rs, sync_chunk_progress_from_row of src/sync/mysql.rs).
-- Stream/Token   the words of a statement (src/live/structured_stream/token.rs) and quote_ident of
--                src/mysql_support.rs.
-- Stream/Tests   runs on the session, and the results at examples.
--
-- Texts are lists of bytes. Error messages are kept as the constructor of their format. Numbers are
-- natural: u64 positions are never added to but in next_source_position, where the sum saturates. The
-- attempt is structural on the list of what the read-ahead thread sends. The reconnect loop takes fuel,
-- a bound on the attempts, and max_reconnects + 1 is enough where it does not reconnect forever.
--
-- The loops of a chunk, over the target's pages and over refused batches, take fuel: one more than the
-- rows of the target, and than the conflicts it can show. The loop of a phase takes a bound on its
-- chunks. Counters of rows wrap at 2 ^ 64; the source is taken not to change during a phase, and its
-- order of keys, which is the server's, is abstract.
--
-- The loop over the characters of a statement takes their number as fuel.
--
-- The loop over batches takes the dependencies still counted and the tables ready as fuel, which
-- every batch makes fewer.
--
-- Without a bound, where the code has machine integers: the counters of the reconnect loop and of the
-- progress log. The seconds of a time of day are natural, as the caller's rem_euclid leaves them.
-- process_stream_event has neither the DDL path nor the progress log, which Stream/Progress has.
--
-- Not modelled: the binary protocol, schema changes (the automatic DDL path), the mapping of schemas,
-- the other SQL texts, the log lines, the threads of a synchronisation, and
-- the tools for recovery and validation.
pub mod Prelude
pub mod Stream
pub mod Sync
