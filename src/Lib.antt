-- ===== src/Lib.antt =====
-- A validator of Tableland executes, block by block, the events of a registry contract on a SQLite
-- database. This library models that path, from the logs of the chain to the rows of the
-- database, and the parts beside it that keep state of their own, and proves what makes it correct.
--
-- The parts, and how they interact:
--
--   Errors      Go's errors as values: errQueryExecution (pkg/eventprocessor/impl/executor/impl/
--               txnscope.go), isErrCausedByQuery (executor.go), and what fmt.Errorf does to a chain
--               of errors with %w and with %s. A call returns, returns an error, or panics.
--   Acl         internal/tableland/acl.go: privileges, operations and CanExecute; the bit masks of
--               system_acl (aclFromSQLtoDTO of pkg/sqlstore/impl/system/store.go).
--   Database    The tables of pkg/sqlstore/impl/system/migrations and the users' tables; in
--               Database/Statements the fixed SQL statements that the executor issues, each with the
--               constraints that SQLite checks.
--   Parsing     pkg/parsing/impl/validator.go: what the validator accepts (Validator) and the
--               statements that it hands on (Statements). The parser library
--               (github.com/tablelandnetwork/sqlparser) is the parameter SqlParser.
--   Executor    pkg/eventprocessor/impl/executor/impl: the monad of a block scope's transaction, and
--               Policies, Grants, Writes and RunSql (txnscope_runsql.go), Tables
--               (txnscope_createtable.go, txnscope_setcontroller.go, txnscope_transfer.go), Events
--               (txnscope.go), BlockScope (blockscope.go) and Scopes (executor.go).
--   Processor   pkg/eventprocessor/impl/eventprocessor.go: executeBlock, the state hash's pace, and
--               the daemon's loop that retries a block.
--   Feed        pkg/eventprocessor/eventfeed/impl/eventfeed.go: the ranges of blocks that are asked of
--               the node (Fetch), the parsing of logs (Parse), their packing into blocks (this file)
--               and their rows in system_evm_events (Persist). ExtraInfo is
--               fetchExtraBlockInfo (pkg/eventprocessor/eventfeed/impl/analytics.go).
--   Nonce       pkg/nonce/impl/tracker.go: the pending transactions of a wallet in memory
--               (Operations) and in system_pending_tx, with the statements of
--               pkg/sqlstore/impl/system/internal/db/nonce.sql.go as they are bound.
--   Service     internal/tableland/impl/mesa.go: which statements the service accepts and relays to the
--               registry contract; Service/Receipts is its GetReceipt.
--   Formatter   internal/formatter/formatter.go: the rows of a read query as objects and as text.
--   UserStore   pkg/sqlstore/impl/user: what a query of the users' tables reads, and how its values are
--               scanned (ColumnValue of internal/tableland/tableland.go).
--   Names       The ids and names of tables as texts: pkg/tables/tables.go (NewTableID) and
--               internal/tableland/tableland.go (NewTableFromName).
--   System      internal/system/impl/sqlstore.go: tables, schemas and receipts for the API; in
--               System/Store and System/Reads the reads of
--               pkg/sqlstore/impl/system/store.go.
--   Api         internal/router/controllers/controller.go: the answers of the HTTP handlers, with the
--               parameters of a format (Params), queries (Query), rows and their metadata (Row,
--               Metadata), receipts (Receipts) and tables (Tables). Api/Middlewares is
--               internal/router/middlewares, and Api/Rpc the JSON-RPC service of
--               internal/router/controllers/legacy/rpcservice.go.
--   Telemetry   pkg/telemetry: metrics (Payloads), their table (storage/db.go), and in Telemetry/Publisher the
--               publisher and its HTTP exporter (publisher/publisher.go, publisher/exporters.go).
--   StateHash   pkg/dbhash/dbhash.go: the text of the database whose hash validators compare.
--   Backup      pkg/backup: which files of a directory Prune removes (pruner.go), and in
--               Backup/Backuper the making of a backup (backuper.go).
--   Steps       The error monad of Feed, Nonce, Telemetry and Backup, over a state of their own.
--
-- The feed sends blocks to the event processor, which executes them in the order of their numbers. The
-- nonce tracker numbers the transactions that the validator relays to the registry.
-- The event processor opens a block scope, executes the events of each transaction under a savepoint,
-- saves the receipts and the height, and commits. An error that a query itself causes (a controlled
-- error, errQueryExecution) becomes the receipt of its transaction; any other error abandons the
-- block, which the daemon tries again.
--
-- How the code's state is kept:
--
--   - World is an open transaction's view of the database with the number of calls made of the
--     database so far; M is the state monad over it whose results are Result. A panic is a result.
--   - Env is what lies outside the repository: the parser library, the effect of a statement's text
--     on the database (exec, query), the auditing query, the state hash, and an oracle that lets
--     the n-th call of the database fail for a reason of its own. A failed call has no effect.
--     The engine may do anything with a text. What is relied on of it is Confined (Executor/Confined):
--     the text that the library resolves a write to, or prints a CREATE TABLE as, changes only users'
--     tables if the statement's table is named as those are. Parsing/Permitted shows that the
--     validator lets through no other writes, and Framed that policies and RETURNING keep the table.
--   - Executor (in Scopes) is the committed database, the token of chBlockScope, the closed flag and
--     the count of open transactions; Processor adds the processor's own fields.
--   - A table with a primary key is a function from its key; the receipts are a list. An address is
--     its number. A table id is a natural number; a statement that passes its text compares it
--     exactly, one that passes Int64() compares the low 64 bits with their sign.
--   - The text of an error is kept as the structure of formats that built it, not as one string.
--   - Frames relates the databases before and after a computation whatever it returns; Framed proves
--     the relation for every operation of a transaction once its statements have it, and Ledger,
--     Integrity and NonOwner are three such relations. Ensures is a postcondition; Yields says what
--     a computation gives.
--   - Calls is a component's state with the number of calls of outside services made so far; Run is the
--     state monad over it. A service is a function of that number, so that it may answer each call in
--     another way. Feed in Feed/Fetch is the event feed with the blocks that it has sent; Tracker is the
--     nonce tracker with the rows of its store.
--   - A Writer is an http.ResponseWriter: the first WriteHeader sends the headers that are set then.
--   - World in Telemetry/Publisher is the table of metrics with what the endpoint has received, and
--     with the metrics that other goroutines collect before each of the next statements.
--
-- Bounds and fuel: the validator's loops and the executor's are structural. The retries of one block
-- have no bound in the code; retry_block takes the number of attempts, and `none` means that it still
-- retries after them, or that the code panicked. The rounds of the feed's inner loop have no bound
-- either: catch_up takes their number, and the number that is enough once the node serves is a theorem.
-- Heights are integers without a bound, where the code has int64; so are the fetch size and wei.
--
-- Not modelled: timestamps (no statement here reads them); SQLite's own rollback of a whole
-- transaction on some errors; Unicode case folding beyond ASCII in strings.EqualFold (a table's
-- prefix is ASCII); the cancellation of contexts, logs and metrics. A RunSQL event's table id is taken
-- as set. In executeBlock, a closed executor whose token is free refuses a new scope, which is one of
-- the two choices that Go's select has. Of the event feed, notifyNewBlocks
-- is the list of heads, and of fetchExtraBlockInfo the goroutines of a round run one after another in
-- the order in which they finish; of the nonce tracker, what other goroutines do between two steps of
-- checkPendingTxns is left out. The library that limits rates, the middlewares CORS, TraceID and
-- BasicAuth, the scheduler of backups, the migrations and the clients are not modelled, nor is the
-- restoring of a backup (pkg/backup/restorer and Decompress of compressor.go), which rests on pipes
-- between goroutines and on SQLite's journal files. A compression of a backup that fails leaves no
-- file here.
pub mod Prelude
pub mod Errors
pub mod Acl
pub mod Database
pub mod Parsing
pub mod Executor
pub mod Processor
pub mod Steps
pub mod Feed
pub mod Nonce
pub mod Service
pub mod Formatter
pub mod UserStore
pub mod Names
pub mod System
pub mod Api
pub mod Telemetry
pub mod StateHash
pub mod Backup
pub mod Fixtures
pub mod Tests
