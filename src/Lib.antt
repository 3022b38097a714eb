-- ===== src/Lib.antt =====
-- Embyr: a Firestore emulator. Clients speak gRPC (or gRPC-Web, REST and WebChannel, which are
-- turned into gRPC); the handlers of internal/server decode requests with internal/codec and read
-- and write documents through the storage interface of internal/store, which internal/store/sqlite
-- implements on SQLite and internal/store/postgres on PostgreSQL. Every write announces a change to
-- the subscribers of the store.
--
-- Files, with the code that they model:
--   Base      names of the libraries, tests on numbers, lists, 64-bit integers (Base/Int),
--             results with gRPC codes and computations that carry a state on (Base/Result)
--   Text      the functions of Go's strings package that the program calls
--   Store     the data that handlers and backends exchange (internal/store: doc.go, query.go,
--             change.go), with aggregations in Store/Aggregation; Store/Path is ParsePath and
--             codec.BuildPath, Store/Page the page tokens of page.go, on base64 and decimal
--             numbers from Store/Token
--   Proto     the messages of gen/go that the code reads, and field maps (Proto/Dict)
--   Codec     internal/codec: ProtoToStore and StoreToProto (Documents), operands of filters
--             (Values), StructuredQuery to store.Query (Query), aggregation requests
--             (Aggregation), MatchesFilter (Match)
--   Sqlite    internal/store/sqlite/sqlite.go: the documents table and its statements (Table),
--             the adapter with its subscribers and the document calls (Adapter), transactions
--             (Transaction), lists and queries in pages (Paging), aggregates (Aggregation).
--             Sqlite/Spec says what the document calls promise of a map from paths to documents,
--             Sqlite/Refine that they keep it.
--   Postgres  internal/store/postgres/postgres.go: the document calls (Adapter), which keep the
--             same promise on documents as the columns keep them, the transactions
--             (Transaction), lists and queries (Paging), aggregates (Aggregation), and the
--             connection of a subscriber (Subscribe)
--   Server    internal/server: update masks and field paths (Mask), field transforms
--             (Transforms), applyWriteBatch (Writes), Commit and BatchWrite (Commit), RunQuery
--             and its loop (RunQuery), RunAggregationQuery (Aggregation), the document calls
--             (Documents), BatchGetDocuments, BeginTransaction and Rollback (Reads), and the
--             Write stream (WriteStream)
--   Server/Listen  internal/server/listen.go: the snapshot of a target (Snapshot), what a change
--             sends to the targets (Changes), the turns of the loop (Stream), and what a client
--             makes of the messages (View). Live puts the calls of the store and the turns in
--             any order.
--   Listen    internal/listen/registry.go: the fan-out of changes with its overflow flag
--             (Registry)
--   Webchannel  internal/webchannel: message logs, retries and gRPC-Web frames (Session),
--             forward posts, pumps and back channels (Channel)
--   Auth      internal/auth/interceptor.go: the modes, and what each one admits
--   Config    internal/config/config.go: the settings and their validation
--   Tests     inputs, and the theorems applied to them
--
-- A function keeps the name of the Go function, in this language's spelling. The state of the
-- database and of its subscribers is the record Adapter, which every call takes and returns. Errors
-- are gRPC codes, without their messages. A time is a number of nanoseconds since Go's zero time,
-- so that IsZero is a test for 0, and the time of a call is an argument. Doubles are bit patterns;
-- float64 arithmetic and the protobuf runtime (protojson, proto.Equal) are parameters
-- (Proto.Float64, Proto.Protobuf), and so are Google's tokeninfo endpoint, SQLite's json_set, the
-- payloads that PostgreSQL's pg_notify accepts, the casts of PostgreSQL,
-- the choice and order of the rows by a query's SELECT, and the value of an aggregate column
-- (Sqlite/Aggregation).
--
-- Fuel: the loop of RunQuery, which asks for pages until there is no next one, runs on a number of
-- rounds. One round more than the query has documents is enough where it ends at all. The loop of a
-- snapshot (Server/Listen/Snapshot) runs on such a number too. All else is by recursion on lists.
-- int64 arithmetic on fields wraps around at 2^64; page offsets are read as int64; versions of
-- documents are numbers without bound.
--
-- Not modelled: the text of SQL statements, and failures of the database driver other than a lost
-- connection of Subscribe; interleavings of the steps within one call; HTTP headers; contexts
-- that end, but for forward posts and the stream of BatchGetDocuments; the gateway, the loading of the configuration, health checks and
-- start-up.
pub mod Auth
pub mod Config
pub mod Base
pub mod Text
pub mod Store
pub mod Proto
pub mod Sqlite
pub mod Postgres
pub mod Codec
pub mod Server
pub mod Listen
pub mod Webchannel
pub mod Tests
