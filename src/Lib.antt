-- ===== src/Lib.antt =====
-- anony-mail: a receiver of disposable mail. The SMTP front end (src/smtp/) takes messages for
-- mailboxes and for catch-all addresses, parses them (src/mime.rs), stores a copy for each recipient
-- through the `Store` trait (src/store/mod.rs) and publishes an event for each (src/events.rs), with
-- a one-time code where it finds one (src/otp.rs). The HTTP front end (src/api/) creates mailboxes,
-- lists messages and streams events within limits; background tasks purge what has expired and
-- check custom domains again (src/custom_domains.rs).
--
-- Base and its children have the shared helpers: Boolean tests and lists over the native numbers
-- (Base/Tests, Base/Lists), maps (Base/Assoc), texts (Base/Text), `i32` and the integers (Base/Int),
-- a stable sort (Base/Sort), exclusive or (Base/Bits), chains of results (Base/Results) and the
-- statements of SQL (Base/Table).
-- Model has the records of src/model.rs, Model/Kinds their enumerations. A time is a count of
-- nanoseconds from before every time of a run, an identifier its number, a text the list of its code
-- points, a byte string a list of numbers below 256.
-- Config has the settings of src/config.rs and `Config`'s questions, Config/Defaults its defaults,
-- Config/Env and its child Load `from_env`, one step for each block of the code.
-- Store is the trait of src/store/mod.rs, a record of operations over a state of the
-- implementation's own. Store/Memory is src/store/memory.rs: `Inner` is the locked state, each
-- operation one function on it, since the mutex is held from its first read to its last write. Its
-- children have the mailboxes, the quotas, the messages, the push subscriptions, the domain claims
-- and the attested devices; Backend makes them a `Store`, with the clock and the random source as
-- sequences of readings. The other children have the proofs. Store/Steps has the calls of any store
-- and the states that they lead to.
-- Store/Sqlite is src/store/sqlite.rs with the schema of migrations/sqlite: a table is the list of its
-- rows in the order of insertion, a statement one function on it (Base/Table), a transaction a chain of
-- results whose tables are taken over where it succeeds; the constraints and the cascades of the
-- schema are checked and followed as the engine does. Its children have the queries (Mailboxes,
-- Messages, Inbox, Subscriptions, Claims, Devices), Backend makes them a `Store`, and the others
-- have the proofs. A time column holds its time, whose texts are in the order of the times, and a
-- statement runs alone, as SQLite has one writer. An identifier that a call comes not to draw is
-- passed over. Agreement sets the two stores side by side.
-- Smtp/Utf8, Smtp/Commands, Smtp/Wire and Smtp/Data are the way from the bytes of a connection to
-- commands and message bodies (src/smtp/commands.rs, `read_line` and `read_data` of
-- src/smtp/session.rs). A `Reader` has what is buffered and the reads to come, each with its bytes or
-- a failure, so that every division of the stream is covered; a timeout is a failed read. The reads
-- are finitely many: a client that never stops sending is not covered.
-- Smtp/Recipient is `validate_recipient` and `try_catch_all` over any `Store`. Smtp/Session has the
-- state of a connection, its children one function per command (Handlers), the copies of a message
-- (Delivery), the replies (Replies) and the loop (Run).
-- Smtp/Limiter is the rate limiter of src/smtp/mod.rs, Limits the counters of src/api/limits.rs,
-- CustomDomains the rules of src/custom_domains.rs, Mime, Otp and Events the files of those names.
-- Attest is the store of challenges of src/attest.rs, Attest/Verify its checks of attestations and
-- assertions, the other children the proofs; Entitlements is src/entitlements.rs.
-- Push is the worker of src/push.rs, Push/Senders its two senders, Cleanup is src/cleanup.rs.
-- Api has the errors of src/api/mod.rs, Api/Auth the tokens of src/api/auth.rs. Api/Handler has
-- `AppState` and the monad of a handler, a function from the state to an answer or an error and the
-- state behind it; its children say of a handler that it leaves the store alone (Keeps), that it
-- fails and leaves it alone (Stops), what holds of its answer (Ensures), and what it does from a
-- known state (Runs). Api/Gate is src/api/entitlements.rs, Api/Addresses, Api/Messages, Api/Domains
-- (src/api/custom_domains.rs),
-- Api/Push, Api/Client and Api/Sse are the handlers of the files of those names, each over any
-- `Store`, Api/Pages has what the server tells of itself, and Api/Routes is the table of routes of
-- src/api/mod.rs; their children have the proofs.
-- The effects of a handler stand in the order of the code, one request after another: the store's
-- calls are atomic, and so is what the code does under one mutex.
-- Tests has the inputs on which the theorems are applied.
--
-- Fuel: `read_data` is given one more than the reads and bytes that are to come, and `run` the same
-- with those behind a handshake added; each call of `read_line` uses up one at least, unless it is at
-- the end of the stream.
--
-- `create_random` makes the five attempts of the code.
--
-- The claims that are due for a check come in an order that the code leaves open, that of a hash map
-- or of a query without ORDER BY: it is a parameter of each store, `arrange`.
--
-- Not modelled: a stream without an end, on which nothing ends a session or a body, since the code
-- has a timeout for one line only; src/store/postgres.rs, whose queries are those of the SQLite
-- store with identifiers and times that the server makes; the connection of the SQLite store, its
-- migrations and its vacuum; an overflow of a sum of sizes in SQL; the pages of health, documents
-- and legal texts; the layers of the router, which are third-party code; sockets, tasks, logging
-- and start-up. Given as parameters are the mail parser, the texts of identifiers (the crate uuid),
-- SHA-256, the compiled patterns, the crates for client tokens, certificates, base64, CBOR, Web
-- Push and APNs, the variables and files that the process finds, the request to RevenueCat, the
-- free space of a volume, the outcome of a TLS handshake, a resolver's answers, the parsers of
-- addresses, the clock and the random source. A line that is written is taken to arrive. A host of
-- the limiters is the number of its address. A server without domains, on which `domains[0]`
-- panics, answers with an internal error.
pub mod Base
pub mod Agreement
pub mod Model
pub mod Store
pub mod Config
pub mod Mime
pub mod Otp
pub mod Push
pub mod Cleanup
pub mod Events
pub mod Smtp
pub mod Limits
pub mod CustomDomains
pub mod Api
pub mod Attest
pub mod Entitlements
pub mod Tests
