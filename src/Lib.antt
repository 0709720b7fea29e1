-- ===== src/Lib.antt =====
-- The HHaus intake API (the crate in `src/`): a service that takes pre-interests, applications,
-- referrals and uploads, and keeps each in two PostgreSQL databases, its primary and a Supabase
-- mirror. A handler checks the request and its sender, builds a context, writes the primary
-- with an outbox entry in one transaction, writes the mirror under the same identifier, and
-- acknowledges the entry in the primary before it answers 201.
--
-- Parts, files and their code:
--
-- Persistence models `src/persistence.rs`. A database is a record of tables (Persistence/Rows),
-- and a session is a database with the number of calls made on it (Persistence/Session). A
-- command such as `store_pre_interest` is a function from a session to a result and a session.
-- `WriteContext` stands for the connection: by the number of a call it says whether the call
-- succeeds, is refused, or takes effect without an acknowledgement, which columns cannot be
-- decoded, and what the server's clock and the schema's defaults give. A transaction keeps a
-- snapshot that an error, a panic or a refused commit brings back. Persistence/Context has
-- `SubmissionContext`, Persistence/Submit, Persistence/Application and Persistence/Uploads the
-- commands that store, Persistence/Outbox `mark_mirrored` and `record_mirror_failure`. The SQL
-- statements are written out as functions on the tables, with `ON CONFLICT DO NOTHING` as the
-- test for a row under the key.
--
-- Persistence/Submit/Recorded states the contract of an accepted submission as a relation
-- between databases; Persistence/Refinement is about the three commands and that contract;
-- Persistence/Invariant is about histories of commands.
--
-- Auth models `src/auth.rs`, External `src/external.rs`, Hex `src/hex.rs`. What the program
-- asks of other crates and services is the record `Outside` in Http: URL parsing, SHA-256,
-- Shared Auth, Turnstile and Supabase Storage. Api models `src/api.rs`: Api/Failure the errors,
-- Api/Request what a handler reads from headers and body, Api/Submissions and
-- Api/UploadHandlers the handlers, Api/Cors the origins of `cors_layer`, Api/Cors/Exact what an
-- exact origin is, Api/Routes the table of `router`, Api/Health the two probes. A handler is a
-- function from both sessions (`World`) to a result and both sessions; what was written before
-- an error stays written.
--
-- Api/Submissions/Concurrent takes `create_pre_interest` apart into its commands, as a step
-- relation on the phase of the request and both databases, where commands of other requests
-- come in between; Api/Submissions/Concurrent/Sequential connects it with the handler.
-- Api/Submissions/Retry is about a submission that the mirror has missed,
-- Persistence/Outbox/Retries about the failures recorded in a history,
-- Persistence/Uploads/Again about a verification that is repeated,
-- Persistence/Application/Verified about the uploads of an application.
--
-- Settings has what the readers of settings share, and the numbers they parse; an `f64` is its
-- bits. Config models `src/config.rs`, Policy `src/middleware.rs`: Policy is
-- `RequestPolicy::from_lookup`, Policy/Stack is `stack_from_policy`, with the crate
-- `ores-middleware` as the record `Middleware`. Flags models `src/flags.rs`, with the crate
-- flags-2-env as the record `Flags2Env`; a `BTreeMap` is the list of its entries in order
-- (Common/Maps). Flags/Resolve is about the values that `resolve_from` gives, Flags/Redaction
-- about what its errors show, Flags/Process has `var`, `process_control` and the help.
-- Auth/Build is `Authenticator::from_config`. Startup models `src/main.rs` and `src/lib.rs`:
-- `main` is a function from the resolved values to what is printed or served, and everything it
-- asks of other crates and the system is the record `Platform`. The cell that holds the
-- resolved values of the process is that argument.
--
-- A text is the list of its Unicode scalar values, and `len` counts its UTF-8 bytes. A panic of
-- Rust is a result of its own. Loops over chunks and items are structural recursion on the list
-- of what is still to come, so no fuel is needed. `checked_add` keeps its bound of 2 ^ 64,
-- `try_from` its range. A `Uuid` is a number, and the identifier that `Uuid::new_v4` draws is
-- an argument, as is the time that `Utc::now` reads. The contract crate's `validate` functions
-- are parameters.
--
-- Not modelled: the loop of the server and the dispatch of requests to routes, which are
-- axum's; what `ores-middleware` does around the router, with `install` and
-- `run_websocket_message`, which only call it; logging and the shutdown signal. Isolation of
-- concurrent transactions is left to PostgreSQL: a transaction is one step. The handlers of
-- applications, referrals and uploads are modelled one request at a time.
pub mod Common
pub mod Persistence
pub mod Hex
pub mod Http
pub mod Auth
pub mod External
pub mod Api
pub mod Settings
pub mod Policy
pub mod Config
pub mod Flags
pub mod Startup
pub mod Tests
