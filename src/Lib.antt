-- ===== src/Lib.antt =====
-- The backend of RecallAI, an AI memory vault (Python, app/).
--
-- The program. A FastAPI application and a Celery worker share a Postgres database and a Redis
-- server. Users sign in with rotating refresh tokens, keep memories in a vault, share them in
-- Spaces, and speak to a Telegram bot that is bound to their account. A language model may propose
-- a write; a tap on a button performs it. Redis also holds counters: how often a person may ask,
-- and which updates were seen. This library models the parts that decide who may do what, what
-- a credential is good for, and what becomes of a memory and of its connections.
--
-- Files and code. Each part has a module of its name, with the rows and inputs in Row, the
-- repository's statements in Repository, and the operations beside it. The other children hold
-- proofs, and Examples the theorems at concrete inputs.
--   Base: what the parts share. Query and Keyed are the SQL statements over a table held as a list
--     of rows (find_first is SELECT with .first(), update_where UPDATE, save a flush of a row with a
--     primary key), and Outcome is the result of a call that may raise.
--   Session: app/services/session_service.py (start, refresh, revoke, revoke_all, revoke_one),
--     app/repositories/user_session.py and app/models/user_session.py. refresh_row holds the guards
--     of refresh, and rotate its last part.
--   Space: app/services/space_service.py, app/repositories/space.py and app/models/space.py.
--     Service holds the viewer check and curation, Invites the invites and the transaction boundary
--     get_session of app/db/session.py. A request of Space.Reach keeps the database where the
--     operation raises.
--   Telegram: app/services/telegram/linking.py, app/repositories/telegram.py and
--     app/models/telegram.py. consume is redeem behind the guards of consume_found.
--   Proposal: app/services/chat_engine/proposals.py (Store, and from_user_turn in Provenance),
--     app/services/telegram/confirm.py (Confirm, parse in Callback, and in Effects a description of
--     what each action does) and the keyboards of
--     app/services/telegram/formatting.py.
--   Limit: app/core/rate_limit.py (Rate), app/services/telegram/dedupe.py (Dedupe) and
--     app/services/chat_engine/budget.py (Budget).
--   Evidence: app/services/chat_engine/evidence.py (assess, whose last part is judge).
--   Vault: app/services/vault_service.py (Service, and reprocess in Reprocess),
--     app/repositories/vault.py (Repository, its trash in Trash and its searches in Search) and
--     app/models/vault.py.
--   Connection: app/services/connection_service.py (Service, and retype in Typing),
--     app/repositories/connection.py (the writes in Repository, the reads in Reads) and
--     app/models/connection.py. Derive is app/services/connection_derivation.py, with the check of
--     the answers in app/ai/connection_judge.py. A request of Connection.Reach keeps the database
--     where the operation raises, as commit says.
--   Highlight: app/ai/spans.py (keep_verbatim), which Vault uses where a text is edited.
--   Pipeline: app/repositories/extraction_run.py (Runs), app/models/extraction_run.py, and the
--     sweep of stranded items of app/queue/tasks.py with the failed and skipped ends of an item of
--     app/services/processing_service.py (Sweep).
--   Redis: the server's commands, which Proposal and Limit take as a parameter.
--
-- How the code is read. An operation takes the state and gives the new one. An instant is a number
-- of microseconds, or of seconds where Redis is given it, and a UUID the number that it encodes.
-- Clock readings, random ids and random tokens are arguments, one for each time that the code draws
-- one. A theorem that needs a random id to be new says so. An exception is an err, None is none.
-- Rows are unordered in SQL; a list has an order, which no theorem here reads where the code does
-- not ask for one. Numbers are natural numbers and subtraction stops at 0.
--
-- Parameters. SHA-256, JWT encoding, json, uuid, slugify, str methods, and the Redis server with
-- the documented behaviour of the commands that are used. A Redis command that fails is modelled as
-- one that did not reach the server. Proposal takes the services that write as an interface. Vault
-- takes canonical_url of app/core/urls.py, which is a URL parser with a table of rules, what
-- sanitize of app/services/editor_doc.py gives, and what normalise_language of
-- app/services/transcription.py gives; the pattern match of Postgres and the cosine distance of
-- pgvector are parameters too. The approximate index of the semantic search is read as exact. A
-- bucket that is configured is taken to answer; one that does not is as one that is not configured.
-- Connection takes the label that a model gives for two memories, the answers of the judge, the
-- order of sorted, and whether the hourly limit grants the call.
--
-- Termination. Every loop is over a list; there is no fuel. Space.Service.free_slug takes the
-- random suffixes as a list and gives none where all of them are taken, where the code would draw
-- once more. The scheduled sweeps are runs of one operation, and the number of runs is stated where
-- it matters.
--
-- Not modelled. Uploads and download links of the vault, the claim and the completion of an item by
-- the worker, what the judge of connections is sent, the rest of the chat engine, AI providers,
-- extractors, media, OAuth, HTTP routes, configuration and logging; of Spaces the read-only
-- listings. Concurrent transactions are not modelled: the requests of a sequence run one after
-- another.
pub mod Base
pub mod Connection
pub mod Evidence
pub mod Highlight
pub mod Limit
pub mod Pipeline
pub mod Proposal
pub mod Redis
pub mod Session
pub mod Space
pub mod Telegram
pub mod Vault
