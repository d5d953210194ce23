-- ===== src/Lib.antt =====
-- The backend of AI Proxy v2: a proxy for OpenAI-compatible chat completions. A request comes in at
-- the handlers of backend/ai_proxy/api/proxy, is authenticated, checked against the access rules and
-- routed to a provider, waits for the provider's rate limit, is changed by the modification rules and
-- sent by an adapter; the response goes back to the client, and an entry to the log.
--
-- The files and the code that they model, by paths under backend/ai_proxy:
--   Common, Dict, Text, Json: Python's lists, dicts, texts and JSON values, as far as the code uses
--     them, with Text/Glob for `fnmatch`
--   Config: config/settings.py
--   Mappings: core/model_mappings.py
--   Adapter, Upstream: adapters/base.py
--   Loader: config/loader.py, with Loader/Conflicts for the conflicts of mappings, and Loader/Registry
--     for adapters/registry.py and the reload of config/watcher.py
--   Catalog: services/model_catalog.py, with Catalog/Cache for the cache of a provider's models
--   Routing: core/routing.py, a function for each stage; `resolve_model` runs them in order
--   Access: core/access.py; KeyResolution: core/key_resolution.py; Auth: security/auth.py
--   Modification: core/modification.py
--   RateLimiter: core/rate_limiter.py
--   Flow: api/proxy/request_flow.py
--   Forward, Proxy: api/proxy/router.py up to the call of the adapter
--   Handlers: api/proxy/router.py from the adapter's outcome on, and `stream_error_response` of
--     api/proxy/streaming.py
--   Models: the handler `list_models` of api/proxy/router.py
--   ResponseUtils: api/proxy/response_utils.py
--   Merging: the merging of deltas in api/proxy/streaming.py
--   Streaming: the capture of chunks there, and the response that they make
--   Events: the messages of a stream in adapters/openai_compat.py and api/proxy/streaming.py
--   Relay: the relay of a stream and its log entry in api/proxy/streaming.py, and the end of
--     `_handle_streaming` of api/proxy/router.py
--   OpenaiCompat: adapters/openai_compat.py, what it sends
--   Masking: logging/masking.py; LogEntry: logging/models.py
--   LogQueue: the queue and the loop of logging/service.py; LogRows: the rows that a batch writes
--   Conversations: db/repositories/chats.py, with Conversations/Tree and Conversations/Entries for the
--     tree of messages, and Conversations/Groups for what the SQL of a group gives on a row
--   RequestViews: the extraction of fields in api/ui/requests.py
--   Tests: a configuration, requests and responses on which the theorems are applied
-- A file's child modules have its proofs, and are named for what they prove.
--
-- State and exceptions. The state that outlives a request is the limiters, a dict that `Flow` and
-- `Proxy` pass on; the configuration, the registry of adapters and the models that the providers list
-- are arguments (`Flow.Env`), since the code reads them as a whole and does not change them while a
-- request runs. A coroutine of the limiter runs under its lock one round at a time, so what several of
-- them do is a list of events (`RateLimiter.run`) or a step relation (`RateLimiter.Queue.Step`) in any
-- order. A handler's own response is `Flow.respond`, and an exception that the server answers with 500
-- is `Flow.crash`, or `none` in `Handlers`, `Loader` and `Conversations`. The capture of a chunk
-- changes the state of the stream before it raises, so its steps in `Merging` and `Streaming` give the
-- state with a truth value.
-- `_app_config` of the loader and the cache of the models are arguments and parts of the results. How a
-- provider's stream ends is a value of `Relay.Ending`.
--
-- Values. Texts are sequences of Unicode scalars; `lower` changes the case of ASCII letters, and the
-- statements that use it are about that. A float is the bit pattern of its binary64, time is in
-- milliseconds, and an integer is unbounded as in Python. The framework gives the names of a request's
-- headers in lower case. The index of a choice is an integer, as its type in the code says.
--
-- Arguments stand for what is not in this repository: SHA-256 (`hash_api_key`), the json module and
-- the decoding of UTF-8 (`Upstream.Codec`), the arithmetic of floats (`ResponseUtils.FloatOps`), what
-- pydantic makes of an optional integer (`validate_int`, of which the theorems that need it ask that it
-- takes an absent one for none) and of the sections of a configuration (`Loader.Libraries`, with the
-- YAML files that are read), the formatting of times and of JSON texts (`Conversations.Format` and the
-- records of operations in `RequestViews`), the texts of exceptions (`describe`), the environment, the
-- clock, the outcome of a provider's call (`Upstream.Outcome`), the id that the database gives to a new
-- provider (`new_id`), and whether a session commits.
--
-- Exceptions of Python's own. `float` of an integer raises beyond the range of floats: then `from_int` is
-- `none`. `json.loads` raises another exception than the code catches for an integer of too many
-- digits: then it is `not_loaded`. Python bounds the recursion of `walk` in db/repositories/chats.py:
-- `limit` is how many of its calls may stand in one another, and what asks for more is `none`. The other
-- recursions (masking and merging) go as deep as a JSON value is nested, and are taken to stay within
-- Python's bound.
--
-- All functions are structural recursions, two of them on fuel. A loop of the code goes over a list,
-- and the loop of `acquire` is one round in `acquire_round`, whose rounds are the events of `run`. The
-- walk of `Conversations.Tree.to_list` goes from a message to those under it, with `limit` as fuel; the
-- number of the tree's nodes is enough, since a message under another came later. The digits of a
-- number n have n + 1 as fuel, and no number has more digits than that.
--
-- Not modelled: the frontend, the SQL of db with the grouping and counting of `get_conversations`, the
-- parsing of YAML and the loop that watches the files, the HTTP calls and the server, the start
-- and the stop of the logging task, and the endpoints of the UI with the export of conversations.
pub mod Common
pub mod Dict
pub mod Text
pub mod Json
pub mod Config
pub mod Mappings
pub mod Adapter
pub mod Catalog
pub mod Routing
pub mod Access
pub mod KeyResolution
pub mod Auth
pub mod Modification
pub mod RateLimiter
pub mod Flow
pub mod Forward
pub mod Proxy
pub mod OpenaiCompat
pub mod Masking
pub mod Merging
pub mod Events
pub mod Streaming
pub mod ResponseUtils
pub mod Upstream
pub mod LogEntry
pub mod Handlers
pub mod Relay
pub mod Conversations
pub mod Loader
pub mod RequestViews
pub mod Tests
pub mod Models
pub mod LogQueue
pub mod LogRows
