-- ===== src/Lib.antt =====
-- anthroxy: a router between Claude Code and model backends. A client speaks the Messages API; a
-- backend speaks it too, or the Chat Completions API, which the router translates to and from. This
-- library models the request path, from a client's JSON to the body, the headers and the credential
-- that a backend is sent, and the answer path, from the bytes of a backend's body to the events that
-- the client reads.
--
-- The parts, and where they stand:
--   Sse        src/sse/parser.rs, the parser of server-sent events: `feed`, `finish`, `frame_end`.
--              Sse/Machine is a machine that reads one byte at a time, what the parser is held against;
--              Sse/Lines, Sse/Feeding, Sse/Chunks and Sse/Bounds carry the proofs.
--   Ir         src/ir/event.rs and src/ir/failure.rs (Ir/Failures), what both formats are decoded to;
--              src/ir/message.rs (Ir/Messages), a stream folded to one message; src/ir/request.rs
--              (Ir/Requests), a chat request.
--   Json       the crate serde_json as a record of operations, an argument of all that reads JSON, and
--              what proofs rely on as `IsLawful`. Json/Sample is an instance for runs; Json/Tree is one
--              with the laws.
--   BodyFields src/body_field.rs, the fields that a configuration sets in a body.
--   Http       the crate http's multimap of headers, a record of operations with its laws, an argument
--              of all that reads headers. Http/Sample is an instance for runs.
--   OpenAi     src/openai/common.rs, with Usages; Errors is src/openai/error.rs, Response is
--              src/openai/response.rs, Chunk is src/openai/chunk.rs: a decoder that follows tool calls
--              (Chunk/Calls) over the payloads of a stream; Requests is src/openai/request.rs, the messages
--              that a request is sent as, with Requests/Body, the whole document;
--              Requests/Reading and Requests/Tools are what a backend reads off it.
--   Anthropic  src/anthropic/error.rs (Errors) and src/anthropic/stream.rs (Stream), the encoder of
--              events. Stream/Grammar is the order of events a client reads, as an automaton that
--              knows nothing of the encoder; Stream/Reading is a client that folds them to a message;
--              Stream/Wire is the bytes of an event, read back by the parser of Sse.
--              Messages is src/anthropic/message.rs, the document of a whole message.
--              Decode is src/anthropic/decode.rs, a client's request decoded: Fields, Parts, References,
--              Blocks and Tools are its functions; Allowed, Calls, Documents, Functions and Depth
--              carry the proofs. Usage is src/anthropic/usage.rs, the scanner of token counts in
--              an answer that is passed on.
--   Translate  src/translate/stream.rs, the body that parses, decodes and encodes as it is polled, and
--              `document_events` of src/translate/response.rs; Responses has its `response`;
--              Requests is src/translate/request.rs, from a Messages request to a chat completion.
--   Upstream   src/upstream: Retry (retry.rs), Send (the loop of `send` in client.rs), Timed
--              (timeout.rs), Bodies (`body_bytes` of client.rs and `read_all` of
--              src/server/buffered.rs), Headers (headers.rs and the fields of backend.rs it reads): what a
--              backend is sent, what the client gets, and the report of what was dropped.
--   Server     src/server/ping.rs, the keep-alive events on a quiet stream.
--   Config     src/config/drop_headers.rs (DropHeaders), the patterns of headers that a backend never
--              sees; src/config/template.rs (Templates), values with headers of the client.
--   Credential src/credential/mod.rs, and Command (command.rs with `valid_for` of exec.rs): the cache of
--              the credential that a command prints.
--   Routing    src/routing/registry.rs, the table of routes that model names lead to; Live is
--              src/routing/live.rs, the cached model list of a backend.
--   Activity   src/activity/names.rs, the tally of names that no route has; Exchanges is
--              src/activity/mod.rs and src/activity/exchange.rs, the requests in flight, the recent ones,
--              and a body that is tracked to its end.
--   Prelude    text as bytes, lists, results, maps, and what the program uses of the standard library.
--
-- They meet as in the program: a body of Upstream.Timed is fed to Sse, each frame to OpenAi.Chunk, its
-- events to Anthropic.Stream, all in Translate; what the client gets goes through Server.Ping, and
-- Activity.Exchanges reads it with the scanner of Anthropic.Usage. A request goes through
-- Anthropic.Decode and OpenAi.Requests in Translate.Requests, with the fields of BodyFields set last.
--
-- Text is a list of bytes; UTF-8 validity and its lossy reading are written out (Prelude/Utf8). A method
-- that changes its receiver returns the receiver after it beside its result. What a method appends to
-- an output string is a list of the events written, each with the fields of its JSON; the text of the
-- JSON is not modelled. `u32` and `u64` arithmetic is written with its wrap or its saturation; `usize`
-- counts bytes in memory and is a plain number. An `Instant` and a `Duration` are numbers.
--
-- Arguments stand for what is not of this repository: the JSON crate, the identifiers that uuid draws,
-- what reqwest and a credential source answer at each attempt, what the inner stream of a body answers
-- at each poll, what a pull of a model list gives, the http crate's multimap of headers and its
-- readers of names and values.
--
-- Loops on fuel: `frame_end` has one more than the bytes of the buffer, each round moves past a byte;
-- `feed` likewise, each frame takes a byte; `send` has the retries and two more, each pass spends a
-- retry or the one credential refresh; `answer`, in Translate/Streams, polls once more than there are
-- items; `Template::parse` has one more than the bytes of the text; the decoder of a block has one more
-- than the depth of the JSON, each tool result in it is deeper. Each is proved to be enough where a
-- result is claimed.
--
-- Not modelled: the summary of a request that is passed on as it is, the JSON of model catalogs, the
-- rewording of a backend's error documents, the reading of a command's output, the validation of the
-- configuration, the handlers, statistics, the console, logging, the command line and the service
-- manager. They read and print text, or wire the parts above to axum, tokio and the file system.
mod Prelude
pub mod Sse
pub mod Ir
pub mod Json
pub mod BodyFields
pub mod Http
pub mod Anthropic
pub mod OpenAi
pub mod Translate
pub mod Upstream
pub mod Server
pub mod Config
pub mod Credential
pub mod Routing
pub mod Activity
