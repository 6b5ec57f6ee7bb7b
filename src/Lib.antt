-- ===== src/Lib.antt =====
-- Verification library of ably-server, a realtime messaging server: clients publish messages,
-- presence operations and mutations to channels over REST or a realtime connection; a capability
-- decides whether they may; a storage backend gives each publish a serial, keeps it and hands it to
-- the live channel, whose attachments deliver it.
--
-- Parts and files:
-- - Base: shared names, lists, byte strings, decimal text, association lists and results. A Go
--   string is a list of bytes, each a number; strings compare byte by byte.
-- - Serial (internal/serial/serial.go): the generator of channel serials. `advance` and `mint` are
--   Generator.Mint, with the clock reading as an argument. `message_serial`,
--   `parse_message_serial`, `timestamp` and `timestamp_bounds` are MessageSerial,
--   ParseMessageSerial, Timestamp and TimestampBounds. Order, RoundTrip and Bounds hold their
--   theorems.
-- - Auth.Capability (internal/auth/capability.go): resource patterns and operations. `permits`,
--   `mutation_grant`, `intersect` and `validate_capability` are Permits, MutationGrant, Intersect
--   and ValidateCapability; Paths, PathMeets, Ops, Resources, ResourceMeets and Narrowing build up
--   what an intersection permits, Brackets is about name parts that open a bracket, Requests is
--   about validation, Texts about ParseCapability and String.
-- - Auth.Identity (internal/auth/auth.go): `resolve_client_id` and `message_client_id` are
--   ResolveClientID and MessageClientID; `presence_client_id` is resolvePresenceClientID of
--   internal/realtime/presence.go.
-- - Auth.TokenRequests (internal/auth/auth.go): `key_parts` is ParseAPIKey, `match_key` the search
--   of ValidateKey, `token_request_text`, `validate_token_request` and `record_nonce` are the text
--   that is signed, ValidateTokenRequest and recordNonce; Replays is about the set of nonces.
--   Lifetimes: `validate_ttl` and `token_lifetime` are ValidateTTL and the lifetime in MintToken.
-- - Auth.Tokens (internal/auth/auth.go): `authenticate`, `verify_token`, `mint_token`,
--   `extract_token` and `extract_key` are Authenticate, VerifyToken, MintToken, ExtractToken and
--   ExtractKey. Laws says what the JWT library promises, Accepted is about credentials that are
--   accepted, Issued about tokens that are minted and then verified.
-- - Protocol (internal/protocol/message.go, action.go, presence.go): messages, presence messages
--   and channel messages.
-- - Protocol.Summaries (internal/protocol/annotation.go, summary.go): annotations and their fold
--   into a message's summary: `apply` and the `fold_...` functions are Summary.Apply and
--   foldDistinct, foldUnique, foldMultiple, foldFlag and foldTotal, with ints that wrap. Clients
--   and Folds hold who stands under which value. Protocol.Validation: `validate` is
--   Annotation.Validate.
-- - Storage (internal/storage/storage.go): the rules that every backend shares:
--   `stamp_message_ids`, `stamp_create_version`, `merge_version` and `collapse_append_versions` are
--   the functions of those names. MessageIds and Versions hold their theorems. Storage.Pages:
--   `paginate_versions` is PaginateVersions, and Reading is about a client that follows the pages.
-- - Memory (internal/storage/memory/memory.go): one channel of the in-process backend. `store`,
--   `mutate`, `store_presence`, `store_annotation`, `latest_version` and `read_versions` are Store,
--   Mutate, StorePresence, StoreAnnotation, LatestVersion and Versions, each from a state to a
--   reply and a state, under the mutex and so one step. Invariant and Steps hold the invariant of
--   every sequence of steps; Logging is about the log write that each publish makes, Behaviour,
--   Presence and Annotations hold what the operations do.
-- - Memory.History: `history`, `raw_history` and `collapsed_history` are History, its walk over
--   the log and collapsedHistory; Walk is about the pages that a walk makes, Bounds about the rows
--   that the binary searches single out, Reading about both together. Memory.Queries:
--   `read_annotations`, `paginate_annotations` and `read_members` are Annotations,
--   PaginateAnnotations and Members.
-- - Bolt (internal/storage/bbolt/bbolt.go): one channel of the on-disk backend. A record `Engine`
--   stands for a bucket's Get and Put and for the msgpack codecs, and `IsEngine` for what they
--   promise: a Get after a Put, and a decoding of what was encoded. `bolt_store`, `bolt_mutate`,
--   `bolt_store_presence`, `bolt_store_annotation` and `bolt_latest_version` are Store, Mutate,
--   StorePresence, StoreAnnotation and LatestVersion; a transaction is a chain of results, of which
--   an error keeps nothing. Views says which maps the buckets hold, Writes what each write does to
--   them, Refinement compares the operations with those of Memory, Isolation is about the keys of
--   different channels.
-- - Core.Name (internal/core/name.go): `valid_channel_name` is ValidChannelName, on bytes;
--   Breaks says which names these are.
-- - Core.Manager (internal/core/manager.go): GetChannel in the parts between which other calls
--   run: `enter` is its first section, `leave` and `roll_back` are what follows the storage's
--   Channel.
-- - Core.Channel (internal/core/channel.go): the live list of a channel and its streams, over a
--   heap of entries: `initialize`, `append`, `attach` and `next` are Initialize, Append, Attach and
--   Stream.Next. Heap reads the list off the heap, Delivery holds what a stream delivers.
-- - Rest.HistoryQueries (internal/rest/server.go): `parse_history_query` is parseHistoryQuery.
-- - Realtime.Mutations (internal/realtime/mutation.go): `authorize_mutation` is authorizeMutation,
--   who may change a message, over the channel of Memory and the capabilities of Auth.
-- - Realtime.Appends (internal/realtime/attachment.go): `resolve_appends` is resolveAppends, which
--   appends go out as deltas.
-- - Realtime.Modes (internal/realtime/attachment.go): the modes of an attachment, from what is
--   asked for and what the capability permits: `resolve_requested_modes`, `permitted_modes`,
--   `new_attachment`, `apply_reattach`, `recheck_capability` and `echo_params` are the functions of
--   those names. Flags are sets of bits.
-- - Realtime.Replay (internal/realtime/attachment.go, rewind.go): `compute_replay` with
--   `compute_resume_replay` and `compute_rewind_replay` is computeReplay over the raw history of
--   Memory, `parse_rewind` is ParseRewind. Pages, Gaps and Parts take the history apart, Resuming
--   holds what a resume replays.
-- - Realtime.Stamping and Realtime.Connection (internal/realtime/connection.go, presence.go,
--   reauth.go): what the read loop does with each frame: `dispatch` is dispatch, `handle_attach`,
--   `handle_detach`, `message_task`, `handle_presence` and `handle_auth` are the handlers, over
--   the attachments, the entered members and the gate on message serials; what is sent and handed
--   to the publish worker is kept as a list. Invariant and Frames hold the invariant of every
--   sequence of frames, Publishing what the worker is handed for a frame, Speaking for whom it
--   publishes over any sequence.
--
-- Numbers: int64 timestamps and int counters are natural numbers where the source keeps them so,
-- and integers where they can be negative; `end+1` in TimestampBounds wraps as in Go. No loop of
-- the program needs fuel: each is structural recursion on the list or the text that it walks. The
-- client of Storage.Pages.Reading has a number of requests as its fuel.
--
-- Instants and lifetimes in Auth are nanoseconds; the product in ValidateTTL wraps.
--
-- Parameters: the clock reading, the random id of a publish without ids, whether the context has
-- ended, whether the storage opens a channel and the channel a stream, which case a `select` takes
-- when both are ready, the series id of a generator, bbolt with the msgpack library, the JWT
-- library, base64, HMAC, the JSON library, strings.ToLower with strings.TrimSpace,
-- and strconv.ParseFloat with the arithmetic on its result.
--
-- Not modelled: the scans of the on-disk backend; the Postgres backend, which is SQL; the delivery
-- loop of an attachment, SYNC and ANNOTATION frames, the write loop and the timers of a connection,
-- and its admission; the rest of the REST handlers; JSON and msgpack; configuration, logging,
-- metrics and the commands, which are set-up and I/O.
pub mod Base
pub mod Bolt
pub mod Serial
pub mod Auth
pub mod Protocol
pub mod Storage
pub mod Memory
pub mod Core
pub mod Realtime
pub mod Rest
