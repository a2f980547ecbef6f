-- ===== src/Lib.antt =====
-- A model of ftl, an HTTP server framework, with its theorems.
--
-- The program is a library of parts that a server puts together. The server (serve/mod.rs) accepts
-- connections, gives each a task, and winds them down when its handle asks for it; an acceptor,
-- serve/accept/limited.rs, bounds the connections of one address. A request goes through layers:
-- the client's address is found (extract/real_ip.rs), and the rate limiter asks for the user's key,
-- chooses a quota and an entry, and admits or refuses (layers/rate_limit). The router (router.rs) finds
-- the service of the method and the path. A service may answer with a file (fs.rs), which reads the
-- conditional headers, the range and the accepted encodings (headers/); a handler gets its arguments from
-- the extractors (extract/) and what it returns becomes a response (response.rs, error.rs), which may
-- stream its body (body/) and is compressed on its way out (layers/compression).
--
-- Which file models which part; all paths are under src/ of the repository:
-- * Gcra (layers/rate_limit/gcra.rs): `Quota`, and the cell of one key, `Gcra::first`, `decide` and
--   `req`. Gcra/Threads has `req` as a machine of atomic steps, an `Event` each, in any interleaving;
--   Gcra/Rate and Gcra/Burst hold what one cell admits over time and at one instant.
-- * Limiter (the same file): `RateLimiter`, the table of cells and its collection, each operation as a
--   function on the limiter, for one caller at a time; `RateLimitError::into_response`. Limiter/Rate has
--   what is admitted of one key over time.
-- * RateLimit (layers/rate_limit/mod.rs): the builder's data, `select` for the choice of quota and
--   entry in `RateLimitLayer::req_peek_key`, the quotas of the extension; RateLimit/Building has the
--   builder's setters and `build`, RateLimit/UserKey `get_user_key`, RateLimit/Service
--   `RateLimitService::call` with `set_extension`, RateLimit/Extension the operations of
--   `extensions::RateLimiter`, RateLimit/Admission the calls that reach the inner service, and
--   RateLimit/Collector the task that `build` spawns for a timed
--   collection, step by step.
-- * RealIp (extract/real_ip.rs): `get_ip_from_headers`, the extractors, the layer, the privacy mask.
-- * QValue and Encoding (headers/accept_encoding.rs): the weights, `ContentEncoding`, `AcceptEncoding`
--   and `FilterEncoding`.
-- * EntityTag (headers/entity_tag.rs): the tags and their lists; Decimal prints the numbers in them.
-- * Fs (fs.rs): `Conditionals::check`, `bytes_range`, `sanitize_path`; Serve: `file`, `dir` and
--   `file_reply`, from the request to the reply's headers, with what panics.
-- * Router (router.rs): the set-up calls, `match_route`, and `call_opt` up to the call.
--   Router/Calls has the router as a service, with `route_layer` and `finish`.
-- * Services (handler.rs, service.rs, tower.rs, handle_error.rs, catch_panic.rs, cloneable.rs and
--   convert_body.rs of layers/): handlers and what they become, and the layers that map answers.
-- * Acceptor (serve/accept/limited.rs): the accept loop and the drop of a stream, as atomic steps.
-- * BodyLimit (body/limited.rs, body/mod.rs, layers/limit_req_body.rs): a limited body, poll after poll, and
--   the layer that limits a request's body.
-- * Normalize (layers/normalize.rs): the method override, and the content length and the body of a reply.
-- * Server (serve/mod.rs): `Handle`, `NotifyOnce`, `Watcher` and `Server::serve` as a machine of atomic
--   steps, an `Event` each: of the serving task, of the connections' tasks, which are counted, and of
--   the handle's callers. Server/Tasks has the loop of one connection's task, Server/Throttle
--   `IncomingThrottle`, and Server/Setup a server before it serves.
-- * Timing (headers/server_timing.rs, layers/resp_timing.rs): the `Server-Timing` header.
-- * Params (params.rs, extract/path.rs): the parameters that routers leave, and their extractor.
-- * Extract (extract/scheme.rs, extract/mod.rs): the scheme and the authority; Extract/Types
--   (extract/one_of.rs): one of several types; Extract/Errors (error.rs, body/mod.rs): the errors.
-- * Replies (response.rs, headers/mod.rs): `IntoResponse` and `IntoResponseParts`.
-- * Ws (ws.rs): the upgrade of a request to a websocket, up to the response, and Ws/Messages.
-- * Compression (layers/compression/mod.rs), with Compression/Predicates (predicate.rs).
-- * Bodies (body/mod.rs, body/wrap.rs): `Body` and its limits inside each other, and what is made a `Body`; Replies/Disposition
--   (body/disposition.rs): the `Content-Disposition` of a response.
-- * Extractors (extract/mod.rs, body.rs, query.rs, timeout.rs, headers/mod.rs): how extractors are put
--   together, with the tuples; Deferred (layers/deferred.rs): the layer that encodes deferred bodies.
-- * Accepts (serve/accept/mod.rs): the acceptors that wrap others; Rewrite (rewrite.rs): redirects.
-- * Tls (serve/tls_rustls.rs) and Tls/Openssl (serve/tls_openssl.rs): loading and reloading of a
--   configuration, and the acceptor with its handshake.
-- * Streams/Json (body/json.rs) and Streams/Cbor (body/cbor.rs): the bodies of streamed arrays and maps,
--   and Streams/Reader (body/async_read.rs): `AsyncReadBody`.
-- * Collected (extract/body.rs, json.rs, cbor.rs and form.rs): the extractors that take the whole body.
-- * Payloads (body/json.rs, cbor.rs, form.rs and deferred.rs): values and streams as responses, and deferred
--   ones behind the layer that encodes them.
-- * Prelude, Strings, Http and Table are shared: names, the operations of `str`, the methods, and the
--   hash maps of other packages as an interface of operations and laws. Tests holds runs of the model.
--
-- Numbers. A `Duration` or an `Instant` is its nanoseconds. Every `u64` sum is taken with the
-- saturation, or the wrap-around of a cast or an atomic addition, that the source has there; the plain
-- sums of `bytes_range` wrap, or panic in a build with overflow checks. The count of connections, a
-- `usize`, is not wrapped. Texts are lists of code points. The decimal digits of a
-- number are made on fuel of 20, which is enough below 2^64, or of 39, below 10^39 (Decimal).
--
-- Parameters. Code of other packages is an argument: the maps of `scc` and `hashbrown` (Table), the
-- `matchit` router (Router.Matchit), `HeaderValue::to_str`, `IpAddr::from_str`, the typed headers of
-- the `headers` crate, percent decoding, the list of media types, and the file cache, which the source
-- leaves to its user, with the dates that a time can be turned into; the http crate's header map and
-- extensions (Replies.Maps), the parsers of schemes and authorities, the serializers and deserializers,
-- `BodyExt::collect`, the compressors, the pattern matcher, rustls with its default protocols, and the
-- allocations of a buffer. tokio's `Notify` is modelled by its documented behaviour: `notify_waiters`
-- reaches the futures that were created before. A panic is `none`.
--
-- Not modelled: the paths of Windows but for the tests of their segments, the TLS protocol, sockets and
-- the frames of WebSockets, the serde formats, the memory of arbitrary bodies, and logging.
pub mod Payloads
pub mod Prelude
pub mod Table
pub mod Http
pub mod Strings
pub mod RealIp
pub mod QValue
pub mod Encoding
pub mod Decimal
pub mod EntityTag
pub mod Fs
pub mod Serve
pub mod Server
pub mod Services
pub mod Acceptor
pub mod Rewrite
pub mod Router
pub mod Gcra
pub mod Limiter
pub mod RateLimit
pub mod Bodies
pub mod BodyLimit
pub mod Timing
pub mod Tls
pub mod Params
pub mod Deferred
pub mod Accepts
pub mod Extractors
pub mod Streams
pub mod Collected
pub mod Compression
pub mod Replies
pub mod Ws
pub mod Extract
pub mod Normalize
pub mod Tests
