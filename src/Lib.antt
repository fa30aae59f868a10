-- ===== src/Lib.antt =====
-- billy: the Alexa skill endpoint and its request verifier.
--
-- billy answers one Alexa skill with one audiobook. A request comes in over HTTP; the package
-- pkg/alexaverify checks that Amazon signed it and that it is fresh; a verified request is dispatched
-- to an answer, which may start, resume or stop the stream of the book.
--
-- Which file models which part:
--   Base            shared: numbers, texts as lists of codes, lists, the integers over the native ℕ
--   Errors          pkg/alexaverify/errors.go: the sentinels, and errors as what they wrap
--   Url             pkg/alexaverify/url.go: `normalizeCertChainURL`, with `path.Clean`, the host and
--                   port of an authority, and the escaping of `URL.String` that it rests on
--   Timestamp       pkg/alexaverify/timestamp.go: `verifyTimestamp`, on int64 durations
--   Verifier        pkg/alexaverify/verify.go: `New`, the options, the clock and the tolerance
--   Cache           pkg/alexaverify/cache.go: `certCache` with `get`, `put` and `remove`; Cache/Fifo
--                   is what it promises, Cache/Refines that it keeps the promise
--   Crypto          what is used of encoding/pem, encoding/base64 and the crypto packages
--   Trim, Chain     pkg/alexaverify/chain.go: `parsePEMChain` and the two checks of a chain
--   Signature       pkg/alexaverify/signature.go: `verifyBodySignature`
--   Fetch           pkg/alexaverify/fetch.go: two attempts, no redirect, 64 KiB
--   Load            pkg/alexaverify/cache.go: `loadCertificateChain`, which fetches on a miss, checks,
--                   and caches, and checks the dates again on a hit
--   Verify          pkg/alexaverify/verify.go: `Verify`, `verifySignature` and `Warm`
--   Alexa           alexa.go: the envelopes and the dispatch; book.go: `normalizeTitle`
--   Capture         capture.go: `Save` and its clean-up, on a disk from paths to contents
--   Config          config.go: `loadConfig`, `validHostname` and `LogValue`
--   Handler         alexa.go: `handleAlexa`, `captureAndRespond` and `logVerificationFailure`
--   History         the one cache under every interleaving of `Verify` and `Warm`
--   Book            book.go: `loadBook`, `openMedia` and what they leave open
--   Web             handlers.go: the routes, `handleMedia`, `writeAlexaResponse`
--   Warm            warm.go: `startCertificateCacheWarm`
--   Server          server.go: `serve` as a step relation, with its goroutine
--   Version         version.go: `buildVersion`
--   Main            main.go: `run` with its exit codes, and `serveFunnel` with its deferred calls
--   Corpusgen       pkg/alexaverify/internal/corpusgen/main.go: the certificates and the signed
--                   fixtures that `generate` writes
--   Toy             concrete stand-ins for the libraries, for the Examples modules
--
-- How the state is modelled. A verifier is a record of its configuration, and the cache, which its
-- method calls share, is passed explicitly: a call takes the cache at its look-up and the cache at its
-- later change, so that other requests can run in between, and returns the cache it leaves. Each call
-- also returns the URLs that it contacted, in order. A cached chain is a pointer, an address with what
-- it points to, because `remove` compares pointers; the iteration order of Go's map is an argument.
-- Errors are values: the list of the errors that one wraps.
--
-- Fuel and bounds. `parse_blocks` runs on fuel, one more than the length of the bundle, which is
-- enough because every block takes at least one byte (the hypothesis `Progresses`, documented of
-- `pem.Decode`). The counter of the cache wraps at 2 ^ 64 as in the source; the ordering of the
-- entries is stated for fewer puts than that. A duration is an int64, with the saturation of
-- `Time.Sub` and the wrap of a negation. `client_do` follows at most ten redirects, as net/http does.
--
-- The server and the start. `serve` and its goroutine are a step relation: the cancellation, the
-- channel, the `select`, and what net/http returns, in every order that its documentation allows. The
-- start is the list of what it does, with each deferred call where it runs. Files that are opened and
-- closed are events, so that what stays open can be counted.
--
-- Not modelled: the tunnel itself (tsnet), net/http beyond the matching of routes and what `Serve`
-- and `Shutdown` are documented to return, what `http.ServeContent` sends, the text of log lines, the passing
-- of time inside one call, and what the generator prints. The functions of Go's standard library
-- that decide what is accepted (`path.Clean`, `strings.EqualFold`, `bytes.TrimSpace`,
-- `strings.FieldsFunc`, the splitting of an authority, the escaping of a path, `Header.Get`, the
-- matching of `http.ServeMux`) are written out as documented; the parsers, the file system and the
-- cryptography are parameters.
pub mod Base
pub mod Errors
pub mod Url
pub mod Timestamp
pub mod Verifier
pub mod Cache
pub mod Crypto
pub mod Trim
pub mod Chain
pub mod Signature
pub mod Fetch
pub mod Load
pub mod Verify
pub mod Toy
pub mod History
pub mod Alexa
pub mod Capture
pub mod Config
pub mod Book
pub mod Web
pub mod Handler
pub mod Warm
pub mod Version
pub mod Corpusgen
pub mod Server
pub mod Main
