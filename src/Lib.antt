-- ===== src/Lib.antt =====
-- A model of AuthKit, the Rust crate that binds OAuth callbacks to sessions, and proofs about it.
--
-- The crate has a port for bindings of OAuth `state` tokens to sessions with an in-memory store, a
-- middleware that lets a callback through only if its token is bound to the session of its cookie,
-- and three further modules: one-time passwords, WebAuthn and OpenID Connect discovery. A fuzz
-- target drives the middleware over the in-memory store.
--
-- Base: what the parts share. Text is its UTF-8 bytes (Base.Text), a hash map an association list
-- (Base.Map), a `Result` or a call that may panic a value of Base.Outcome, a word its big-endian
-- bytes (Base.Words), and the `str` methods in use are functions on bytes (Base.Str, Base.Find,
-- and Base.Utf8 for what is UTF-8 and where its characters begin). Base.Panic has the steps that
-- panic: an index out of range, a division by 0, and `u32` arithmetic, which panics in a debug
-- build and wraps in a release build. Base.Json has JSON values and what the derives of serde make
-- of a struct's fields, with an interface for types that derive both (Serde).
--
-- SessionStore: src/domain/session_store.rs. The trait is a record over the type of the store's
-- state. SessionStore.Memory is `InMemorySessionStore`; its functions bear the names of the
-- methods (`default_store` is `default`), take each reading of the clock as an argument, in
-- nanoseconds, and give the result and the store after the call. A panic under the lock sets the
-- flag `is_poisoned`. Invariant is the well-formedness of a store, View reads one call, History
-- any sequence of calls from a new store, and Poison the failures. Spec is what the port promises,
-- as a relation between calls, replies and a function from tokens to bindings, and Agreement and
-- Refinement compare the store with it; Live lists the tokens that an eviction leaves. The
-- addition of chrono, which fails out of its range, and the comparison of the crate subtle are
-- parameters (Crates).
--
-- Middleware: src/middleware/pkce_state_session.rs, with the names of its functions. The port is
-- the record of SessionStore, the handler behind the gate a function of the request, and an audit
-- record is the outcome and reason that the code logs. Percent-decoding and the reading of a
-- header as text are parameters (HttpCrates). Params is about the two parsers, Reached and Gate
-- about every outcome for any store, Callback puts gate and in-memory store together, Acceptance
-- is about the acceptance criteria of FR-AUTHV-018, and Again about repeated callbacks.
-- Integration has the tests of tests/integration_test.rs.
--
-- Totp: src/totp.rs, with the names of its functions. HMAC is a parameter (Hmac) that gives bytes
-- of the algorithm's length, and Base32 and upper case another (Secret.SecretCrates). The loop
-- over the window is a recursion on its 2 * window + 1 rounds, which is every round that it has;
-- decimal printing is on fuel of 20 digits, which a `u64` never exceeds. Enrolled has a device
-- that reads the URI, and is about an enrollment from the secret to an accepted code.
--
-- WebAuthn: src/webauthn.rs, with the names of its functions. Checks are the checks without state,
-- Registry the reads and writes of the credential map under its lock, Verifier the operations, and
-- Replay any sequence of them. Race splits the end of a registration at its two locks, and lets
-- threads take them in any order. Tasks splits every operation at its locks: a call is a sequence
-- of sections, each under one lock, and any number of tasks run their sections in any order
-- (Tasks.Reach); Tasks.Counting is about the section that writes a sign count, Tasks.Stamp and
-- Tasks.Once are about sign counts, Tasks.Single about ids, Tasks.Ends about how many sections a
-- call has, Tasks.Success about one that succeeds among others, and Tasks.Soundness about what an
-- accepted one has passed. Reuse is about a challenge that is used twice, Ceremony about a
-- registration and a later authentication, Checks.Keys about the keys of challenges. Wire reads
-- and writes the client data as JSON values, and Wire.Accepted is about the objects that the
-- checks accept. The hash, Base64 and JSON are parameters (WebAuthnCrates). The module calls a
-- session store with more arguments than the trait has, so that store is a parameter of its own
-- (ChallengeStore), about which Ceremony and Tasks.Success assume that it answers, and the rest
-- nothing.
--
-- Oidc: src/oidc.rs with the feature on, with the names of its functions. URLs, requests and
-- bodies are parameters (OidcCrates), with the network as a state that they change. Tasks splits
-- `jwks` at its locks, for calls by several tasks, which Sources is about. Wire reads and writes
-- the documents as JSON values; Wire.Readable, Wire.Members and Wire.Keys are about the objects
-- that it reads, and Wire.Discovered about `discover` over such bodies. Oidc.Disabled is the build
-- with the feature off.
--
-- Fuzz: fuzz/fuzz_target.rs, with its body as one function that may panic; what it uses of the
-- crates http and tokio is a parameter (FuzzCrates). Fuzz.Header is about the cookie it makes,
-- Fuzz.Panics about the inputs on which it panics.
--
-- The modules named Suite are the modules `tests` of the files, a function into Bool or a `Run` of
-- it for each test; their runs stand in Tests or Tests.Runs. Totp.Suite.Verdicts is about the
-- tests that need a MAC.
--
-- Not modelled: the re-exports of src/lib.rs and the `mod.rs` files; `Debug` and `Error`
-- implementations, and `Display` but for three; `From<TotpError>`, which names an error that does
-- not exist; the reading of a text as a JSON value; the test of src/totp.rs that gives `-1` for a
-- `u64`; the derives of `WebAuthnCredential`, whose values the crate writes nowhere; the
-- benchmark, which only calls the crate; waiting for a lock, as a section runs when its lock is
-- free.
pub mod Base
pub mod SessionStore
pub mod Middleware
pub mod Totp
pub mod WebAuthn
pub mod Oidc
pub mod Fuzz
