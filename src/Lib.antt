-- ===== src/Lib.antt =====
-- devcontainer-manager: a model in cubical type theory of the service that finds dev containers,
-- pairs browsers with the t3 server of each, and keeps files in sync with them.
--
-- The program has six parts. `main` (cmd/devcontainer-manager) loads a configuration
-- (internal/config), checks the address to listen on and runs the service (internal/app). The
-- service reconciles from time to time: it lists the containers that Docker knows
-- (internal/dockerx), probes the t3 server of each (internal/t3), has the sync sessions brought
-- in line with the rules (internal/syncx), and keeps the outcome in two fields. Its HTTP handlers
-- read these fields and hand requests below "/env/" to the gateway (internal/t3), which pairs,
-- authorizes and proxies. The types that the parts share are those of internal/model.
--
-- Files:
--   Base           bytes, Boolean tests, results, lists, association lists, JSON values
--   Go             the functions of Go's standard library that the program calls
--   Config         internal/config/config.go: Matching (Matcher), Defaults (Default,
--                  ApplyDefaults), Validation (Validate, Load)
--   Model          internal/model/model.go
--   Dockerx        internal/dockerx/client.go: Exec (Exec, ExecWithStdin, PathKind, lookupHome),
--                  Discovery (discoveryReasons and the labels; Reasons has the proofs), Rules
--                  (MatchRule), User (ResolveUser), Network (the endpoints and
--                  ensureConnectedToNetwork; Addresses has the proofs on containerIP), Record
--                  (recordFromInspect), Listing (ListDevcontainers), Api (Events,
--                  TarEmptyDir)
--   Syncx          internal/syncx: Daemon (the Mutagen daemon, a parameter), Specification
--                  (creationSpecification), Client (mutagen.go, with Link and Effects for its
--                  proofs), Naming (sessionName, desiredSession), Controller (Reconcile, with
--                  Visits, Requests, Effects and Reports for its proofs)
--   T3             internal/t3: Random, Pairing (pairing codes, bootstrap, authorization; its
--                  children hold the proofs), Interleaving (authorizedWithStore in its phases,
--                  beside the other calls; Coverage, Revocation, Sequential and Calls have the
--                  proofs), Store (token_store.go), Titles (the pure helpers), Backend
--                  (backendJSON; Retry and Answers have the proofs), Endpoints (probe and the
--                  tokens), Proxy (proxyHTTP, proxyWebsocket), Relay (copyWS; Delivery has the
--                  proofs), Serve (ServeEnv), Stage (openStageThread; Commands has the proofs),
--                  Spawn (ServeSpawnStage; Effects has the proofs), Reconcile (ReconcileContainer)
--   App            internal/app/service.go: Start (New, the end of Run), Loops (Run with
--                  watchDocker, watchConfig and periodicReconcile; Debounce, Contents and Shutdown
--                  have the proofs), Summaries (applySyncSummaries), Lookup (publicBaseURL, the
--                  lists and lookups), Reconcile (reconcile, the reload of watchConfig; Tokens has
--                  the proofs), Routes (handleEnvironmentAction, the refresh of a token), Proxy
--                  (handleEnvProxy), Mux (the patterns of routes and the choice among them),
--                  Handler (routes; Changes, History, Keys, Origins, Held and Access have the
--                  proofs over all requests)
--   Command        cmd/devcontainer-manager/main.go: the configuration and the listen address,
--                  Program (main to its exit)
--   Tests          a small machine, concrete runs, and the theorems at concrete inputs
--
-- Names are those of the source in snake case. State is passed explicitly: `Gateway` has the two
-- maps under the gateway's mutex and the state of the token store, `Client` the connection of the
-- Mutagen client, `Service` the fields of the service. A call of a dependency is a function of
-- the events so far, so that it may answer differently each time. Readings of the clock and
-- random bytes are arguments. A text is a list of bytes. A map is an association list, whose
-- order is one in which Go may iterate.
--
-- What runs at the same time is a step relation, of which a run is any interleaving: the calls of
-- the gateway between its locks (T3.Interleaving), the loops of the service with the three steps
-- of a reconciliation and the refreshes by handlers (App.Loops), and the two directions of a
-- WebSocket (T3.Relay). Elsewhere a function is one call without interruption.
--
-- Loops recur on the list that they go through, so no fuel is spent, but for the decimal digits
-- in Go.Strings, where a number n has fewer than n + 1 digits.
--
-- Docker, Mutagen, PostgreSQL, archive/tar, YAML, JSON decoding, regular expressions, globs, net/url,
-- DNS, the HTTP client and the WebSocket library are parameters. The multiplexer of net/http is
-- modelled for paths that their URLs do not escape. Not modelled: the probing and syncing of a
-- reconciliation in smaller steps than one, the pauses of two seconds in watchDocker, the server of
-- net/http, logging, contexts and deadlines other than as errors of calls, the parsing of flags, and
-- the static web page.
pub mod Base
pub mod Go
pub mod Config
pub mod Model
pub mod Dockerx
pub mod T3
pub mod App
pub mod Command
pub mod Syncx
pub mod Tests
