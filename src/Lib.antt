-- ===== src/Lib.antt =====
-- mcpstead is a gateway for the Model Context Protocol: it keeps a connection to each of the MCP
-- servers of its configuration, the upstreams, and offers their tools to its own clients at one
-- endpoint, under the names `server__tool`. This library models the gateway's Rust code and proves
-- properties of it.
--
-- The parts of the program and the modules that model them:
--   src/config.rs      Config (the records and their defaults), Config/Load (files and tokens),
--                      Config/Auth (the reading of `auth`), Config/Validate (`validate_config`),
--                      Config/Equality (derived `PartialEq`)
--   src/state.rs       State/App (`AppState` and its construction), State/Metrics and
--                      State/Histogram (the recorders), State/Sessions (the sessions of clients)
--   src/upstream.rs    Upstream/Registry (entries, manager tasks, reset locks), Upstream/Send (one
--                      exchange), Upstream/Session (initialize and tools/list), Upstream/Request
--                      (the recovery of a lost session), Upstream/Body and Upstream/Sse (the reading
--                      of bodies), Upstream/Classify (which errors mean a lost session),
--                      Upstream/Backoff, Upstream/Manager (one round of `manage_server`)
--   src/reload.rs      Reload (`reload_config` and the diff of the servers), Reload/Http
--   src/downstream.rs  Downstream/Auth, Downstream/Rpc, Downstream/Tools, Downstream/Message,
--                      Downstream/Response and Downstream/Serve (`post_mcp`, `get_mcp`, `delete_mcp`)
--   src/metrics.rs     Exposition/Health (the health page), Exposition/Page (the metrics page and
--                      its sections), Exposition/Family (the lines of one metric, histograms),
--                      Exposition/Labels, Exposition/Numbers and Exposition/Process (/proc)
--   src/main.rs        Gateway/Startup (`main` up to the socket), Gateway/Routes (`build_app`),
--                      Gateway/Tasks (idle sessions, reloads on signals, the shutdown) and
--                      Gateway/Run (all of these as the steps of one state machine)
--
-- A property of the state is carried through the operations once for all: Upstream/Kept and
-- Reload/Kept say which changes a property has to stand, the modules named Kept carry any such
-- property through the handlers and the tasks, and Gateway/Healthy has the property that the
-- gateway's runs are shown to keep.
--
-- Base has what they share, Json the interface of serde_json with a type that meets it, and Tests
-- the theorems at concrete inputs. The endpoint's handlers call Upstream/Request for a tool call,
-- which goes out over a host and changes the registry and the metrics of State; Reload changes the
-- registry and the authentication that the handlers read. Gateway puts them together: the start
-- runs the checks of a reload, and the routes lead to the handlers.
--
-- How state and operations correspond to the code: `AppState` is one record in place of the fields
-- behind their locks, and an operation is a function from a state to a state. A map is an
-- association list in the order of its keys. An operation that reads the clock takes the instant
-- as an argument. What the gateway runs on (the network, the wait for a lock, sleeps, the
-- environment, the wall clock) is the record `Host`; a request, a wait and a sleep may give back
-- any other world, which stands for what other tasks do meanwhile; Gateway/Others lists their
-- changes of the state, each of them under its locks, and lets a wait see any sequence of them.
-- Where a handler only takes a local lock for one operation, no other task is let in between. A
-- reload too is one step, although its lock keeps out other reloads only, and other tasks may run
-- between its changes of the servers; what they may do there is left out.
--
-- Bounds and fuel: counters are `u64`, and add up by wrapping or saturating as the source does; the
-- shift of the backoff stays under 2^21. A length of time is a number of nanoseconds, a delay of
-- the backoff one of milliseconds; the rounding of `f64` is left out. The recursions over nested
-- JSON arrays run on the value's depth and one as fuel, one more than there are levels.
--
-- Not modelled: the parsing of arguments, the delivery of signals, the YAML parser, HTTP and its
-- router, logging, and the parts of crates that are called: JSON, uuids, what no route takes and the
-- constant-time comparison are parameters, the last with its documented law. The npm launcher and
-- the scripts, which download and start the binary, are left out.
mod Base
pub mod Config
pub mod Json
pub mod Reload
pub mod State
pub mod Upstream
pub mod Downstream
pub mod Exposition
pub mod Gateway
mod Tests
