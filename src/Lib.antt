-- ===== src/Lib.antt =====
-- Hikyaku (llm-proxy) is an HTTP gateway in front of language model backends. A request names a
-- virtual model; the router finds its route, merges its sampling parameters and gives a backend or a
-- group of backends; defenders may refuse a request or inject a message; for a group the balancer
-- picks a backend by the session's pin, by health and by load; probes and the outcomes of requests
-- keep the health of the backends. This library models those parts and proves what they promise.
--
-- The parts, and where they are:
--   Base        The shared helpers: Boolean tests, results, lists, maps with text keys, Go's int as an
--               integer, times and durations in nanoseconds, float64 as an interface of operations
--               with three laws of comparison, and texts as UTF-8 bytes.
--   Json        A decoded JSON value (interface{}): objects, lists, and the type assertions.
--   Config      internal/config: the schema (Types), the lookups and the listen policy (Lookup),
--               validate (Validate), the settings that cascade from defaults to the global block and
--               to a group or route (Cascade), and Load (Load): environment variables, maps made lists,
--               port ranges and defaults.
--   Router      internal/router: Resolve, mergeParams and IsMultimodal.
--   Balancer    internal/balancer: the affinity store (Store, store.go), the statistics of requests
--               (Flow, flow_stats.go), the state of a backend (State, state.go), the load score and
--               the pick (Select, select.go), FNV-1a (Hash) and the session key (Affinity,
--               affinity_key.go), the metrics of vLLM and SGLang (Parser, parser.go), the four
--               strategies (Selectors, simple_selectors.go and sticky_selector.go), and the groups
--               (Group, balancer.go): the pool of a request, the accounting of requests, failover and
--               probes; New, the monitors that it launches and their ticks (Monitor, balancer.go), and
--               the requests of their probes (Probes, alive_checker.go and health.go).
--   Proxy       internal/proxy: the loop detector and the check for content (Defender, defender.go); the
--               reader of a streamed response, its events, its capture and its idle timeout (Stream,
--               stream.go); the body of a request (Body), header operations and authorization
--               (Headers), the way of a request through the server with what it takes and gives back,
--               and reloads (Pipeline), and the endpoints with the bearer token and the list of models
--               (Endpoints), all of server.go and ollama.go.
--   Capture     internal/capture: the capped buffer that a captured body is written to, and the window
--               of slots (Window).
--   Journal     internal/journal/analyze.go: the entry that a request leaves in the journal.
--   Logger      internal/logger: the level and the calls that print at it.
--   Tests       Runs on concrete inputs, and the theorems applied to them.
--
-- State and time. A struct is a record, a method that changes it is a function from the record and
-- the time that time.Now() returns to the new record; the locks of the source make each method one
-- step, and a history is a list of steps. A Go map is an association list. Results that Go returns
-- with an error are values of Result with a data type of errors.
--
-- Fuel. The eviction loop of Set runs on fuel two above the length of the recency list, and each round
-- takes one key off that list, so the loop stops before the fuel does. Resolve takes the two lookups
-- that the source's depth bound allows. The loop that copies a streamed body runs on fuel, and fuel
-- above the bytes and the results that the body still has is enough. The loop over a text's JSON blocks
-- runs on fuel above its characters, of which each round takes some off.
--
-- Orders. A request that waits for a slot of its backend is a state of its own between admit and
-- wait_slot (Pipeline). A panic of the handler, as for a group without settings or a body that is
-- null, is an outcome. The idle timer of a streamed body fires at the reads that a schedule gives. The
-- loops of the balancer over its groups may take them in another order each time (Group/Loops); the
-- other theorems on a backend of a group let it be in one place of a fixed order.
--
-- Not modelled: HTTP, TLS, files, log lines, the Prometheus and OpenTelemetry libraries, and the
-- scheduling of the background goroutines, whose steps are modelled; what the reverse proxy's transport
-- adds to the director's headers; the capture's files and its check of free disk space; the journal's
-- export. encoding/json, yaml.v3, which also prints and reads again the text after a block is made a
-- list, the environment, net/url, the canonical form of header names, hashing with SHA-256, the printing
-- and parsing of numbers, and strings.ToLower are parameters. int does not overflow but where seconds
-- become a duration, which wraps around at 64 bits. A map of the configuration that gets into a body is
-- a copy in the model; the code shares it.
pub mod Base
pub mod Balancer
pub mod Journal
pub mod Logger
pub mod Json
pub mod Config
pub mod Router
pub mod Proxy
pub mod Capture
pub mod Tests
