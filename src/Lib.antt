-- ===== src/Lib.antt =====
-- xray-knife: a tool that tests proxy links and serves a local proxy over those that work.
--
-- The parts modelled, and how they interact. A link is read by a core (pkg/core), which creates
-- and parses a protocol for it; the automatic core picks xray or sing-box by the link's scheme.
-- Links come from files, from the command line and from subscriptions (pkg/subscription), are
-- deduplicated into a pool (pkg/http/httptester.go) and may be filtered by a TCP check
-- (pkg/http/prescan.go). The examiner (pkg/http/examiner.go) probes a panel of endpoints through
-- a link and grades it. The rotation service (pkg/proxy/service.go) searches the pool for a link
-- that passes, hands the one listening port over to its instance, watches its health and counts
-- strikes against failing links in a blacklist. A chain of hops (pkg/proxy/chain.go) is read from fixed links
-- or from the pool. The web services (web/services.go) start and stop the proxy in the
-- background, and the hub (web/hub.go) sends their messages to the browsers. The address scanner
-- (pkg/scanner/scanner.go) walks through subnets (utils/ip.go), measures the addresses, through a
-- config link or directly, and saves what it finds to a table (database/queries.go) and a file.
--
-- The files:
--   * Prelude: library names, lists over native numbers, Boolean tests, integers.
--   * Text: Go strings as lists of bytes, with what the program uses of the package strings.
--     Dict: Go maps with texts as keys, as association lists.
--   * Core: the interface of a core over its type of protocols (`Core`, pkg/core/factory.go and
--     pkg/core/protocol/interface.go), `automatic_core` (AutomaticCore), `validate_chain_for_core`
--     (pkg/core/chain.go, ValidateChainForCore). A call that returns a value and an error is
--     `Fallible`, the error by its message.
--   * Pool: `deduplicate_links` and `semantic_deduplicate_links` (pkg/http/httptester.go);
--     Ranking has `less`, the order of ConfigResults.
--   * Examiner: Types has the records; Endpoints the panel and its summaries; Probe the loop over
--     the panel, on a record of its variables; Trace the parser of trace bodies; Run
--     `examine_config` (ExamineConfig); Retry `examine_config_with_retries`; Setup
--     `new_examiner` (NewExaminer) and the panels of CheckPresets.
--   * Rotation: Blacklist has recordStrike and the filter of findAndStartWorkingConfig; Candidates
--     the search itself, which lists what it does to the port; Loop has runRotationMode, as a step
--     for each thing that wakes it, run over a list of them.
--   * Chain: resolveFixedChain, selectChainFromPool, selectExitHopFromPool (pkg/proxy/chain.go)
--     and ParseFileByNewline (utils/utils.go).
--   * ChainMode: runChainMode with its four modes and findWorkingChain (pkg/proxy/service.go), as a
--     rotor run over a list of what wakes it, with what happens to its inbound port. Modes has the
--     choice of the mode and the modes that do not rotate; Search is about the search, Serving and
--     Served about the port.
--   * Subscription: `decode` (pkg/subscription/subscription.go, Decode).
--   * Prescan: `run_prescan` (pkg/http/prescan.go, RunPrescan).
--   * Hub: the loop of web/hub.go and the handler of a client in web/server.go, as steps of a hub
--     run over a list of events, whose order is any interleaving. The order in which Go visits the
--     map of clients is that of a list.
--   * Services: ProxyServiceRunner and BaseService of web/services.go, as steps of a runner, one
--     for each section under its lock, run over a list of events.
--   * Addresses: utils/ip.go and the scanner's `inc`. `enumerate` is the loop over a subnet, Value
--     reads an address as a number, Mask and Block say which numbers a subnet has, Walk follows the
--     loop, Sizes has CIDRSize, Mapped is about IPv4 addresses among those of IPv6.
--   * Scanner: results, rows and resuming; Writer the goroutine of Run that saves results, as steps
--     on a store of results; Latency the choice of addresses (runLatencyScan), Speed the choice of
--     results (runSpeedTest), Finish the end of Run; Client the dialer with retries, the client of
--     a config link and setAddress; Probe scanIPForLatency and measureSpeed.
--   * Startup: New of pkg/proxy/service.go, over a machine that answers for the operating system,
--     the database and the inbound; Started says what comes back, Left what is
--     left on the machine.
--   * Tests: concrete inputs.
--
-- The loop over a subnet is the one that no list or count bounds: `enumerate` follows it for some
-- rounds and is `none` where it has not ended by then; one round more than the subnet has
-- addresses is enough where the prefix is not empty. Every other loop of the modelled code runs
-- over a list or a count that it is given, so the models are by structural recursion and need no
-- fuel. The Go integers modelled here count links, endpoints, strikes and milliseconds and do not
-- come near their limits, so they are natural numbers, or integers where a value may be -1. A time
-- is the number of nanoseconds since the zero time.
--
-- What is outside the program is an argument: HTTP measurements, instances and the context of a
-- run (`Environment`, `World`, `ChainWorld`), url.Parse, base64 and the UTF-8 check (`Codecs`),
-- the range check of strconv.Atoi, net.ParseCIDR, net.ParseIP and IP.String, the floats of a speed
-- (`Speeds`), the answers of HTTP clients and of the database, the dialling of an endpoint, the
-- shuffle of math/rand, sort.Sort, the lines of a file, gocsv over a file (`CsvLibrary`), the
-- fingerprint of a connection, the JSON of a log line, netbind.New, and the floats of
-- passesThreshold. `to_lower` folds ASCII letters only, where strings.ToLower folds all of
-- Unicode.
--
-- Not modelled: the parsers of share links in pkg/core/xray and pkg/core/singbox, the TLS
-- transport of the scanner, the rest of the web server, the runners of its other services, the
-- tunnels and namespaces, the other queries of the database, the commands and the front end. Log
-- output has no model.
pub mod Prelude
pub mod Text
pub mod Dict
pub mod Core
pub mod Addresses
pub mod Scanner
pub mod ChainMode
pub mod Startup
pub mod Chain
pub mod Pool
pub mod Examiner
pub mod Rotation
pub mod Subscription
pub mod Prescan
pub mod Hub
pub mod Services
mod Tests
