-- ===== src/Lib.antt =====
-- Verification of the core of tenebra, a VPN client: the packages below core/ that decide what is
-- connected, what is blocked and what is kept.
--
-- Parts, and the files that model them:
--   Model        core/model/model.go: the normalized proxy node. Every other part uses it.
--   Fallback     core/fallback: the walk over the candidates of a connection (fallback.go, in
--                Fallback/Machine), the handshake strategies (strategy.go, in Fallback/Strategy),
--                the memory of the last good node (lastgood.go, in Fallback/LastGood), and the
--                verdict on a failed attempt (classify.go with its caller core/control/classify.go,
--                in Fallback/Classify). A machine takes its memory as an instance of an interface.
--   DnsWire      core/dnswire/dnswire.go: the DNS codec. A Go slice or index is checked by
--                `byte_at` and `slice`, which give `panic` where Go would stop the program.
--   Tunguard     core/tunguard/tunguard.go: the refusal to raise a tun beside another tunnel.
--   Protection   core/protection: the persistent guard (guard.go, in Protection/Guard) over a
--                backend that is an interface with the contract that guard.go documents, and the
--                filters that the backend installs (policy.go, in Protection/Policy). The check of
--                the resolver is dns.go, in Protection/Dns.
--   Dnspick      core/dnspick/dnspick.go: the choice of a resolver by measurement.
--   Nodecheck    core/nodecheck/nodecheck.go: the choice of a node by what works through it.
--   Profile      core/profile: the identity of a server (profile.go, in Profile/Identity), and the
--                store with its file (store.go, in Profile/Store). JSON is an interface, and the
--                call that fails during a save is an argument.
--   Routing      core/routing: the options of the routing with their normalization and validation
--                (routing.go, in Routing/Options), the domain suffixes of the rules (rules.go, in
--                Routing/Suffixes), the presets (presets.go, in Routing/Presets), the rule sets on
--                disk (Routing/Files), the rules of the route (route.go, in Routing/Route), and the
--                dns block with its rules and servers (dns.go, in Routing/Dns). A rule is the JSON
--                object that is built for it, as a constructor.
--   Singbox      core/singbox: what the builder asks of a node (`validateNode`, in
--                Singbox/Validate), the tags (`sanitizeTag` and `uniq`, in Singbox/Tags), the
--                outbound or endpoint of a node (outbound.go and wireguard.go, in
--                Singbox/Outbound), the loop over the nodes (`buildNodes`, in Singbox/Nodes), the
--                options of the tun with the inbounds (Singbox/Tun), and `Build` with the check of
--                a chain and what is read back of a configuration (Singbox/Build).
--   Control      core/control: the candidates of a connection, which are servers of a profile and
--                become the attempts of a fallback machine, and the nodes of one attempt under a
--                strategy (daemon.go, in Control/Candidates); from the request to the walk,
--                `startConnect` with `teardown` (Control/Connect); the walk, `runFallback`
--                (Control/Walk), over the attempts at one node, `attemptNode` (Control/Cascade),
--                each with a probe, `probeUntilUp` (Control/Probe), and `recordSuccess`
--                (Control/Success), all of connect.go; its snapshots (Control/Tracker); when it
--                asks the guard (protection.go, in Control/Protect); and the system proxy
--                (proxy.go, in Control/Proxy). The live switch of hotswitch.go, `switchNode`, is
--                Control/Switch, the move that the daemon makes on its own, `autoSwitchAway` with
--                its scan, is Control/Switch/Scan, and the budget of such moves is
--                Control/Recovery. `buildConfigJSON` is Control/Rendering. Control/State has the
--                state of a walk, and its surroundings. The tags of the servers, which the daemon
--                works out on its own, and the check of a chain are those of daemon.go, in
--                Control/Tags, with the tags of core-bridge/tags.go.
--   Bridge       core-bridge/order.go: the order of the nodes for a mobile client (Bridge/Order).
--   Prelude      the shared names, lists, texts, integers, the stable sort, decimal numerals, and
--                JSON objects as lists of fields.
--   Tests        the theorems at concrete inputs.
--
-- A function keeps the name of the Go function in lower case with underscores; a part of a Go
-- function that needs a name is a helper in front of it. A map is an association list, a pointer
-- or a pair with a flag is an `Option`, an error is a constructor. Texts are lists of bytes, and
-- lower-casing and trimming are those of ASCII, and a text is valid UTF-8. Numbers are natural
-- where the source's cannot be negative; lengths and indices never leave the range of a Go int
-- on a machine that holds the data. Other ints are unbounded integers.
--
-- A walk runs in its own goroutine, and others change the generation, the context and the
-- settings meanwhile. It is a function on its state and a clock: what it reads of the others,
-- and what its calls return, is given for every moment, and a moment is one such step. A probe's
-- loop is given by a list of rounds, which ends where the budget of time does.
--
-- Fuel: `run_loop` has one unit for each turn, and a turn that does not end the walk moves the
-- machine to its next candidate; one unit more than there are candidates is enough. `read_loop`
-- has 33 * (length + 1) + 1 rounds, since a jump goes backwards, at most 32 jumps are made, and
-- a round without a jump moves forward in the message. `follow_chain` has the 32 hops of the
-- source, and the loops on the counts of a message run on the counts. `suffix_loop` has the
-- length of the map of tags: each of its rounds meets another tag of the map. The digits of a
-- number have one unit more than the number.
--
-- Not modelled: network and operating system calls, locks (an operation under a lock is one
-- step), the notify callback of the guard, the texts of errors and logs, the clock of the
-- budgets, the goroutines behind a connection (process watcher, traffic, health,
-- reconciliation), the log block of a configuration, which is constant, the free addresses of a
-- tun, the configuration of a probe, the packages subscription, logrot and zapret, the import
-- and the generation of the bridge, and the rest of control.
pub mod Prelude
pub mod Model
pub mod Fallback
pub mod DnsWire
pub mod Tunguard
pub mod Protection
pub mod Dnspick
pub mod Nodecheck
pub mod Profile
pub mod Routing
pub mod Singbox
pub mod Control
pub mod Bridge
mod Tests
