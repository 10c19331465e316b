-- ===== src/Lib.antt =====
-- OpenGFW inspects network streams: an engine feeds each stream's data to protocol analyzers, merges
-- the properties that they extract, and asks a ruleset for a verdict whenever a property changes.
--
-- The parts that are modelled, and the files that model them:
--
-- - Utils/ByteBuffer and Utils/Lsm: analyzer/utils/bytebuffer.go and analyzer/utils/lsm.go, the buffer
--   and the linear state machine that parsers are built on. A step of a machine is a name and a function
--   `exec` on the stream's state; what it passes to AppendSteps is a part of its outcome.
-- - Engine: engine/tcp.go and engine/udp.go, with processPropUpdate of engine/utils.go in Engine/Props.
--   The analyzers' streams, the ruleset's Match and the modifiers are parameters; Accept, ReassembledSG
--   and Feed are functions from a stream to a stream with a verdict. The calls that the reassembly
--   library makes on a TCP stream are any list of calls, in Engine/Tcp/Verdicts. The manager of UDP
--   streams is in Engine/Udp/Manager: its LRU cache is a record of operations with their laws, and
--   holds pointers into a heap of streams.
-- - Analyzer/Socks: analyzer/tcp/socks.go. Its steps are in Socks, Requests and Responses, its Feed in
--   Feed; a step that panics says so in the stream that it leaves, and `feed` then panics instead of
--   returning. A closed stream, whose maps are nil, is not fed again.
-- - Analyzer/Trojan, Analyzer/Wireguard, Analyzer/Openvpn: analyzer/tcp/trojan.go,
--   analyzer/udp/wireguard.go and analyzer/udp/openvpn.go. Each `feed` is the method Feed; the property
--   maps of an update are records or constructors with the same entries.
-- - Analyzer/Http: analyzer/tcp/http.go. The lines and the headers are in Http, the stream in Http/Stream.
-- - Analyzer/Ssh: analyzer/tcp/ssh.go; both machines have the one step.
-- - Analyzer/Fet: analyzer/tcp/fet.go, whose averages are exact fractions.
-- - Analyzer/Udpflow: analyzer/udp/udpflow.go, with the clock's reading an argument.
-- - Analyzer/Dns: analyzer/udp/dns.go, with gopacket's decoder a parameter. The message map and the UDP
--   stream are in Dns, the TCP stream in Dns/Stream, where the two directions are one record each.
-- - Analyzer/Quic: analyzer/udp/quic.go and analyzer/udp/internal/quic. The CRYPTO frames of payload.go
--   are in Quic, header.go in Quic/Header, packet_protector.go and quic.go in Quic/Protect, and
--   ReadCryptoPayload with Feed in Quic/Stream. The ciphers, HKDF and the reader of variable-length
--   integers are parameters; a run-time panic is an outcome.
-- - Analyzer/Values: Get of the property maps of analyzer/interface.go, on the values that readers find.
-- - Analyzer/Tls: analyzer/internal/tls.go and analyzer/tcp/tls.go. The parsers of the two hello messages
--   are in Tls and Tls/Hello, the JA3 and JA4 fingerprints in Tls/Fingerprint, with the digests as
--   parameters, and the stream in Tls/Stream, where a parser without fuel leaves `feed` no result.
-- - Ruleset: ruleset/expr.go. Match is in Ruleset, CompileExprRules in Ruleset/Compile, the matchers of
--   fingerprints and domain keywords in Ruleset/Fingerprints. The library that compiles and runs
--   expressions is a parameter.
-- - Utils/Strings and Utils/Sorting: what the code uses of Go's strings, strconv, fmt and sort.
-- - Cmd/Risk: cmd/risk.go. The buckets are a list with an id each; Add and BucketCount return the
--   buckets that they leave, and Add also the calls of its outputs. The clock's reading is an argument.
-- - Cmd/Response and Cmd/Identity: cmd/response.go, and the texts of cmd/identity.go that it normalizes.
--   The sink is a record with its queue and the map of last times; a command is its arguments, and whether
--   it succeeds is an argument of the call.
-- - Cmd/Allowlist: cmd/allowlist.go. The texts and domains are in Allowlist, newAllowlist and Match in
--   Allowlist/Rules; the functions of package net are a record of parameters.
-- - Cmd/Inventory: the entries of cmd/identity.go, with Match, Metadata and Enrich; what libvirt gives is
--   in Inventory/Libvirt, with virsh and the XML decoder as parameters.
-- - Base holds the shared list lemmas and Boolean tests; Tests holds runs at concrete inputs.
--
-- Bytes are numbers below 256 and counters are plain numbers. `Run` of a linear state machine takes
-- fuel: Utils/Lsm/Total shows that a machine whose steps never reset returns once the fuel exceeds
-- the weight of the steps ahead; the machines of OpenVPN have two steps, and fuel 3; those of SOCKS,
-- TLS, SSH and HTTP take one more than the weight of the steps ahead. The loops of the TLS parsers take
-- the length of what is left to read as fuel, and each round reads at least one byte; so does the loop
-- over QUIC frames. The machine of DNS over TCP resets; two of its steps take two bytes or more, and it
-- gets twice the length of the buffer and two as fuel.
--
-- Not modelled: packet capture and injection, logging of analyzers, stream ids and metadata, the
-- reassembly library and the inside of the LRU cache, locks (a stream belongs to one worker), what QUIC's
-- UnProtect writes back into a packet, the language of the ruleset's expressions and its builtin
-- functions but for fingerprints and keywords, the alert sink, the metrics and the rest of cmd.
-- Cmd/Risk takes the normalization of hardware addresses as a parameter; Cmd/Identity has it.
pub mod Analyzer
pub mod Base
pub mod Cmd
pub mod Engine
pub mod Ruleset
pub mod Tests
pub mod Utils
