-- ===== src/Lib.antt =====
-- A model of vectorcore-sgw, a Serving Gateway of a 4G core network, and the theorems on it.
--
-- The program is two processes. The control plane (cmd/vectorcore-sgw-c) speaks GTPv2-C with the MME
-- (internal/sgwc/s11) and the PGW (internal/sgwc/s5c) and directs the user plane by PFCP
-- (internal/sgwc/pfcpclient). The user plane (cmd/vectorcore-sgw-u) answers PFCP
-- (internal/sgwu/pfcpserver), keeps the PFCP sessions (internal/sgwu/session) and forwards GTP-U
-- packets (internal/sgwu/gtpu, internal/dataplane/bpf). The handlers of the control plane take their
-- TEIDs from internal/sgwc/teid, ask internal/sgwc/collision before they begin a procedure on a
-- session, and internal/sgwc/ddncontrol before they notify an MME of downlink data.
--
-- Files and code:
--   Common               what all parts use: tests on numbers, list lemmas, Go maps (Common/Maps),
--                        bytes in big-endian order (Common/Bytes), signed integers (Common/Int),
--                        results with errors (Common/Results), addresses (Common/Addr).
--   Gtpv2/Ie             internal/gtpv2/ie/ie.go: IE, Marshal, ParseIEs and the finders.
--   Gtpv2/Values         the same file: the values of single elements; Values/Digits has TBCD, and
--                        Values/Apn the labels of an access point name.
--   Gtpv2/Header         internal/gtpv2/message/message.go: ParseHeader (parse_header), MarshalHeader
--                        (marshal_header), Marshal (marshal_message), Parse (parse), the tables of
--                        message types, and the responses that are built without a handler.
--   Gtpv2/Frames         the same file: SplitFrames and MarshalPiggybacked.
--   Pfcp/Ie              internal/pfcp/ie/ie.go: IE, Marshal, ParseIEs, the finders, newGrouped.
--   Pfcp/Types           the same file: type numbers, causes and flags; Pfcp/Values the values of
--                        single elements (NewFTEIDv4 is new_fteid_v4, FTEIDPFCPValue fteid_pfcp_value).
--   Pfcp/Header          internal/pfcp/message/message.go: the header, Marshal and Parse.
--   Pfcp/Messages        the same file: the parsers of the requests that the user plane answers.
--   Sgwc/Collision       internal/sgwc/collision/collision.go: decide, and in Collision/Tracker the
--                        methods of Tracker (begin, finish, sweep_expired, configure).
--   Sgwc/Session         internal/sgwc/session/session.go: the state machine, the PFCP binding and the
--                        rule identifiers; Session/Peers has bearers, PGW and MME.
--   Sgwc/Manager         internal/sgwc/session/manager.go: the indexes and removeLocked; Manager/Creation has
--                        Create, Manager/Finders what finds and marks sessions. A client of Sgwc/Teid.
--   Sgwc/Ddn             internal/sgwc/ddncontrol/state.go: the entries of MMEs and subscribers and
--                        the refill of tokens; Ddn/Decide has the classification and Decide.
--   Sgwc/Teid            internal/sgwc/teid/allocator.go.
--   Sgwu/Session         internal/sgwu/session/store.go.
--   Sgwu/PfcpServer      internal/sgwu/pfcpserver/server.go. State has the server (Server) and how a
--                        handler ends; Rules and FarUpdates the parsers of rules and the loops of
--                        applySessionModification;
--                        Establish the two passes of handleSessionEstablishment over the rules;
--                        Association, Establishment, Modification and Handlers the handlers, and handle,
--                        the dispatch that composes them.
--   Sgwu/Gtpu            internal/sgwu/gtpu/header.go; Gtpu/Elements has internal/sgwu/gtpu/ie.go.
-- The child modules hold the proofs, and each Runs module tests and instances.
--
-- Conventions. A slice of bytes is a list of numbers, and a theorem that needs them below 256 says so.
-- A method that changes its receiver returns the new state; each runs under a mutex, so a run of
-- several goroutines is a sequence of such steps; Create of the session manager is two of them, since it
-- chooses the TEID and the identifier before it takes the mutex. The clock, the random numbers and
-- strings.EqualFold are arguments. Fixed-width arithmetic wraps where the code's does: identifiers and
-- counters at 2^64, lengths at 2^16. Times and durations are numbers of nanoseconds that do not wrap;
-- Go's would after 292 years. A Go map is an association list, whose order stands for the
-- iteration order; theorems on maps read them by lookup.
--
-- A message to the user plane is one step: its source, its header and bytes, the clock and the random
-- numbers go in, and the new state and the outputs in their order come out. Handlers run one after the
-- other. A call of a method of a nil element is a panic (crashed), and where AllocTEID has drawn all
-- the numbers that the model was given, the step has no end (unended). Whether the fast path takes the
-- rules of a session, and whether an address is allowed, are functions of the configuration. Sending
-- does not fail.
--
-- Loops that do not shrink their input step by step take fuel, which is a number that each round makes
-- one smaller: both ParseIEs the length of their input (a round takes four bytes), SplitFrames that
-- length and one (eight bytes), Parse of GTP-U likewise (four bytes for an extension header), decodeAPN its
-- input's length. Running out is a value that the code has not (stuck). The 1024 attempts of
-- the TEID allocator are the code's own bound.
--
-- Not modelled: the transports and the handlers of the control plane, which are sockets and goroutines
-- around these parts; the reports that the user plane sends by itself; the reconciliation and the
-- checkpoints of the control plane's sessions; the messages of single procedures of GTPv2-C, and the
-- PFCP responses; the eBPF datapath; configuration, HTTP API, metrics and logging. Error texts are
-- constructors with the values that the texts show.
pub mod Common
pub mod Gtpv2
pub mod Pfcp
pub mod Sgwc
pub mod Sgwu
