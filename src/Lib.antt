-- ===== src/Lib.antt =====
-- A model of the core of 3gpp-server, a server that plays the parts of a gNB with 5G UEs and
-- of an eNB with EPS UEs against a mobile core, and the theorems that make it correct.
--
-- Parts and files.
--
-- Common: library names, Boolean tests, lists by native length, Go outcomes (value, error,
--   panic), byte slices, maps, strings as byte sequences with hex and decimal text.
-- Gtpu: internal/gtpu. Message and Decode are message.go (EncodeGPDU, EncodeGPDUWithQFI,
--   EncodeEchoRequest; Decode, decodeIEs, setIE); Ip and Checksum are ip.go and ip6.go
--   (onesComplementSum, BuildICMPEcho, BuildUDP, ParseInner and what they call); Addr is what
--   they use of netip.Addr. Total, RoundTrip, Elements, Packets and Parse hold the proofs.
-- Gtpu/Endpoint and Fifo: internal/gtpu/transport.go, the queues by TEID and by message type,
--   the receiver, WaitForDownlink and WaitForControl.
-- Transport: internal/transport/framed.go, the frames by message type and
--   WaitForMessageMatching; Matching and Waits hold the proofs.
-- Store: internal/store. Contexts holds its records and World, the heap that its pointers
--   point into; Registry is store.go; Gnb and Enb are the UE methods of the two kinds of base
--   station; Counts is the NAS COUNT arithmetic. Valid, Traces and Migration hold the proofs.
-- Nas: the security context of both accesses. Library is what nas5gs takes from the free5gc
--   libraries, EpsSecurity begins with what naseps takes from the Ella Core one. Security and
--   EpsSecurity are internal/nas5gs/security.go and internal/naseps/security.go (Protect,
--   Unprotect); Types and EpsTypes their decoded messages; Keys is internal/crypto/keys_5g.go
--   and keys_eps.go; GnbContext and EnbContext are internal/api/gnb_security.go and
--   enb_security.go. Uplink, Downlink, EpsUplink and EpsDownlink hold the proofs. The counts
--   are those of Store.
-- Identity: internal/crypto's suci.go and suci_encode.go (Suci), aka_5g.go, aka_eps.go and
--   auts.go (Aka), the four encoders of a PLMN identity in internal/ngap/helpers.go,
--   internal/s1ap/helpers.go and internal/crypto (Plmn), and NewUEContext of
--   internal/store/gnb_ue_context.go (NewUe). Agree and Fresh hold the proofs.
-- Api: internal/api's handlers of a request on a gNB and its 5G UEs. Types is gnb_ue_types.go
--   with the error and wait helpers; Codec is what the handlers take from nas5gs and ngap;
--   Action is the state and the errors of a handler; Exchange is the sending and waiting of
--   gnb_ngap_handlers.go and gnb_await_handlers.go; Registration, Authentication and
--   Connection are gnb_nas_handlers.go, Sessions is gnb_pdu_session_handlers.go, Handover the
--   UE's part of gnb_handover_handlers.go, Dispatch is SendGNBUENGAP; Station and
--   StationDispatch are the same for a request on the gNB, SendGNBNGAP, with
--   gnb_reset_path_switch_handlers.go; Await is gnb_await_handlers.go, Users is
--   gnb_ue_handlers.go and gnb_ue_lifecycle_handlers.go but for GetGNBUE, with MigrateGNBUE,
--   Stations is gnb_handlers.go but for GetGNB. Keeps, Decodes, Steps, Invariant,
--   HandlersKeep, SessionsKeep, Dispatched, StationKeeps, AwaitKeeps, UsersKept and Torn hold
--   the proofs. A session's UE and gNB are those of Store, its waits those of Transport, its
--   NAS protection that of Nas, its AKA that of Identity.
--
-- Conventions. A pointer is an address in World. Octets and fixed-width integers are natural
-- numbers with the wrap-around written out; an operation that could slice or index out of
-- range returns panic there, and a loop whose fuel runs out returns stuck, so that a theorem
-- that a call Returns excludes both. The extension loop of Decode passes four octets in a
-- round and the loop of decodeIEs two, so a fuel of one more than the buffer's length is
-- enough; decode-Returns proves it. A wait is run on the list of its wake-ups, each with what
-- was received since and whether the context had ended; a run that is still waiting at the
-- end of the list is stuck, and Waits shows that it comes back once the context ends. The
-- fold of onesComplementSum recurs on its falling sum and takes no fuel.
--
-- The library code that Identity uses is CryptoLibrary and AkaLibrary, and the builders and
-- decoders that Api uses are Codec, StationCodec and SetupLibrary: records of functions whose
-- errors are none, of which nothing is assumed but where a theorem says so (CallsEnd: a call
-- of nas5gs.Decode ends). That decoder may also panic, as it does at an Authentication
-- Request without RAND, and a handler that calls it then panics; the others have values and
-- errors only, and the runs in which a builder, the decoder of ngap or that of naseps panics
-- are not modelled. Env holds what a handler finds around it, with the one wait that it
-- makes; a handler waits at most once.
--
-- Not modelled: sockets, HTTP and JSON, logging, and the code that fills structs of the NAS,
-- NGAP and S1AP libraries, which are not part of the repository. The requests on an eNB and
-- its UEs and those of the user plane, GetGNB and GetGNBUE are not modelled either.
-- nas5gs.Decode, naseps.Decode and SecurityHeaderTypeString are arguments of the context's
-- functions, and the NAS codec, the algorithms and the KDF fields of the library records;
-- what is assumed of them stands as a hypothesis of the theorems: MacOctets, that a MAC is
-- four octets. The text form of an IP address (netip.Addr.String) is a parameter of the code
-- that prints one. Error texts are values of data types that name the error.
pub mod Common
pub mod Gtpu
pub mod Store
pub mod Transport
pub mod Identity
pub mod Api
pub mod Nas
