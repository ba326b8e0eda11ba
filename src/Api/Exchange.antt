-- ===== src/Api/Exchange.antt =====
-- internal/api/gnb_ngap_handlers.go and gnb_await_handlers.go: the message to the AMF, the wait for
-- its answer, and what the answer changes in the UE.
use gpp_server.Common.{ℕ, Bool, true, false, not, ◌&&◌, Option, none, some, List, [], ◌∷◌}
use gpp_server.Common.{Outcome, ok, err, panic, stuck, ◌==◌, if◌then◌else◌, length}
use gpp_server.Common.Bytes.{u8}
use gpp_server.Common.Maps.{bytes_beq}
use gpp_server.Common.Text.{GoString, text, hex_decode}
use gpp_server.Store.Contexts.{UeContext, GnbContext}
use gpp_server.Store.Pointers.{or_keep}
use gpp_server.Nas.Types.{NasResponse, Guti5GJson}
use gpp_server.Nas.Keys.{KeyError}
use gpp_server.Nas.GnbContext.{
  UplinkOverrides, Decoding, Downlink, encode_gnb_uplink_nas, decode_gnb_downlink_nas,
}
use gpp_server.Api.Types.{
  NgapResponse, StatusError, SendGnbUeNgapRequest, SendGnbUeNgapResponse, build_failed,
  encode_failed, security_failed,
}
use gpp_server.Api.Codec.{
  Location, UplinkNasTransportOverrides, InitialUeMessageOverrides, FiveGStmsiFromGuti,
}
use gpp_server.Api.Action.{
  Env, Session, Action, pure, or_fail, case_of, ◌>>=◌, ◌>>◌, the_ue, the_gnb, modify_ue, send_frame,
  answer, wait_or_504,
}

abbrev pub effective_ran_id : SendGnbUeNgapRequest → UeContext → ℕ
effective_ran_id req ue = or_keep req.ran_ue_ngap_id_override ue.ran_ue_ngap_id

abbrev pub effective_amf_id : SendGnbUeNgapRequest → UeContext → ℕ
effective_amf_id req ue = or_keep req.amf_ue_ngap_id_override ue.amf_ue_ngap_id

unfoldable pub first_non_empty : List GoString → GoString
first_non_empty [] = []
first_non_empty ([] ∷ vals) = first_non_empty vals
first_non_empty ((c ∷ v) ∷ vals) = c ∷ v

abbrev pub equals : Option ℕ → ℕ → Bool
equals none n = false
equals (some m) n = m == n

abbrev pub missing {ℓ} : {A : Type ℓ} → Option A → Bool
missing none = true
missing (some a) = false

-- An AMF identity of 0 is none yet.
unfoldable pub ue_ngap_matcher : ℕ → ℕ → NgapResponse → Bool
ue_ngap_matcher ran_id amf_id resp =
    if missing resp.ran_ue_ngap_id && missing resp.amf_ue_ngap_id
    then true
    else if equals resp.ran_ue_ngap_id ran_id
    then true
    else not (amf_id == 0) && equals resp.amf_ue_ngap_id amf_id

abbrev pub location_of : GnbContext → Location
location_of g = record { mcc = g.mcc; mnc = g.mnc; tac = g.tac; gnb_id = g.gnb_id }

abbrev pub uplink_overrides : SendGnbUeNgapRequest → Option UplinkNasTransportOverrides
uplink_overrides req =
    if missing req.amf_ue_ngap_id_override && missing req.ran_ue_ngap_id_override
    then none
    else some (record {
      amf_ue_ngap_id = req.amf_ue_ngap_id_override;
      ran_ue_ngap_id = req.ran_ue_ngap_id_override;
    })

abbrev pub initial_ue_overrides : SendGnbUeNgapRequest → Option InitialUeMessageOverrides
initial_ue_overrides req =
    if missing req.rrc_establishment_cause_override
      && missing req.ue_context_request_override
      && missing req.ran_ue_ngap_id_override
    then none
    else some (record {
      rrc_establishment_cause = req.rrc_establishment_cause_override;
      ue_context_request = req.ue_context_request_override;
      ran_ue_ngap_id = req.ran_ue_ngap_id_override;
    })

-- What `hex.DecodeString` returns with an error or without: the bytes before the first bad digit.
unfoldable pub hex_prefix : GoString → List ℕ
hex_prefix [] = []
hex_prefix (c ∷ []) = []
hex_prefix (c ∷ d ∷ s) =
    let rest = hex_prefix s in
    elim (hex_decode (c ∷ d ∷ [])) [ none ↦ [] | some [] ↦ [] | some (b ∷ bs) ↦ b ∷ rest ]

-- `req`'s overrides of the uplink's protection.
abbrev pub protection_of : SendGnbUeNgapRequest → Option UplinkOverrides
protection_of req =
    some (record { nas_count_override = req.nas_count_override; corrupt_mac = req.corrupt_mac })

abbrev pub is_message : GoString → NgapResponse → Bool
is_message message_type r = bytes_beq r.message_type message_type

-- An Error Indication echoes the identities that it was sent; it assigns none.
unfoldable pub assign_amf_id : NgapResponse → UeContext → UeContext
assign_amf_id r ue =
    if is_message (text "ErrorIndication") r
    then ue
    else record ue { amf_ue_ngap_id = or_keep r.amf_ue_ngap_id ue.amf_ue_ngap_id }

module _ (env : Env) where
  -- `encodeGNBUplinkNAS`, whose error is status 500.
  unfoldable pub protect_uplink : List ℕ → ℕ → Option UplinkOverrides → Action (List ℕ)
  protect_uplink plain sht req s =
      let (ue, outcome) = encode_gnb_uplink_nas env.nas (s.ue) plain sht req in
      (
        record s { ue = ue },
        elim outcome [
          | ok p ↦ ok p
          | err e ↦ err (record { status = 500; cause = security_failed })
          | panic ↦ panic
          | stuck ↦ stuck
        ],
      )

  abbrev pub take_downlink :
      Session
      → Outcome KeyError Downlink
      → Session × Outcome StatusError (Option NasResponse × Option Bool)
  take_downlink s (ok (ue, nas, verified)) = (record s { ue = ue }, ok (nas, verified))
  take_downlink s (err e) = (s, ok (none, none))
  take_downlink s panic = (s, panic)
  take_downlink s stuck = (s, stuck)

  -- `decodeGNBDownlinkNAS`, which has no error.
  unfoldable pub decode_downlink : List ℕ → Action (Option NasResponse × Option Bool)
  decode_downlink message s =
      take_downlink s
        (decode_gnb_downlink_nas env.nas env.codec.sht_string env.codec.nas_decode (s.ue) message)

  -- The NAS message that an answer carries.
  unfoldable pub downlink_of : NgapResponse → Action (Option NasResponse × Option Bool)
  downlink_of r =
      case_of r.nas_pdu (pure (none, none))
        (λ pdu. case_of (hex_decode pdu) (pure (none, none)) (λ message. decode_downlink message))

  -- A response without a header, or none after an error.
  unfoldable pub decode_plain : Decoding → Action (Option NasResponse × Option Bool)
  decode_plain (ok r) s = (s, ok (some r, none))
  decode_plain (err e) s = (s, ok (none, none))
  decode_plain panic s = (s, panic)
  decode_plain stuck s = (s, stuck)

  -- Before there is a key the message is decoded as a plain one.
  unfoldable pub downlink_or_plain :
      UeContext → NgapResponse → Action (Option NasResponse × Option Bool)
  downlink_or_plain ue r = case_of r.nas_pdu (pure (none, none)) (λ pdu.
      case_of (hex_decode pdu) (pure (none, none)) (λ message.
        if length ue.kamf == 0
        then decode_plain (env.codec.nas_decode message)
        else decode_downlink message))

  abbrev pub remember_challenge : NasResponse → UeContext → UeContext
  remember_challenge r ue =
      if length r.rand == 0
      then ue
      else record ue { rand = hex_prefix r.rand; autn = hex_prefix r.autn }

  -- Where the message has a key set identifier and an algorithm.
  abbrev pub remember_ksi : Option ℕ → Option ℕ → UeContext → UeContext
  remember_ksi (some ksi) (some alg) ue = record ue { ng_ksi = u8 ksi }
  remember_ksi (some ksi) none ue = ue
  remember_ksi none alg ue = ue

  abbrev pub remember_guti : Option Guti5GJson → UeContext → UeContext
  remember_guti none ue = ue
  remember_guti (some g) ue = record ue { guti = env.codec.guti_from_structured g }

  -- What a downlink message changes in the UE.
  unfoldable pub remember : Option NasResponse → UeContext → UeContext
  remember none ue = ue
  remember (some r) ue =
      remember_guti r.guti
        (remember_ksi r.ng_ksi r.selected_ciphering_algorithm (remember_challenge r ue))

  -- The answers that the gNB owes the AMF, with the identities as they are then.
  unfoldable pub answer_command : NgapResponse → Action (Unit {0})
  answer_command r = do
    ue ← the_ue
    let amf = ue.amf_ue_ngap_id
    let ran = ue.ran_ue_ngap_id
    let codec = env.codec
    answer env (
        if is_message (text "InitialContextSetupRequest") r
        then codec.build_initial_context_setup_response amf ran
        else none)
    answer env (
        if is_message (text "PDUSessionResourceReleaseCommand") r
        then codec.build_resource_release_response amf ran
        else none)
    answer env (
        if is_message (text "UEContextReleaseCommand") r
        then codec.build_ue_context_release_complete amf ran
        else none)

  -- The wait for a message for this UE.
  unfoldable pub wait_for_ue : SendGnbUeNgapRequest → List GoString → Action NgapResponse
  wait_for_ue req types = the_ue >>= λ ue.
      wait_or_504 env (ue_ngap_matcher (effective_ran_id req ue) (effective_amf_id req ue)) types

  unfoldable pub send_raw_and_wait :
      SendGnbUeNgapRequest → List ℕ → List GoString → Action SendGnbUeNgapResponse
  send_raw_and_wait req encoded types = do
    send_frame env encoded
    r ← wait_for_ue req types
    modify_ue (assign_amf_id r)
    ue ← the_ue
    (nas, verified) ← downlink_or_plain ue r
    modify_ue (remember nas)
    answer_command r
    pure (record { ngap = some r; nas = nas; mac_verified = verified })

  -- `BuildUplinkNASTransport` for the UE.
  unfoldable pub uplink_nas_transport :
      Option UplinkNasTransportOverrides → List ℕ → Action (List ℕ)
  uplink_nas_transport overrides nas_pdu = do
    ue ← the_ue
    g ← the_gnb
    or_fail 500 encode_failed (
        env.codec.build_uplink_nas_transport (record {
          amf_ue_ngap_id = ue.amf_ue_ngap_id;
          ran_ue_ngap_id = ue.ran_ue_ngap_id;
          nas_pdu = nas_pdu;
          location = location_of g;
          overrides = overrides;
        }))

  unfoldable pub send_uplink_and_wait :
      SendGnbUeNgapRequest → List ℕ → List GoString → Action SendGnbUeNgapResponse
  send_uplink_and_wait req nas_pdu types = do
    encoded ← uplink_nas_transport (uplink_overrides req) nas_pdu
    send_raw_and_wait req encoded types

  -- `BuildInitialUEMessage` for the UE, under the identity `ran`, and `Encode`.
  unfoldable pub initial_ue_message :
      ℕ → List ℕ → Option FiveGStmsiFromGuti → Option InitialUeMessageOverrides → Action (List ℕ)
  initial_ue_message ran nas_pdu guti overrides = do
    g ← the_gnb
    built ← or_fail 400 build_failed (
        env.codec.build_initial_ue_message (record {
          ran_ue_ngap_id = ran;
          nas_pdu = nas_pdu;
          location = location_of g;
          guti = guti;
          overrides = overrides;
        }))
    or_fail 500 encode_failed built
