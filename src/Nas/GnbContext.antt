-- ===== src/Nas/GnbContext.antt =====
-- internal/api/gnb_security.go: the security context of a 5G UE. `nas_decode` is `nas5gs.Decode`,
-- which returns a response or an error and never both, or panics, and `sht_string` the name that it
-- prints for a security header type; nothing is assumed of either.
use gpp_server.Common.{
  ℕ, bit_xor, Bool, true, false, not, ◌&&◌, ◌||◌, Option, none, some, List, ◌∷◌,
}
use gpp_server.Common.{Outcome, ok, err, panic, stuck, ◌>>=◌, ltb, leb, ◌==◌, if◌then◌else◌, length}
use gpp_server.Common.Bytes.{u8, byte_at}
use gpp_server.Common.Text.{GoString, hex_encode}
use gpp_server.Store.Contexts.{UeContext}
use gpp_server.Store.Gnb
use gpp_server.Nas.Library.{NasLibrary}
use gpp_server.Nas.Types.{NasResponse}
use gpp_server.Nas.Security.{
  NasError, security_header, peek_protected_payload, protect, unprotect, Unprotected,
}
use gpp_server.Nas.Keys.{KeyError, derive_5g_nas_keys}

-- What `SendGNBUENGAPRequest` overrides in the uplink.
pub record UplinkOverrides : Type 0 where
  pub nas_count_override : Option ℕ
  pub corrupt_mac : Bool

pub data UplinkError : Type 0 where
  no_security_context : UplinkError
  nas_error : NasError → UplinkError

abbrev pub count_of : Option UplinkOverrides → ℕ → ℕ
count_of none count = count
count_of (some r) count = elim r.nas_count_override [ none ↦ count | some c ↦ c ]

-- `protected[2] ^= 0xff`, where it is asked for and there is a MAC.
abbrev pub corrupt : List ℕ → List ℕ
corrupt (a ∷ b ∷ c ∷ p) = a ∷ b ∷ bit_xor c 0xff ∷ p
corrupt p = p

abbrev pub corrupted : Option UplinkOverrides → List ℕ → List ℕ
corrupted none p = p
corrupted (some r) p = if r.corrupt_mac && leb 7 (length p) then corrupt p else p

-- A new context starts both counts again.
abbrev pub restart : Bool → UeContext → UeContext
restart true ue = record ue { ul_count = 0; dl_count = 0 }
restart false ue = ue

abbrev pub finish_uplink :
    UeContext
    → Option UplinkOverrides
    → Outcome NasError (List ℕ)
    → UeContext × Outcome UplinkError (List ℕ)
finish_uplink ue req (ok p) =
    (record ue { last_uplink_nas = corrupted req p }, ok (corrupted req p))
finish_uplink ue req (err e) = (ue, err (nas_error e))
finish_uplink ue req panic = (ue, panic)
finish_uplink ue req stuck = (ue, stuck)

-- What `nas5gs.Decode` comes to.
abbrev pub Decoding : Type 0
Decoding = Outcome (Unit {0}) NasResponse

-- A response, and whether the downlink was integrity checked.
abbrev pub Downlink : Type 0
Downlink = UeContext × Option NasResponse × Option Bool

module _ (lib : NasLibrary) where
  abbrev pub is_new_context : ℕ → Bool
  is_new_context sht = sht == lib.sht_new_context || sht == lib.sht_ciphered_new_context

  -- The UE is changed whether the call succeeds or not.
  unfoldable pub encode_gnb_uplink_nas :
      UeContext → List ℕ → ℕ → Option UplinkOverrides → UeContext × Outcome UplinkError (List ℕ)
  encode_gnb_uplink_nas ue plain sht req =
      if not ue.security_active && length ue.kamf == 0
      then (ue, err no_security_context)
      else let (ue2, next) = Gnb.next_ul (restart (is_new_context sht) ue) in
        finish_uplink ue2 req (
          protect lib plain sht (count_of req next) ue2.ciphering_alg ue2.integrity_alg ue2.knas_enc
            ue2.knas_int)

  -- The algorithms are set even if the keys cannot be derived.
  unfoldable pub establish_gnb_security_context :
      UeContext → Option NasResponse → Outcome KeyError UeContext
  establish_gnb_security_context ue none = ok ue
  establish_gnb_security_context ue (some smc) = elim smc.selected_ciphering_algorithm [
    | none ↦ ok ue
    | some c ↦ elim smc.selected_integrity_algorithm [
      | none ↦ ok ue
      | some i ↦
          let ue1 = record ue { ciphering_alg = u8 c; integrity_alg = u8 i } in
          elim (derive_5g_nas_keys lib ue1.kamf (u8 c) (u8 i)) [
            | ok keys ↦ ok (record ue1 {
              knas_enc = keys.0;
              knas_int = keys.1;
              dl_count = 0;
              security_active = true;
            })
            | err e ↦ ok ue1
            | panic ↦ panic
            | stuck ↦ stuck
          ]
    ]
  ]

  module _ (sht_string : ℕ → GoString) (nas_decode : List ℕ → Decoding) where
    unfoldable pub annotate_gnb_security_header_type :
        Option NasResponse → ℕ → List ℕ → Option NasResponse
    annotate_gnb_security_header_type none sht message = none
    annotate_gnb_security_header_type (some r) sht message =
        some (record r { security_header_type = sht_string sht; raw_hex = hex_encode message })

    -- A Security Mode Command under a new-context header establishes the context.
    unfoldable pub enter_context : UeContext → ℕ → List ℕ → Outcome KeyError UeContext
    unfolding establish_gnb_security_context
    enter_context ue sht message =
        if is_new_context sht
        then elim (peek_protected_payload message) [
          | ok inner ↦ elim (nas_decode inner) [
            | ok smc ↦ establish_gnb_security_context ue (some smc)
            | err e ↦ ok ue
            | panic ↦ panic
            | stuck ↦ stuck
          ]
          | err e ↦ ok ue
          | panic ↦ panic
          | stuck ↦ stuck
        ]
        else ok ue

    -- The response, if there is one, with its header.
    unfoldable pub respond :
        UeContext → ℕ → List ℕ → Option Bool → Decoding → Outcome KeyError Downlink
    unfolding annotate_gnb_security_header_type
    respond ue sht message verified (ok r) =
        ok (ue, annotate_gnb_security_header_type (some r) sht message, verified)
    respond ue sht message verified (err e) =
        ok (ue, annotate_gnb_security_header_type none sht message, verified)
    respond ue sht message verified panic = panic
    respond ue sht message verified stuck = stuck

    unfoldable pub report : UeContext → ℕ → List ℕ → Unprotected → Outcome KeyError Downlink
    unfolding respond
    report ue sht message (none, e) = ok (ue, none, none)
    report ue sht message (some inner, none) = respond ue sht message (some true) (nas_decode inner)
    report ue sht message (some inner, some e) =
        respond ue sht message (some false) (nas_decode inner)

    unfoldable pub report_peeked :
        UeContext → ℕ → List ℕ → Outcome NasError (List ℕ) → Outcome KeyError Downlink
    unfolding respond
    report_peeked ue sht message (ok inner) = respond ue sht message none (nas_decode inner)
    report_peeked ue sht message _ = ok (ue, none, none)

    -- The rest, for a protected message in the context that is in force now.
    unfoldable pub open_downlink : UeContext → ℕ → ℕ → List ℕ → Outcome KeyError Downlink
    unfolding report report_peeked
    open_downlink ue sht count message =
        if not ue.security_active
        then report_peeked ue sht message (peek_protected_payload message)
        else report ue sht message
            (unprotect lib message count ue.ciphering_alg ue.integrity_alg ue.knas_enc ue.knas_int)

    -- A plain message.
    abbrev pub plain_response : UeContext → Decoding → Outcome KeyError Downlink
    plain_response ue (ok r) = ok (ue, some r, none)
    plain_response ue (err e) = ok (ue, none, none)
    plain_response ue panic = panic
    plain_response ue stuck = stuck

    unfoldable pub decode_with_header :
        UeContext → List ℕ → Outcome NasError ℕ → Outcome KeyError Downlink
    unfolding enter_context open_downlink
    decode_with_header ue message (ok sht) =
        if sht == lib.sht_plain
        then plain_response ue (nas_decode message)
        else if ltb (length message) 7
        then ok (ue, none, none)
        else let (ue1, count) = Gnb.next_dl ue (byte_at message 6) in
          (enter_context ue1 sht message >>= λ ue2. open_downlink ue2 sht count message)
    decode_with_header ue message _ = ok (ue, none, none)

    unfoldable pub decode_gnb_downlink_nas : UeContext → List ℕ → Outcome KeyError Downlink
    unfolding decode_with_header
    decode_gnb_downlink_nas ue message = decode_with_header ue message (security_header lib message)
