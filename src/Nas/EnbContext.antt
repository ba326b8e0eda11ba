-- ===== src/Nas/EnbContext.antt =====
-- internal/api/enb_security.go: the security context of an EPS UE. `nas_decode` is
-- `naseps.Decode`, which returns a response or an error and never both, and `sht_string` the name
-- that it prints for a security header type; nothing is assumed of either.
use gpp_server.Common.{ℕ, bit_xor, Bool, true, not, ◌&&◌, ◌||◌, Option, none, some, List, ◌∷◌}
use gpp_server.Common.{Outcome, ok, err, panic, stuck, ◌>>=◌, ltb, leb, ◌==◌, if◌then◌else◌, length}
use gpp_server.Common.Bytes.{u8, byte_at}
use gpp_server.Common.Text.{GoString}
use gpp_server.Store.Contexts.{UeEpsContext}
use gpp_server.Store.Enb
use gpp_server.Nas.Library.{NasLibrary}
use gpp_server.Nas.EpsTypes.{EpsNasResponse}
use gpp_server.Nas.EpsSecurity.{
  EpsLibrary, EpsError, eps_security_header, eps_peek_protected_payload, eps_protect, eps_unprotect,
}
use gpp_server.Nas.Keys.{KeyError, derive_eps_nas_keys}
use gpp_server.Nas.GnbContext.{UplinkOverrides, count_of}

pub data EpsUplinkError : Type 0 where
  no_eps_security_context : EpsUplinkError
  eps_nas_error : EpsError → EpsUplinkError

-- `protected[1] ^= 0xff`, where it is asked for and there is a MAC.
abbrev pub eps_corrupt : List ℕ → List ℕ
eps_corrupt (a ∷ b ∷ p) = a ∷ bit_xor b 0xff ∷ p
eps_corrupt p = p

abbrev pub eps_corrupted : Option UplinkOverrides → List ℕ → List ℕ
eps_corrupted none p = p
eps_corrupted (some r) p = if r.corrupt_mac && leb 6 (length p) then eps_corrupt p else p

abbrev pub finish_eps_uplink :
    Option UplinkOverrides → Outcome EpsError (List ℕ) → Outcome EpsUplinkError (List ℕ)
finish_eps_uplink req (ok p) = ok (eps_corrupted req p)
finish_eps_uplink req (err e) = err (eps_nas_error e)
finish_eps_uplink req panic = panic
finish_eps_uplink req stuck = stuck

-- The sequence number stands behind a one-octet header and the MAC.
unfoldable pub eps_dl_sequence_number : List ℕ → ℕ
eps_dl_sequence_number message = if leb (length message) 5 then 0 else byte_at message 5

-- A response, and whether the downlink was integrity checked.
abbrev pub EpsDownlink : Type 0
EpsDownlink = UeEpsContext × Option EpsNasResponse × Option Bool

module _ (lib : NasLibrary) (eps : EpsLibrary) where
  -- The UE is changed whether the call succeeds or not.
  unfoldable pub encode_enb_uplink_nas :
      UeEpsContext
      → List ℕ
      → ℕ
      → Option UplinkOverrides
      → UeEpsContext × Outcome EpsUplinkError (List ℕ)
  encode_enb_uplink_nas ue plain sht req =
      if not ue.security_active && length ue.kasme == 0
      then (ue, err no_eps_security_context)
      else let (ue2, next) = Enb.next_ul ue in
        (
          ue2,
          finish_eps_uplink req (
              eps_protect eps plain sht (count_of req next) ue2.ciphering_alg ue2.integrity_alg
                ue2.knas_enc ue2.knas_int),
        )

  -- The algorithms are set even if the keys cannot be derived.
  unfoldable pub establish_enb_security_context :
      UeEpsContext → Option EpsNasResponse → Outcome KeyError UeEpsContext
  establish_enb_security_context ue none = ok ue
  establish_enb_security_context ue (some smc) = elim smc.selected_ciphering_algorithm [
    | none ↦ ok ue
    | some c ↦ elim smc.selected_integrity_algorithm [
      | none ↦ ok ue
      | some i ↦
          let ue1 = record ue { ciphering_alg = u8 c; integrity_alg = u8 i } in
          elim (derive_eps_nas_keys lib ue1.kasme (u8 c) (u8 i)) [
            | ok keys ↦ ok (record ue1 {
              knas_enc = keys.0;
              knas_int = keys.1;
              ul_count = 0;
              dl_count = 0;
              security_active = true;
            })
            | err e ↦ ok ue1
            | panic ↦ panic
            | stuck ↦ stuck
          ]
    ]
  ]

  module _ (sht_string : ℕ → GoString) (nas_decode : List ℕ → Option EpsNasResponse) where
    unfoldable pub annotate_enb_security_header_type :
        Option EpsNasResponse → List ℕ → Option EpsNasResponse
    annotate_enb_security_header_type none downlink = none
    annotate_enb_security_header_type (some r) downlink = elim (eps_security_header eps downlink) [
      | ok sht ↦ some (record r { security_header_type = sht_string sht })
      | _ ↦ some r
    ]

    abbrev pub is_new_eps_context : ℕ → Bool
    is_new_eps_context sht =
        sht == eps.sht_integrity_protected_new_context
        || sht == eps.sht_integrity_protected_ciphered_new

    -- A Security Mode Command under a new-context header establishes the context.
    unfoldable pub enter_eps_context : UeEpsContext → ℕ → List ℕ → Outcome KeyError UeEpsContext
    unfolding establish_enb_security_context
    enter_eps_context ue sht message =
        if is_new_eps_context sht
        then elim (eps_peek_protected_payload eps message) [
          | ok inner ↦ elim (nas_decode inner) [
            | some smc ↦ establish_enb_security_context ue (some smc)
            | none ↦ ok ue
          ]
          | err e ↦ ok ue
          | panic ↦ panic
          | stuck ↦ stuck
        ]
        else ok ue

    unfoldable pub eps_report : UeEpsContext → List ℕ → Option (List ℕ) × Bool → EpsDownlink
    unfolding annotate_enb_security_header_type
    eps_report ue message (none, verified) = (ue, none, none)
    eps_report ue message (some inner, verified) =
        (ue, annotate_enb_security_header_type (nas_decode inner) message, some verified)

    unfoldable pub eps_report_peeked :
        UeEpsContext → List ℕ → Outcome EpsError (List ℕ) → EpsDownlink
    unfolding annotate_enb_security_header_type
    eps_report_peeked ue message (ok inner) =
        (ue, annotate_enb_security_header_type (nas_decode inner) message, none)
    eps_report_peeked ue message _ = (ue, none, none)

    -- The rest, for a protected message in the context that is in force now.
    unfoldable pub open_eps_downlink : UeEpsContext → ℕ → List ℕ → EpsDownlink
    unfolding eps_report eps_report_peeked
    open_eps_downlink ue count message =
        if not ue.security_active
        then eps_report_peeked ue message (eps_peek_protected_payload eps message)
        else eps_report ue message (
            eps_unprotect eps message count ue.ciphering_alg ue.integrity_alg ue.knas_enc
              ue.knas_int)

    unfoldable pub decode_with_eps_header :
        UeEpsContext → List ℕ → Outcome EpsError ℕ → Outcome KeyError EpsDownlink
    unfolding enter_eps_context open_eps_downlink
    decode_with_eps_header ue message (ok sht) =
        if sht == eps.sht_plain
        then ok (ue, annotate_enb_security_header_type (nas_decode message) message, none)
        else if ltb (length message) 6
        then ok (ue, none, none)
        else let (ue1, count) = Enb.next_dl ue (eps_dl_sequence_number message) in
          (enter_eps_context ue1 sht message >>= λ ue2. ok (open_eps_downlink ue2 count message))
    decode_with_eps_header ue message _ = ok (ue, none, none)

    unfoldable pub decode_enb_downlink_nas : UeEpsContext → List ℕ → Outcome KeyError EpsDownlink
    unfolding decode_with_eps_header
    decode_enb_downlink_nas ue message =
        decode_with_eps_header ue message (eps_security_header eps message)
