-- ===== src/Identity/NewUe.antt =====
-- `NewUEContext` of internal/store/gnb_ue_context.go.
use gpp_server.Common.{ℕ, Bool, true, false, ◌||◌, Option, none, some}
use gpp_server.Common.{List, [], ◌∷◌, Outcome, ok, err, panic, stuck, ◌>>=◌, if◌then◌else◌}
use gpp_server.Common.Maps.{bytes_beq}
use gpp_server.Common.Text.{GoString, text, hex_decode}
use gpp_server.Store.Contexts.{UeContext}
use gpp_server.Store.Enb.{zero_key}
use gpp_server.Identity.Suci.{
  CryptoLibrary, SuciError, parse_supi, parse_x25519_public_key, parse_p256_public_key, encode_suci,
  build_suci_string,
}

pub record CreateUeOpts : Type 0 where
  pub supi : GoString
  pub k : GoString
  pub opc : GoString
  pub amf : GoString
  pub sqn : GoString
  pub sst : ℕ
  pub sd : GoString
  pub dnn : GoString
  pub routing_indicator : GoString
  pub protection_scheme : GoString
  pub public_key_id : GoString
  pub public_key_hex : GoString
  pub pdu_session_id : ℕ
  pub pdu_session_type : ℕ
  pub imeisv : GoString
  pub ue_security_capability : GoString

pub data NewUeError : Type 0 where
  suci_error : SuciError → NewUeError
  bad_public_key_hex bad_x25519 bad_p256 bad_capability : NewUeError

abbrev pub or_ue_error {ℓ} : {A : Type ℓ} → NewUeError → Option A → Outcome NewUeError A
or_ue_error e none = err e
or_ue_error e (some a) = ok a

abbrev pub from_suci {ℓ} : {A : Type ℓ} → Outcome SuciError A → Outcome NewUeError A
from_suci (ok a) = ok a
from_suci (err e) = err (suci_error e)
from_suci panic = panic
from_suci stuck = stuck

abbrev pub or_default : GoString → GoString → GoString
or_default [] d = d
or_default (c ∷ s) d = c ∷ s

-- `nas5gs.DefaultUESecurityCapability`
abbrev pub default_ue_security_capability : List ℕ
default_ue_security_capability = 0xe0 ∷ 0xe0 ∷ []

abbrev pub is_empty : GoString → Bool
is_empty [] = true
is_empty (c ∷ s) = false

module _ (lib : CryptoLibrary) where
  -- The home network's public key, where there is a scheme and the hex of a key.
  unfoldable pub home_network_key : GoString → GoString → Outcome NewUeError (Option (List ℕ))
  unfolding parse_x25519_public_key parse_p256_public_key
  home_network_key prot_scheme public_key_hex =
      if bytes_beq prot_scheme (text "0") || is_empty public_key_hex then ok none else do
        raw ← or_ue_error bad_public_key_hex (hex_decode public_key_hex)
        if bytes_beq prot_scheme (text "1")
            then (or_ue_error bad_x25519 (parse_x25519_public_key lib raw) >>= λ k. ok (some k))
            else if bytes_beq prot_scheme (text "2")
            then (or_ue_error bad_p256 (parse_p256_public_key lib raw) >>= λ k. ok (some k))
            else ok none

  unfoldable pub new_ue_context : GoString → ℕ → ℕ → CreateUeOpts → Outcome NewUeError UeContext
  unfolding parse_supi home_network_key encode_suci build_suci_string
  new_ue_context id ran_ue_ngap_id mnc_length opts = do
    (mcc, mnc, msin) ← from_suci (parse_supi opts.supi mnc_length)
    let prot_scheme = or_default opts.protection_scheme (text "0")
    let pub_key_id = or_default opts.public_key_id (text "0")
    let routing_ind = or_default opts.routing_indicator (text "0")
    public_key ← home_network_key prot_scheme opts.public_key_hex
    suci_buffer ← from_suci (
        encode_suci lib msin mcc mnc routing_ind (record {
          protection_scheme = prot_scheme;
          public_key = public_key;
          public_key_id = pub_key_id;
        }))
    cap_buf ←
        if is_empty opts.ue_security_capability
        then ok default_ue_security_capability
        else or_ue_error bad_capability (hex_decode opts.ue_security_capability)
    ok (record {
      id = id;
      supi = opts.supi;
      msin = msin;
      mcc = mcc;
      mnc = mnc;
      routing_indicator = routing_ind;
      k = opts.k;
      opc = opts.opc;
      amf = or_default opts.amf (text "8000");
      sqn = or_default opts.sqn (text "000000000000");
      protection_scheme = prot_scheme;
      public_key_id = pub_key_id;
      public_key_hex = opts.public_key_hex;
      suci = suci_buffer;
      suci_string = build_suci_string mcc mnc routing_ind prot_scheme pub_key_id suci_buffer;
      ran_ue_ngap_id = ran_ue_ngap_id;
      amf_ue_ngap_id = 0;
      ue_security_capability = cap_buf;
      ciphering_alg = 0;
      integrity_alg = 0;
      knas_enc = zero_key;
      knas_int = zero_key;
      kamf = [];
      ng_ksi = 0;
      ul_count = 0;
      dl_count = 0;
      security_active = false;
      last_uplink_nas = [];
      rand = [];
      autn = [];
      dnn = opts.dnn;
      pdu_session_id = opts.pdu_session_id;
      pdu_session_type = opts.pdu_session_type;
      sst = opts.sst;
      sd = opts.sd;
      pdu_sessions = [];
      guti = none;
      imeisv = opts.imeisv;
    })
