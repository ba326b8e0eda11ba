-- ===== src/Nas/Tests.antt =====
-- The theorems on the NAS security contexts at concrete inputs, with null ciphers and a MAC that
-- repeats the low octet of the count.
use gpp_server.Common.{ℕ, ◌+◌, ◌*◌, ◌/◌, ◌≤◌, ◌≡◌, ◌≢◌, refl, sym, ap, arith, true, none, some}
use gpp_server.Common.{List, [], ◌∷◌, drop, length, ok, ◌==◌}
use gpp_server.Common.Bytes.{u8, u32, byte_at, sub_list, IsByte}
use gpp_server.Common.Text.{text}
use gpp_server.Store.Contexts.{UeContext, UeEpsContext}
use gpp_server.Store.Counts.{next_ul_count, next_dl_count}
use gpp_server.Store.Gnb
use gpp_server.Store.Enb
use gpp_server.Store.Enb.{new_ue_eps_context}
use gpp_server.Store.Fixtures.{plain_ue, eps_opts}
use gpp_server.Nas.Library.{NasLibrary}
use gpp_server.Nas.Security.{protect, unprotect, ciphered, security_header}
use gpp_server.Nas.EpsSecurity.{
  EpsLibrary, Integrity, Cipher, integrity_for, cipher_for, eps_unprotect, unprotect_with,
  eps_security_header,
}
use gpp_server.Nas.GnbContext.{
  UplinkOverrides, encode_gnb_uplink_nas, decode_gnb_downlink_nas, decode_with_header,
  enter_context, open_downlink, report, respond, annotate_gnb_security_header_type,
}
use gpp_server.Nas.EnbContext.{
  decode_enb_downlink_nas, decode_with_eps_header, enter_eps_context, open_eps_downlink, eps_report,
  annotate_enb_security_header_type, eps_dl_sequence_number,
}
use gpp_server.Nas.Uplink.{MacOctets, encode_gnb_uplink_nas_verifies, encode_gnb_uplink_nas_fails}
use gpp_server.Nas.Security.{peek_protected_payload}
use gpp_server.Nas.Types.{NasResponse}
use gpp_server.Nas.Keys.{derive_5g_nas_keys, derive_nas_keys}
use gpp_server.Nas.GnbContext.{establish_gnb_security_context}
use gpp_server.Store.Enb.{zero_key}
use gpp_server.Common.Text.{hex_encode}
use gpp_server.Common.{◌++◌, false, err}
use gpp_server.Nas.Downlink.{
  established, decode_gnb_downlink_nas_verified, decode_gnb_downlink_nas_rekeying,
}
use gpp_server.Nas.EpsUplink.{send_all, protected_from, send_all-protected_from}
use gpp_server.Nas.EpsDownlink.{decode_enb_downlink_nas_verified}

abbrev lib : NasLibrary
lib = record {
  plain_nas_decode = λ plain. some (λ sht. some plain);
  security_header_type = λ message. byte_at message 1;
  nas_encrypt = λ alg key count bearer direction payload. some payload;
  nas_mac = λ alg key count bearer direction payload.
      some (u8 count ∷ count / 256 ∷ count / 256 ∷ count / 256 ∷ []);
  bearer_3gpp = 1;
  direction_uplink = 0;
  direction_downlink = 1;
  epd_mobility_management = 0x7e;
  sht_plain = 0;
  sht_ciphered = 2;
  sht_new_context = 3;
  sht_ciphered_new_context = 4;
  kdf = λ key fc parts. none;
  kdf_len = λ part. 0 ∷ length part ∷ [];
  fc_algorithm = text "69";
}

small : (count : ℕ) → IsByte (u8 count)
small count = omega arith

lib-MacOctets : MacOctets lib
lib-MacOctets alg key count bearer direction payload mac h =
    let same : u8 count ∷ count / 256 ∷ count / 256 ∷ count / 256 ∷ [] ≡ mac = cc in
    (sym (ap length same), omega (arith, ap (λ l. byte_at l 0) same, small count))

-- A UE with a context that has received four messages and sent three.
abbrev ue : UeContext
ue = record (plain_ue (text "1")) { security_active = true; ul_count = 3; dl_count = 4 }

abbrev ue_sent : List ℕ → UeContext
ue_sent p = record ue { ul_count = 4; last_uplink_nas = p }

abbrev uplink : List ℕ
uplink = 0x7e ∷ 2 ∷ 3 ∷ 0 ∷ 0 ∷ 0 ∷ 3 ∷ 0x7e ∷ 0 ∷ 0x43 ∷ []

encode_uplink :
    encode_gnb_uplink_nas lib ue (0x7e ∷ 0 ∷ 0x43 ∷ []) 2 none ≡ (ue_sent uplink, ok uplink)
unfolding encode_gnb_uplink_nas protect ciphered Gnb.next_ul next_ul_count
encode_uplink = refl

encode_gnb_uplink_nas_verifies_example :
    (byte_at uplink 6 ≡ u8 3)
    × (lib.nas_mac 0 ue.knas_int 3 1 0 (drop 6 uplink) ≡ some (sub_list uplink 2 6))
    × (uplink ≡ uplink)
    × (4 ≡ u32 (3 + 1))
encode_gnb_uplink_nas_verifies_example =
    encode_gnb_uplink_nas_verifies lib lib-MacOctets ue (ue_sent uplink) (0x7e ∷ 0 ∷ 0x43 ∷ [])
      uplink 2 none refl encode_uplink

abbrev corrupting : UplinkOverrides
corrupting = record { nas_count_override = none; corrupt_mac = true }

abbrev bad_uplink : List ℕ
bad_uplink = 0x7e ∷ 2 ∷ 252 ∷ 0 ∷ 0 ∷ 0 ∷ 3 ∷ 0x7e ∷ 0 ∷ 0x43 ∷ []

encode_bad_uplink :
    encode_gnb_uplink_nas lib ue (0x7e ∷ 0 ∷ 0x43 ∷ []) 2 (some corrupting)
    ≡ (ue_sent bad_uplink, ok bad_uplink)
unfolding encode_gnb_uplink_nas protect ciphered Gnb.next_ul next_ul_count
encode_bad_uplink = refl

encode_gnb_uplink_nas_fails_example :
    lib.nas_mac 0 ue.knas_int 3 1 0 (drop 6 bad_uplink) ≢ some (sub_list bad_uplink 2 6)
encode_gnb_uplink_nas_fails_example =
    encode_gnb_uplink_nas_fails lib lib-MacOctets ue (ue_sent bad_uplink) (0x7e ∷ 0 ∷ 0x43 ∷ [])
      bad_uplink 2 corrupting refl encode_bad_uplink

abbrev downlink : List ℕ
downlink = 0x7e ∷ 2 ∷ 9 ∷ 0 ∷ 0 ∷ 0 ∷ 9 ∷ 0x7e ∷ 0 ∷ []

decode_downlink :
    decode_gnb_downlink_nas lib (λ sht. []) (λ plain. err tt) ue downlink
    ≡ ok (record ue { dl_count = 9 }, none, some true)
unfolding decode_gnb_downlink_nas decode_with_header security_header enter_context open_downlink
    report unprotect ciphered annotate_gnb_security_header_type respond Gnb.next_dl next_dl_count
decode_downlink = refl

decode_gnb_downlink_nas_verified_example :
    (true ≡ true)
    × (7 ≤ length downlink)
    × (lib.nas_mac 0 ue.knas_int (next_dl_count 4 9) 1 1 (drop 6 downlink)
        ≡ some (sub_list downlink 2 6))
decode_gnb_downlink_nas_verified_example =
    decode_gnb_downlink_nas_verified lib (λ sht. []) (λ plain. err tt) ue
      (record ue { dl_count = 9 }) downlink none decode_downlink

-- A Security Mode Command that selects the algorithms 1 and 2, and a KDF that gives zeros.
abbrev keyed : NasLibrary
keyed = record lib { kdf = λ key fc parts. some (zero_key ++ zero_key) }

abbrev smc : NasResponse
smc = record {
  message_type = text "SecurityModeCommand";
  security_header_type = [];
  rand = [];
  autn = [];
  abba_contents = [];
  ng_ksi = some 0;
  eap_message = [];
  selected_ciphering_algorithm = some 1;
  selected_integrity_algorithm = some 2;
  replayed_ue_security_capabilities = [];
  imeisv_requested = false;
  guti = none;
  tai_list = [];
  pdu_session_status = [];
  pdu_session_id = none;
  pdu_session_type = none;
  ssc_mode = none;
  pdu_address = [];
  pti = none;
  access_type_present = none;
  session_ambr_uplink = none;
  session_ambr_downlink = none;
  authorized_qos_rules = [];
  always_on_indication = none;
  five_gmm_cause = none;
  five_gsm_cause = none;
  identity_type = none;
  configuration_update_ack_requested = false;
  inner_nas_message_type = [];
  raw_hex = [];
}

abbrev command : List ℕ
command = 0x7e ∷ 3 ∷ 5 ∷ 0 ∷ 0 ∷ 0 ∷ 5 ∷ 0x7e ∷ 0 ∷ 0x5d ∷ []

abbrev rekeyed : UeContext
rekeyed = established keyed (λ sht. []) (λ plain. ok smc) ue 1 2 zero_key zero_key

abbrev reported : NasResponse
reported = record smc { raw_hex = hex_encode command }

decode_command :
    decode_gnb_downlink_nas keyed (λ sht. []) (λ plain. ok smc) ue command
    ≡ ok (rekeyed, some reported, some true)
unfolding decode_gnb_downlink_nas decode_with_header security_header enter_context open_downlink
    report unprotect ciphered annotate_gnb_security_header_type respond Gnb.next_dl next_dl_count
    peek_protected_payload establish_gnb_security_context derive_5g_nas_keys derive_nas_keys
    hex_encode
decode_command = refl

command_header : security_header keyed command ≡ ok 3
unfolding security_header
command_header = refl

command_inside : peek_protected_payload command ≡ ok (drop 7 command)
unfolding peek_protected_payload
command_inside = refl

command_keys : derive_5g_nas_keys keyed ue.kamf 1 2 ≡ ok (zero_key, zero_key)
unfolding derive_5g_nas_keys derive_nas_keys
command_keys = refl

decode_gnb_downlink_nas_rekeying_example :
    (rekeyed ≡ rekeyed)
    × (count : ℕ) × (4 ≤ count)
    × (u8 count ≡ 5)
    × (lib.nas_mac 2 zero_key count 1 1 (drop 6 command) ≡ some (sub_list command 2 6))
decode_gnb_downlink_nas_rekeying_example =
    decode_gnb_downlink_nas_rekeying keyed (λ sht. []) (λ plain. ok smc) ue rekeyed 3 command
      (drop 7 command) smc 1 2 zero_key zero_key (some reported) (omega arith) (omega arith)
      command_header refl command_inside refl refl refl command_keys decode_command

abbrev eps : EpsLibrary
eps = record {
  pd_emm = 7;
  sht_plain = 0;
  sht_integrity_protected_new_context = 3;
  sht_integrity_protected_ciphered_new = 4;
  direction_uplink = 0;
  direction_downlink = 1;
  parse_payload = λ message. some (drop 6 message);
  protect_message =
      λ plain sht count direction kint kenc integ ciph. some (sht * 16 ∷ u8 count ∷ plain);
  unprotect_message = λ message count direction kint kenc integ ciph.
      (some (drop 6 message), byte_at message 1 == u8 count);
}

abbrev eps_ue : UeEpsContext
eps_ue = record (new_ue_eps_context (text "1") 1 eps_opts) {
  security_active = true;
  ul_count = 254;
  dl_count = 4;
  ciphering_alg = 0;
  integrity_alg = 0;
}

abbrev messages : List (List ℕ × ℕ)
messages = (7 ∷ [], 1) ∷ (8 ∷ [], 2) ∷ (9 ∷ [], 2) ∷ []

send_all-protected_from_example :
    send_all lib eps eps_ue messages
    ≡ (record eps_ue { ul_count = 254 + 3 }, protected_from lib eps eps_ue 254 messages)
send_all-protected_from_example = send_all-protected_from lib eps eps_ue messages refl (omega arith)

abbrev eps_downlink : List ℕ
eps_downlink = 0x27 ∷ 9 ∷ 0 ∷ 0 ∷ 0 ∷ 9 ∷ 7 ∷ 0x42 ∷ []

decode_eps_downlink :
    decode_enb_downlink_nas lib eps (λ sht. []) (λ plain. none) eps_ue eps_downlink
    ≡ ok (record eps_ue { dl_count = 9 }, none, some true)
unfolding decode_enb_downlink_nas decode_with_eps_header eps_security_header enter_eps_context
    open_eps_downlink eps_report eps_unprotect unprotect_with integrity_for cipher_for
    annotate_enb_security_header_type eps_dl_sequence_number Enb.next_dl next_dl_count
decode_eps_downlink = refl

decode_enb_downlink_nas_verified_example :
    (6 ≤ length eps_downlink)
    × (true ≡ true)
    × (integ : Integrity) × (ciph : Cipher) × (plain : List ℕ) × (integrity_for 0 ≡ ok integ)
    × (cipher_for 0 ≡ ok ciph)
    × (eps.unprotect_message eps_downlink
          (next_dl_count 4 (byte_at eps_downlink 5))
          1
          eps_ue.knas_int
          eps_ue.knas_enc
          integ
          ciph
        ≡ (some plain, true))
decode_enb_downlink_nas_verified_example =
    decode_enb_downlink_nas_verified lib eps (λ sht. []) (λ plain. none) eps_ue
      (record eps_ue { dl_count = 9 }) eps_downlink none decode_eps_downlink
