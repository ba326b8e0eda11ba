-- ===== src/Identity/Tests.antt =====
-- The theorems on identities and AKA at concrete inputs, with a library that derives fixed keys.
use gpp_server.Common.{ℕ, ◌≡◌, refl, none, some, List, [], ◌∷◌, ◌++◌, length, drop, ok}
use gpp_server.Common.Text.{GoString, text, hex_decode, hex_value}
use gpp_server.Identity.Suci.{derive_snn}
use gpp_server.Identity.Plmn.{tbcd_plmn, digits}
use gpp_server.Identity.Aka.{
  AkaLibrary, MilenageKeys, after, check_autn, derive_kamf, compute_res_star, compute_5g_aka,
  compute_eps_aka,
}
use gpp_server.Common.{arith, inl}
use gpp_server.Identity.Agree.{Agree, encode_plmn-Agree}
use gpp_server.Identity.Fresh.{Accepted, compute_5g_aka-Accepted, compute_eps_aka-Accepted}

abbrev keys : MilenageKeys
keys = record { sqn_hn = 0 ∷ 0 ∷ 0 ∷ 0 ∷ 1 ∷ 0 ∷ []; ik = 1 ∷ []; ck = 2 ∷ []; res = 3 ∷ [] }

abbrev lib : AkaLibrary
lib = record {
  generate_keys_with_autn = λ opc k rand autn. some keys;
  generate_auts = λ opc k rand sqn. none;
  kdf = λ key fc parts. some (4 ∷ 5 ∷ []);
  kdf_len = λ part. 0 ∷ length part ∷ [];
  fc_res_star = text "6B";
  fc_kausf = text "6A";
  fc_kseaf = text "6C";
  fc_kamf = text "6D";
  supi_digits = λ supi. some (drop 5 supi);
}

abbrev key_text : GoString
key_text = text "00ff"

abbrev autn_octets : List ℕ
autn_octets = 0 ∷ 0 ∷ 0 ∷ 0 ∷ 1 ∷ 0 ∷ 0x80 ∷ []

aka_5g :
    compute_5g_aka lib key_text key_text
      (text "0000000000ff")
      (text "imsi-001010000000001")
      (text "001")
      (text "01")
      (9 ∷ [])
      autn_octets
    ≡ ok (record { res_star = 5 ∷ []; kamf = 4 ∷ 5 ∷ [] })
unfolding compute_5g_aka check_autn derive_kamf compute_res_star derive_snn after hex_decode
    hex_value
aka_5g = refl

aka_eps :
    compute_eps_aka lib key_text key_text
      (text "0000000000ff")
      (text "001")
      (text "01")
      (9 ∷ [])
      autn_octets
    ≡ ok (record { res = 3 ∷ []; kasme = 4 ∷ 5 ∷ [] })
unfolding compute_eps_aka check_autn after hex_decode hex_value tbcd_plmn digits
aka_eps = refl

compute_5g_aka-Accepted_example :
    (made : MilenageKeys) × (Accepted lib key_text key_text
      (text "0000000000ff")
      (9 ∷ [])
      autn_octets
      made)
    × (compute_res_star lib
          (made.ck ++ made.ik)
          (derive_snn (text "001") (text "01"))
          (9 ∷ [])
          made.res
        ≡ ok (5 ∷ []))
compute_5g_aka-Accepted_example =
    compute_5g_aka-Accepted lib key_text key_text (text "0000000000ff")
      (text "imsi-001010000000001") (text "001") (text "01") (9 ∷ []) autn_octets
      (record { res_star = 5 ∷ []; kamf = 4 ∷ 5 ∷ [] }) aka_5g

compute_eps_aka-Accepted_example :
    (made : MilenageKeys) × (Accepted lib key_text key_text
      (text "0000000000ff")
      (9 ∷ [])
      autn_octets
      made)
    × (3 ∷ [] ≡ made.res)
compute_eps_aka-Accepted_example =
    compute_eps_aka-Accepted lib key_text key_text (text "0000000000ff") (text "001") (text "01")
      (9 ∷ []) autn_octets (record { res = 3 ∷ []; kasme = 4 ∷ 5 ∷ [] }) aka_eps

encode_plmn-Agree_example : (octets : List ℕ) × Agree (text "001") (text "01") octets
encode_plmn-Agree_example =
    encode_plmn-Agree (text "001") (text "01") (ground arith, (ground arith, (ground arith, tt)))
      (ground arith, (ground arith, tt)) refl (inl refl)
