-- ===== src/Identity/Suci.antt =====
-- internal/crypto/suci.go and suci_encode.go: SUPI, SUCI and the ECIES profiles. `CryptoLibrary`
-- holds what they take from Go's crypto packages and from regexp; an error of theirs is `none`.
use gpp_server.Common.{ℕ, ◌+◌, ◌-◌, ◌*◌, ◌/◌, ◌%◌, zero, suc, not, ◌&&◌, ◌||◌, Option, none, some}
use gpp_server.Common.{List, [], ◌∷◌, ◌++◌, Outcome, ok, err, panic, stuck, ◌>>=◌}
use gpp_server.Common.{ltb, ◌==◌, if◌then◌else◌, length, get_or, take, drop}
use gpp_server.Common.Bytes.{u8, put_uint32}
use gpp_server.Common.Maps.{bytes_beq}
use gpp_server.Common.Text.{GoString, text, hex_encode, hex_decode}
use gpp_server.Identity.Plmn.{PlmnError, get_mcc_and_mnc_in_octets}

pub data SuciError : Type 0 where
  supi_too_short supi_prefix imsi_too_short : SuciError
  bad_scheme bad_key_id scheme_output_hex supi_length unsupported_scheme : SuciError
  key_generation ecdh_failed unmarshal_failed bad_tbcd aes_failed : SuciError
  plmn_error : PlmnError → SuciError
  bad_routing_indicator routing_indicator_length : SuciError

-- A fresh private key: its public key, and `ECDH` with another public key.
pub record EphemeralKey : Type 0 where
  pub public_key : List ℕ
  pub ecdh : List ℕ → Option (List ℕ)

pub record CryptoLibrary : Type 0 where
  pub generate_x25519 : Option EphemeralKey
  pub generate_p256 : Option EphemeralKey
  -- `elliptic.Unmarshal` and `MarshalCompressed`: a P-256 point to its compressed form.
  pub compress_p256 : List ℕ → Option (List ℕ)
  pub new_x25519_public_key : List ℕ → Option (List ℕ)
  pub new_p256_public_key : List ℕ → Option (List ℕ)
  -- A compressed P-256 point to its uncompressed form.
  pub decompress_p256 : List ℕ → Option (List ℕ)
  pub sha256 : List ℕ → List ℕ
  pub hmac_sha256 : List ℕ → List ℕ → List ℕ
  -- The key, the initial counter block, the input.
  pub aes_ctr : List ℕ → List ℕ → List ℕ → Option (List ℕ)
  -- `suciRegex.FindStringSubmatch`: the match and its nine groups.
  pub suci_submatch : GoString → Option (List GoString)

pub record HomeNetworkPublicKey : Type 0 where
  pub protection_scheme : GoString
  pub public_key : Option (List ℕ)
  pub public_key_id : GoString

pub record Suci : Type 0 where
  pub supi_type : GoString
  pub mcc : GoString
  pub mnc : GoString
  pub routing_indicator : GoString
  pub protection_scheme : GoString
  pub public_key_id : GoString
  pub scheme_output : GoString
  pub raw : GoString

abbrev pub or_suci_error {ℓ} : {A : Type ℓ} → SuciError → Option A → Outcome SuciError A
or_suci_error e none = err e
or_suci_error e (some a) = ok a

abbrev pub from_plmn {ℓ} : {A : Type ℓ} → Outcome PlmnError A → Outcome SuciError A
from_plmn (ok a) = ok a
from_plmn (err e) = err (plmn_error e)
from_plmn panic = panic
from_plmn stuck = stuck

-- The MCC, the MNC and the MSIN.
unfoldable pub parse_supi : GoString → ℕ → Outcome SuciError (GoString × GoString × GoString)
parse_supi supi mnc_length =
    if ltb (length supi) 15
    then err supi_too_short
    else if not (bytes_beq (take 5 supi) (text "imsi-"))
    then err supi_prefix
    else if ltb (length (drop 5 supi)) 15
    then err imsi_too_short
    else let n = if ltb mnc_length 2 || ltb 3 mnc_length then 2 else mnc_length in
      ok (take 3 (drop 5 supi), take n (drop 3 (drop 5 supi)), drop n (drop 3 (drop 5 supi)))

abbrev pub swap_pairs : GoString → GoString
swap_pairs [] = []
swap_pairs (a ∷ []) = a ∷ []
swap_pairs (a ∷ b ∷ s) = b ∷ a ∷ swap_pairs s

abbrev pub pad_even : GoString → GoString
pad_even s = if length s % 2 == 0 then s else s ++ (b'F' ∷ [])

-- The last byte goes if it is the filler; an empty string has none, which is a panic.
abbrev pub drop_filler : GoString → GoString
drop_filler s =
    let last = get_or s (length s - 1) 0 in
    if last == b'F' || last == b'f' then take (length s - 1) s else s

unfoldable pub tbcd : GoString → Outcome SuciError GoString
tbcd [] = panic
tbcd (c ∷ s) = ok (drop_filler (swap_pairs (pad_even (c ∷ s))))

-- `strconv.ParseUint(s, 10, 8)`.
unfoldable pub decimal_from : ℕ → GoString → Option ℕ
decimal_from acc [] = some acc
decimal_from acc (c ∷ s) =
    if ltb c b'0' || ltb b'9' c || ltb 255 acc then none else decimal_from (acc * 10 + (c - b'0')) s

abbrev pub below_256 : Option ℕ → Option ℕ
below_256 none = none
below_256 (some n) = if ltb n 256 then some n else none

unfoldable pub parse_uint8 : GoString → Option ℕ
unfolding decimal_from
parse_uint8 [] = none
parse_uint8 (c ∷ s) = below_256 (decimal_from 0 (c ∷ s))

abbrev pub pad_four : ℕ → GoString
pad_four zero = b'F' ∷ b'F' ∷ b'F' ∷ b'F' ∷ []
pad_four (suc zero) = b'F' ∷ b'F' ∷ b'F' ∷ []
pad_four (suc (suc zero)) = b'F' ∷ b'F' ∷ []
pad_four (suc (suc (suc zero))) = b'F' ∷ []
pad_four (suc (suc (suc (suc n)))) = []

unfoldable pub get_routing_indicator_in_octets : GoString → Outcome SuciError (List ℕ)
get_routing_indicator_in_octets routing_indicator =
    let ri = if length routing_indicator == 0 then text "0" else routing_indicator in
    if ltb 4 (length ri)
    then err routing_indicator_length
    else or_suci_error bad_routing_indicator (hex_decode (swap_pairs (ri ++ pad_four (length ri))))

unfoldable pub derive_snn : GoString → GoString → GoString
derive_snn mcc mnc =
    if length mnc == 2
    then text "5G:mnc0" ++ (mnc ++ (text ".mcc" ++ (mcc ++ text ".3gppnetwork.org")))
    else text "5G:mnc" ++ (mnc ++ (text ".mcc" ++ (mcc ++ text ".3gppnetwork.org")))

abbrev pub dashed : List GoString → GoString
dashed [] = []
dashed (s ∷ []) = s
dashed (s ∷ t ∷ rest) = s ++ (b'-' ∷ dashed (t ∷ rest))

-- `suciBuffer[8:]` is in range for what `EncodeSuci` returns.
unfoldable pub build_suci_string :
    GoString → GoString → GoString → GoString → GoString → List ℕ → GoString
build_suci_string mcc mnc routing_indicator prot_scheme pub_key_id suci_buffer = dashed (
    text "suci-0"
    ∷ mcc
    ∷ mnc
    ∷ routing_indicator
    ∷ prot_scheme
    ∷ pub_key_id
    ∷ hex_encode (drop 8 suci_buffer)
    ∷ [])

module _ (lib : CryptoLibrary) where
  unfoldable pub parse_suci : GoString → Option Suci
  parse_suci input = elim (lib.suci_submatch input) [
    | none ↦ none
    | some m ↦ some (record {
      supi_type = get_or m 1 [];
      mcc = get_or m 3 [];
      mnc = get_or m 4 [];
      routing_indicator = get_or m 6 [];
      protection_scheme = get_or m 7 [];
      public_key_id = get_or m 8 [];
      scheme_output = get_or m 9 [];
      raw = input;
    })
  ]

  abbrev pub kdf_rounds : ℕ → ℕ → List ℕ → List ℕ → List ℕ
  kdf_rounds zero counter shared_key public_key = []
  kdf_rounds (suc n) counter shared_key public_key =
      lib.sha256 (shared_key ++ (put_uint32 counter ++ public_key))
      ++ kdf_rounds n (counter + 1) shared_key public_key

  -- The number of rounds is the quotient rounded up.
  unfoldable pub ansi_x963_kdf : List ℕ → List ℕ → ℕ → ℕ → ℕ → List ℕ
  ansi_x963_kdf shared_key public_key enc_key_len mac_key_len hash_len =
      kdf_rounds ((enc_key_len + mac_key_len + hash_len - 1) / hash_len) 1 shared_key public_key

  -- What the two profiles have in common once the shared key is there. The KDF gives 64 octets.
  unfoldable pub ecies : GoString → List ℕ → List ℕ → Outcome SuciError GoString
  unfolding tbcd ansi_x963_kdf
  ecies msin ephemeral_pub shared_key = do
    digits ← tbcd msin
    plain_bcd ← or_suci_error bad_tbcd (hex_decode digits)
    let kdf_key = ansi_x963_kdf shared_key ephemeral_pub 16 32 32
    let enc_key = take 16 kdf_key
    let iv = take 16 (drop 16 kdf_key)
    let mac_key = drop (length kdf_key - 32) kdf_key
    cipher_text ← or_suci_error aes_failed (lib.aes_ctr enc_key iv plain_bcd)
    let mac = take 8 (lib.hmac_sha256 mac_key cipher_text)
    ok (hex_encode (ephemeral_pub ++ (cipher_text ++ mac)))

  -- `ECDH` reads a field of the other key, so without one it panics.
  abbrev pub agree_key : EphemeralKey → Option (List ℕ) → Outcome SuciError (List ℕ)
  agree_key key none = panic
  agree_key key (some public_key) = or_suci_error ecdh_failed (key.ecdh public_key)

  unfoldable pub profile_a_encrypt : GoString → Option (List ℕ) → Outcome SuciError GoString
  unfolding ecies
  profile_a_encrypt msin hn_pubkey = do
    key ← or_suci_error key_generation lib.generate_x25519
    shared_key ← agree_key key hn_pubkey
    ecies msin key.public_key shared_key

  unfoldable pub profile_b_encrypt : GoString → Option (List ℕ) → Outcome SuciError GoString
  unfolding ecies
  profile_b_encrypt msin hn_pubkey = do
    key ← or_suci_error key_generation lib.generate_p256
    shared_key ← agree_key key hn_pubkey
    compressed ← or_suci_error unmarshal_failed (lib.compress_p256 key.public_key)
    ecies msin compressed shared_key

  unfoldable pub cipher_suci :
      GoString
      → GoString
      → GoString
      → GoString
      → HomeNetworkPublicKey
      → Outcome SuciError (Option Suci)
  unfolding profile_a_encrypt profile_b_encrypt parse_suci
  cipher_suci msin mcc mnc routing_indicator profile =
      if ltb (length msin + length mcc + length mnc) 14 then err supi_length else do
        scheme_output ←
            if bytes_beq profile.protection_scheme (text "0")
            then ok msin
            else if bytes_beq profile.protection_scheme (text "1")
            then profile_a_encrypt msin profile.public_key
            else if bytes_beq profile.protection_scheme (text "2")
            then profile_b_encrypt msin profile.public_key
            else err unsupported_scheme
        ok (
            parse_suci (
              dashed (
                text "suci"
                ∷ text "0"
                ∷ mcc
                ∷ mnc
                ∷ routing_indicator
                ∷ profile.protection_scheme
                ∷ profile.public_key_id
                ∷ scheme_output
                ∷ [])))

  -- `suci.SchemeOutput` through a nil pointer is a panic.
  abbrev pub scheme_output_of : Option Suci → Outcome SuciError GoString
  scheme_output_of none = panic
  scheme_output_of (some suci) = ok suci.scheme_output

  abbrev pub encode_scheme_output :
      ℕ
      → GoString
      → GoString
      → GoString
      → GoString
      → HomeNetworkPublicKey
      → Outcome SuciError (List ℕ)
  unfolding tbcd cipher_suci
  encode_scheme_output prot_scheme msin mcc mnc routing_indicator hn_pub_key =
      if prot_scheme == 0
      then (tbcd msin >>= λ digits. or_suci_error bad_tbcd (hex_decode digits))
      else do
        suci ← cipher_suci msin mcc mnc routing_indicator hn_pub_key
        scheme_output ← scheme_output_of suci
        or_suci_error scheme_output_hex (hex_decode scheme_output)

  -- The PLMN has three octets and the routing indicator two, which fill octets 1 to 5.
  unfoldable pub encode_suci :
      GoString → GoString → GoString → GoString → HomeNetworkPublicKey → Outcome SuciError (List ℕ)
  unfolding parse_uint8 encode_scheme_output get_mcc_and_mnc_in_octets
      get_routing_indicator_in_octets
  encode_suci msin mcc mnc routing_indicator hn_pub_key = do
    prot_scheme ← or_suci_error bad_scheme (parse_uint8 hn_pub_key.protection_scheme)
    hn_pub_key_id ← or_suci_error bad_key_id (parse_uint8 hn_pub_key.public_key_id)
    scheme_output ← encode_scheme_output prot_scheme msin mcc mnc routing_indicator hn_pub_key
    plmn_id ← from_plmn (get_mcc_and_mnc_in_octets mcc mnc)
    routing_ind ← get_routing_indicator_in_octets routing_indicator
    ok (1 ∷ (plmn_id ++ (routing_ind ++ (u8 prot_scheme ∷ u8 hn_pub_key_id ∷ scheme_output))))

  unfoldable pub parse_x25519_public_key : List ℕ → Option (List ℕ)
  parse_x25519_public_key raw = lib.new_x25519_public_key raw

  abbrev pub new_p256 : Option (List ℕ) → Option (List ℕ)
  new_p256 none = none
  new_p256 (some raw) = lib.new_p256_public_key raw

  unfoldable pub parse_p256_public_key : List ℕ → Option (List ℕ)
  parse_p256_public_key raw =
      if length raw == 33 && (get_or raw 0 0 == 2 || get_or raw 0 0 == 3)
      then new_p256 (lib.decompress_p256 raw)
      else lib.new_p256_public_key raw
