-- ===== src/Nas/Security.antt =====
-- internal/nas5gs/security.go: the 5GS NAS security wrapper, over the NAS library.
use gpp_server.Common.{◌≡◌, ℕ, bit_and, Bool, ◌||◌, Option, none, some, List, ◌∷◌, ◌++◌, drop}
use gpp_server.Common.{Outcome, ok, err, ◌>>=◌, ltb, ◌==◌, if◌then◌else◌, length}
use gpp_server.Common.Bytes.{u8, sub_list}
use gpp_server.Common.Maps.{bytes_beq}
use gpp_server.Nas.Library.{NasLibrary}

pub data NasError : Type 0 where
  pdu_too_short secured_too_short plain_decode_failed plain_encode_failed : NasError
  encrypt_failed mac_failed decrypt_failed mac_mismatch : NasError

abbrev pub or_error {ℓ} : {A : Type ℓ} → NasError → Option A → Outcome NasError A
or_error e none = err e
or_error e (some a) = ok a

pub or_error-ok {ℓ} :
    {A : Type ℓ} (e : NasError) (o : Option A) (a : A) → or_error e o ≡ ok a → o ≡ some a
or_error-ok e none a h = absurd cc
or_error-ok e (some b) a h = cc

unfoldable pub peek_protected_payload : List ℕ → Outcome NasError (List ℕ)
peek_protected_payload message =
    if ltb (length message) 7 then err secured_too_short else ok (drop 7 message)

-- The recovered message and the error; on a MAC mismatch there are both.
abbrev pub Unprotected : Type 0
Unprotected = Option (List ℕ) × Option NasError

-- The computed MAC, the received one, the inner message.
abbrev pub compare_mac : Option (List ℕ) → List ℕ → Option (List ℕ) → Unprotected
compare_mac none received inner = (none, some mac_failed)
compare_mac (some mac) received none = (none, some decrypt_failed)
compare_mac (some mac) received (some inner) =
    (some inner, if bytes_beq mac received then none else some mac_mismatch)

module _ (lib : NasLibrary) where
  unfoldable pub ciphered : ℕ → Bool
  ciphered sht = sht == lib.sht_ciphered || sht == lib.sht_ciphered_new_context

  unfoldable pub security_header : List ℕ → Outcome NasError ℕ
  security_header message =
      if ltb (length message) 2
      then err pdu_too_short
      else ok (bit_and (lib.security_header_type message) 0x0f)

  unfoldable pub protect : List ℕ → ℕ → ℕ → ℕ → ℕ → List ℕ → List ℕ → Outcome NasError (List ℕ)
  unfolding ciphered
  protect plain sht count ciphering_alg integrity_alg knas_enc knas_int = do
    encode ← or_error plain_decode_failed (lib.plain_nas_decode plain)
    payload ← or_error plain_encode_failed (encode sht)
    secret ←
        if ciphered sht
        then or_error encrypt_failed (
            lib.nas_encrypt ciphering_alg knas_enc count lib.bearer_3gpp lib.direction_uplink
              payload)
        else ok payload
    let body = u8 count ∷ secret
    mac ←
        or_error mac_failed
          (lib.nas_mac integrity_alg knas_int count lib.bearer_3gpp lib.direction_uplink body)
    ok (lib.epd_mobility_management ∷ sht ∷ (mac ++ body))

  unfoldable pub unprotect : List ℕ → ℕ → ℕ → ℕ → List ℕ → List ℕ → Unprotected
  unfolding ciphered
  unprotect message count ciphering_alg integrity_alg knas_enc knas_int =
      if ltb (length message) 7
      then (none, some secured_too_short)
      else compare_mac
          (lib.nas_mac integrity_alg knas_int count lib.bearer_3gpp lib.direction_downlink
            (drop 6 message))
          (sub_list message 2 6)
          (if ciphered (bit_and (lib.security_header_type message) 0x0f)
            then lib.nas_encrypt ciphering_alg knas_enc count lib.bearer_3gpp lib.direction_downlink
                (drop 7 message)
            else some (drop 7 message))
