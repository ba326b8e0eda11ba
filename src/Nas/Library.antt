-- ===== src/Nas/Library.antt =====
-- What the NAS code takes from the free5gc libraries, `nas`, `nas/security` and `ueauth`. An error
-- of theirs is `none`.
use gpp_server.Common.{ℕ, Option, List}
use gpp_server.Common.Text.{GoString}

pub record NasLibrary : Type 0 where
  -- `PlainNasDecode`: a decoded message stands as its `PlainNasEncode`, which depends on the
  -- security header type that is set on it.
  pub plain_nas_decode : List ℕ → Option (ℕ → Option (List ℕ))
  -- `GetSecurityHeaderType`
  pub security_header_type : List ℕ → ℕ
  -- `NASEncrypt(alg, key, count, bearer, direction, payload)`, the payload that it leaves.
  pub nas_encrypt : ℕ → List ℕ → ℕ → ℕ → ℕ → List ℕ → Option (List ℕ)
  -- `NASMacCalculate(alg, key, count, bearer, direction, payload)`
  pub nas_mac : ℕ → List ℕ → ℕ → ℕ → ℕ → List ℕ → Option (List ℕ)
  pub bearer_3gpp : ℕ
  pub direction_uplink : ℕ
  pub direction_downlink : ℕ
  pub epd_mobility_management : ℕ
  pub sht_plain : ℕ
  pub sht_ciphered : ℕ
  pub sht_new_context : ℕ
  pub sht_ciphered_new_context : ℕ
  -- `GetKDFValue(key, fc, p0, l0, ...)` and `KDFLen`
  pub kdf : List ℕ → GoString → List (List ℕ) → Option (List ℕ)
  pub kdf_len : List ℕ → List ℕ
  pub fc_algorithm : GoString
