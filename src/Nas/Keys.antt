-- ===== src/Nas/Keys.antt =====
-- internal/crypto/keys_5g.go and keys_eps.go: the NAS keys from the key of the access.
use gpp_server.Common.{ℕ, Option, none, some, List, [], ◌∷◌, Outcome, ok, err, ◌>>=◌}
use gpp_server.Common.Bytes.{slice}
use gpp_server.Common.Text.{GoString, text}
use gpp_server.Nas.Library.{NasLibrary}

abbrev pub alg_type_nas_enc : ℕ
alg_type_nas_enc = 1

abbrev pub alg_type_nas_int : ℕ
alg_type_nas_int = 2

abbrev pub fc_algorithm_kd : GoString
fc_algorithm_kd = text "15"

pub data KeyError : Type 0 where
  enc_failed int_failed : KeyError

abbrev pub or_key_error : KeyError → Option (List ℕ) → Outcome KeyError (List ℕ)
or_key_error e none = err e
or_key_error e (some v) = ok v

module _ (lib : NasLibrary) where
  -- One call of the KDF for an algorithm type and an algorithm.
  abbrev pub algorithm_kdf : List ℕ → GoString → ℕ → ℕ → Option (List ℕ)
  algorithm_kdf key fc alg_type alg =
      lib.kdf key fc
        ((alg_type ∷ []) ∷ lib.kdf_len (alg_type ∷ []) ∷ (alg ∷ []) ∷ lib.kdf_len (alg ∷ []) ∷ [])

  -- The halves `enc[16:32]` and `intg[16:32]`; a shorter KDF value would be a panic.
  unfoldable pub derive_nas_keys : List ℕ → GoString → ℕ → ℕ → Outcome KeyError (List ℕ × List ℕ)
  derive_nas_keys key fc ciphering_alg integrity_alg = do
    enc ← or_key_error enc_failed (algorithm_kdf key fc alg_type_nas_enc ciphering_alg)
    intg ← or_key_error int_failed (algorithm_kdf key fc alg_type_nas_int integrity_alg)
    knas_enc ← slice enc 16 32
    knas_int ← slice intg 16 32
    ok (knas_enc, knas_int)

  unfoldable pub derive_5g_nas_keys : List ℕ → ℕ → ℕ → Outcome KeyError (List ℕ × List ℕ)
  unfolding derive_nas_keys
  derive_5g_nas_keys kamf = derive_nas_keys kamf lib.fc_algorithm

  unfoldable pub derive_eps_nas_keys : List ℕ → ℕ → ℕ → Outcome KeyError (List ℕ × List ℕ)
  unfolding derive_nas_keys
  derive_eps_nas_keys kasme = derive_nas_keys kasme fc_algorithm_kd
