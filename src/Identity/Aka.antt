-- ===== src/Identity/Aka.antt =====
-- internal/crypto/aka_5g.go, aka_eps.go and auts.go: the two AKA computations and AUTS.
-- `AkaLibrary` holds what they take from `milenage`, `ueauth` and regexp; an error is `none`.
use gpp_server.Common.{ℕ, ◌/◌, Bool, true, false, Option, none, some}
use gpp_server.Common.{List, [], ◌∷◌, ◌++◌, Outcome, ok, err, panic, stuck, ◌>>=◌}
use gpp_server.Common.{ltb, ◌==◌, if◌then◌else◌, length, take, drop}
use gpp_server.Common.Text.{GoString, text, hex_decode}
use gpp_server.Identity.Plmn.{PlmnError, tbcd_plmn}
use gpp_server.Identity.Suci.{derive_snn}

-- The keys of `GenerateKeysWithAUTN`, without AK.
pub record MilenageKeys : Type 0 where
  pub sqn_hn : List ℕ
  pub ik : List ℕ
  pub ck : List ℕ
  pub res : List ℕ

pub record AkaLibrary : Type 0 where
  -- `milenage.GenerateKeysWithAUTN(opc, k, rand, autn)`
  pub generate_keys_with_autn : List ℕ → List ℕ → List ℕ → List ℕ → Option MilenageKeys
  -- `milenage.GenerateAUTS(opc, k, rand, sqn)`
  pub generate_auts : List ℕ → List ℕ → List ℕ → List ℕ → Option (List ℕ)
  -- `ueauth.GetKDFValue(key, fc, params...)` and `KDFLen`
  pub kdf : List ℕ → GoString → List (List ℕ) → Option (List ℕ)
  pub kdf_len : List ℕ → List ℕ
  pub fc_res_star : GoString
  pub fc_kausf : GoString
  pub fc_kseaf : GoString
  pub fc_kamf : GoString
  -- The digits that `supiRegexp` finds.
  pub supi_digits : GoString → Option GoString

pub data AkaError : Type 0 where
  bad_opc bad_k bad_sqn autn_too_short invalid_supi : AkaError
  mac_failure sqn_out_of_range auts_failed : AkaError
  kausf_failed kseaf_failed kamf_failed res_star_failed kasme_failed : AkaError
  bad_plmn : PlmnError → AkaError

abbrev pub or_aka_error {ℓ} : {A : Type ℓ} → AkaError → Option A → Outcome AkaError A
or_aka_error e none = err e
or_aka_error e (some a) = ok a

abbrev pub plmn_or_error : Outcome PlmnError (List ℕ) → Outcome AkaError (List ℕ)
plmn_or_error (ok p) = ok p
plmn_or_error (err e) = err (bad_plmn e)
plmn_or_error panic = panic
plmn_or_error stuck = stuck

-- `bytes.Compare(a, b) > 0`
unfoldable pub after : List ℕ → List ℕ → Bool
after [] b = false
after (x ∷ a) [] = true
after (x ∷ a) (y ∷ b) = if x == y then after a b else ltb y x

pub record Aka5GResult : Type 0 where
  pub res_star : List ℕ
  pub kamf : List ℕ

pub record AkaEpsResult : Type 0 where
  pub res : List ℕ
  pub kasme : List ℕ

abbrev pub fc_kasme : GoString
fc_kasme = text "10"

module _ (lib : AkaLibrary) where
  -- `kdfVal[len(kdfVal)/2:]`
  unfoldable pub compute_res_star : List ℕ → GoString → List ℕ → List ℕ → Outcome AkaError (List ℕ)
  compute_res_star key sn_name rand res = do
    kdf_val ← or_aka_error res_star_failed (
        lib.kdf key lib.fc_res_star
          (sn_name ∷ lib.kdf_len sn_name ∷ rand ∷ lib.kdf_len rand ∷ res ∷ lib.kdf_len res ∷ []))
    ok (drop (length kdf_val / 2) kdf_val)

  unfoldable pub derive_kamf : List ℕ → GoString → GoString → List ℕ → Outcome AkaError (List ℕ)
  derive_kamf key sn_name imsi sqn_xor_ak = do
    kausf ← or_aka_error kausf_failed (
        lib.kdf key lib.fc_kausf
          (sn_name ∷ lib.kdf_len sn_name ∷ sqn_xor_ak ∷ lib.kdf_len sqn_xor_ak ∷ []))
    kseaf ←
        or_aka_error kseaf_failed (lib.kdf kausf lib.fc_kseaf (sn_name ∷ lib.kdf_len sn_name ∷ []))
    let abba : List ℕ = 0 ∷ 0 ∷ []
    or_aka_error kamf_failed
        (lib.kdf kseaf lib.fc_kamf (imsi ∷ lib.kdf_len imsi ∷ abba ∷ lib.kdf_len abba ∷ []))

  -- The steps that the two computations share: decoding, AUTN and its sequence number.
  unfoldable pub check_autn :
      GoString → GoString → GoString → List ℕ → List ℕ → Outcome AkaError MilenageKeys
  unfolding after
  check_autn k opc sqn rand autn = do
    opc_bytes ← or_aka_error bad_opc (hex_decode opc)
    k_bytes ← or_aka_error bad_k (hex_decode k)
    sqn_bytes ← or_aka_error bad_sqn (hex_decode sqn)
    if ltb (length autn) 6 then err autn_too_short else do
      keys ← or_aka_error mac_failure (lib.generate_keys_with_autn opc_bytes k_bytes rand autn)
      if after sqn_bytes keys.sqn_hn then err sqn_out_of_range else ok keys

  unfoldable pub compute_5g_aka :
      GoString
      → GoString
      → GoString
      → GoString
      → GoString
      → GoString
      → List ℕ
      → List ℕ
      → Outcome AkaError Aka5GResult
  unfolding check_autn derive_kamf compute_res_star derive_snn
  compute_5g_aka k opc sqn supi mcc mnc rand autn = do
    let snn = derive_snn mcc mnc
    keys ← check_autn k opc sqn rand autn
    imsi ← or_aka_error invalid_supi (lib.supi_digits supi)
    let key = keys.ck ++ keys.ik
    kamf ← derive_kamf key snn imsi (take 6 autn)
    res_star ← compute_res_star key snn rand keys.res
    ok (record { res_star = res_star; kamf = kamf })

  unfoldable pub compute_eps_aka :
      GoString
      → GoString
      → GoString
      → GoString
      → GoString
      → List ℕ
      → List ℕ
      → Outcome AkaError AkaEpsResult
  unfolding check_autn tbcd_plmn
  compute_eps_aka k opc sqn mcc mnc rand autn = do
    keys ← check_autn k opc sqn rand autn
    snid ← plmn_or_error (tbcd_plmn mcc mnc)
    let sqn_xor_ak = take 6 autn
    kasme ← or_aka_error kasme_failed (
        lib.kdf (keys.ck ++ keys.ik) fc_kasme
          (snid ∷ lib.kdf_len snid ∷ sqn_xor_ak ∷ lib.kdf_len sqn_xor_ak ∷ []))
    ok (record { res = keys.res; kasme = kasme })

  unfoldable pub compute_auts : GoString → GoString → GoString → List ℕ → Outcome AkaError (List ℕ)
  compute_auts k opc sqn rand = do
    opc_bytes ← or_aka_error bad_opc (hex_decode opc)
    k_bytes ← or_aka_error bad_k (hex_decode k)
    sqn_bytes ← or_aka_error bad_sqn (hex_decode sqn)
    or_aka_error auts_failed (lib.generate_auts opc_bytes k_bytes rand sqn_bytes)
