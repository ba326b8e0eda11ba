-- ===== src/Nas/EpsSecurity.antt =====
-- internal/naseps/security.go: the EPS NAS security wrapper. `EpsLibrary` holds what it takes from
-- `core/nas/eps` and `core/nas/common`; an error of theirs is `none`.
use gpp_server.Common.{ℕ, ◌/◌, bit_and, Bool, false, Option, none, some, List, [], ◌∷◌}
use gpp_server.Common.{Outcome, ok, err, ◌>>=◌, ◌==◌, if◌then◌else◌}

-- The library's values of its interfaces `Integrity` and `Cipher`.
pub data Integrity : Type 0 where
  null_integrity snow3g_integrity aes_cmac_integrity : Integrity

pub data Cipher : Type 0 where
  null_cipher snow3g_cipher aes_ctr_cipher : Cipher

pub record EpsLibrary : Type 0 where
  pub pd_emm : ℕ
  pub sht_plain : ℕ
  pub sht_integrity_protected_new_context : ℕ
  pub sht_integrity_protected_ciphered_new : ℕ
  pub direction_uplink : ℕ
  pub direction_downlink : ℕ
  -- `ParseSecurityProtectedMessage`, the payload of the message.
  pub parse_payload : List ℕ → Option (List ℕ)
  -- `Protect(plain, sht, count, direction, knasInt, knasEnc, integ, ciph)`
  pub protect_message : List ℕ → ℕ → ℕ → ℕ → List ℕ → List ℕ → Integrity → Cipher → Option (List ℕ)
  -- `Unprotect(b, count, direction, knasInt, knasEnc, integ, ciph)`: the slice, which may be nil,
  -- and whether the error is nil.
  pub unprotect_message :
      List ℕ → ℕ → ℕ → List ℕ → List ℕ → Integrity → Cipher → Option (List ℕ) × Bool

pub data EpsError : Type 0 where
  empty_message not_emm unsupported_integrity unsupported_ciphering library_error : EpsError

unfoldable pub integrity_for : ℕ → Outcome EpsError Integrity
integrity_for eia =
    if eia == 0
    then ok null_integrity
    else if eia == 1
    then ok snow3g_integrity
    else if eia == 2
    then ok aes_cmac_integrity
    else err unsupported_integrity

unfoldable pub cipher_for : ℕ → Outcome EpsError Cipher
cipher_for eea =
    if eea == 0
    then ok null_cipher
    else if eea == 1
    then ok snow3g_cipher
    else if eea == 2
    then ok aes_ctr_cipher
    else err unsupported_ciphering

abbrev pub or_library_error : Option (List ℕ) → Outcome EpsError (List ℕ)
or_library_error none = err library_error
or_library_error (some p) = ok p

module _ (lib : EpsLibrary) where
  unfoldable pub eps_security_header : List ℕ → Outcome EpsError ℕ
  eps_security_header [] = err empty_message
  eps_security_header (b ∷ rest) = if bit_and b 0x0f == lib.pd_emm then ok (b / 16) else err not_emm

  unfoldable pub eps_peek_protected_payload : List ℕ → Outcome EpsError (List ℕ)
  eps_peek_protected_payload b = or_library_error (lib.parse_payload b)

  unfoldable pub eps_protect : List ℕ → ℕ → ℕ → ℕ → ℕ → List ℕ → List ℕ → Outcome EpsError (List ℕ)
  unfolding integrity_for cipher_for
  eps_protect plain sht count ciphering_alg integrity_alg knas_enc knas_int = do
    integ ← integrity_for integrity_alg
    ciph ← cipher_for ciphering_alg
    or_library_error
        (lib.protect_message plain sht count lib.direction_uplink knas_int knas_enc integ ciph)

  unfoldable pub unprotect_with :
      List ℕ
      → ℕ
      → List ℕ
      → List ℕ
      → Outcome EpsError Integrity
      → Outcome EpsError Cipher
      → Option (List ℕ) × Bool
  unprotect_with b count knas_enc knas_int (ok integ) (ok ciph) =
      lib.unprotect_message b count lib.direction_downlink knas_int knas_enc integ ciph
  unprotect_with b count knas_enc knas_int (ok integ) _ = (none, false)
  unprotect_with b count knas_enc knas_int _ _ = (none, false)

  -- The recovered message, which may be nil, and whether there is no error.
  unfoldable pub eps_unprotect : List ℕ → ℕ → ℕ → ℕ → List ℕ → List ℕ → Option (List ℕ) × Bool
  unfolding integrity_for cipher_for unprotect_with
  eps_unprotect b count ciphering_alg integrity_alg knas_enc knas_int =
      unprotect_with b count knas_enc knas_int (integrity_for integrity_alg)
        (cipher_for ciphering_alg)
