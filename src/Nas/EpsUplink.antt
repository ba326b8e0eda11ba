-- ===== src/Nas/EpsUplink.antt =====
-- The uplink side of the EPS security context (internal/api/enb_security.go): the counts that a
-- run of messages is protected at.
use gpp_server.Common.{ℕ, ◌+◌, ◌<◌, ◌≡◌, refl, arith, ap, ◌∙◌, false, not, ◌&&◌, Option, none, some}
use gpp_server.Common.{List, [], ◌∷◌, length, Outcome, ok, err, ◌>>=◌, ◌==◌, if◌then◌else◌}
use gpp_server.Common.Bytes.{u32}
use gpp_server.Store.Contexts.{UeEpsContext}
use gpp_server.Store.Counts.{next_ul_count}
use gpp_server.Store.Enb
use gpp_server.Nas.Library.{NasLibrary}
use gpp_server.Nas.EpsSecurity.{
  EpsLibrary, EpsError, Integrity, null_integrity, snow3g_integrity, aes_cmac_integrity, Cipher,
  null_cipher, snow3g_cipher, aes_ctr_cipher, library_error, unsupported_integrity,
  unsupported_ciphering, or_library_error, integrity_for, cipher_for, eps_protect,
}
use gpp_server.Nas.EnbContext.{
  EpsUplinkError, eps_nas_error, encode_enb_uplink_nas, finish_eps_uplink,
}

-- TS 33.401 §5.1.3.2 and §5.1.4.2: the numbers of the algorithms.
abbrev pub eia_of : ℕ → Option Integrity
eia_of n =
    if n == 0
    then some null_integrity
    else if n == 1
    then some snow3g_integrity
    else if n == 2
    then some aes_cmac_integrity
    else none

abbrev pub eea_of : ℕ → Option Cipher
eea_of n =
    if n == 0
    then some null_cipher
    else if n == 1
    then some snow3g_cipher
    else if n == 2
    then some aes_ctr_cipher
    else none

-- A number's algorithm, or the error that it has none.
abbrev or_unsupported : {A : Type 0} → EpsError → Option A → Outcome EpsError A
or_unsupported e none = err e
or_unsupported e (some a) = ok a

integrity_for_lem : (n : ℕ) → integrity_for n ≡ or_unsupported unsupported_integrity (eia_of n)
unfolding integrity_for
integrity_for_lem n = ground arith

cipher_for_lem : (n : ℕ) → cipher_for n ≡ or_unsupported unsupported_ciphering (eea_of n)
unfolding cipher_for
cipher_for_lem n = ground arith

module _ (lib : NasLibrary) (eps : EpsLibrary) where
  -- A run of sends without overrides: each is a plain message and a security header type.
  unfoldable pub send_all :
      UeEpsContext → List (List ℕ × ℕ) → UeEpsContext × List (Outcome EpsUplinkError (List ℕ))
  unfolding encode_enb_uplink_nas
  send_all ue [] = (ue, [])
  send_all ue (m ∷ rest) =
      let (ue1, sent) = encode_enb_uplink_nas lib eps ue m.0 m.1 none in
      let (ue2, others) = send_all ue1 rest in (ue2, sent ∷ others)

  abbrev pub of_library : Option (List ℕ) → Outcome EpsUplinkError (List ℕ)
  of_library none = err (eps_nas_error library_error)
  of_library (some p) = ok p

  finish_library :
      (o : Option (List ℕ)) → finish_eps_uplink none (or_library_error o) ≡ of_library o
  finish_library none = refl
  finish_library (some p) = refl

  abbrev pub with_algorithms :
      UeEpsContext
      → ℕ
      → List ℕ × ℕ
      → Option Integrity
      → Option Cipher
      → Outcome EpsUplinkError (List ℕ)
  with_algorithms ue count m none ciph = err (eps_nas_error unsupported_integrity)
  with_algorithms ue count m (some i) none = err (eps_nas_error unsupported_ciphering)
  with_algorithms ue count m (some i) (some c) =
      of_library
        (eps.protect_message m.0 m.1 count eps.direction_uplink ue.knas_int ue.knas_enc i c)

  -- One message as the library protects it: at a count, uplink, under the context's keys and the
  -- algorithms of its numbers. A number without an algorithm is an error.
  abbrev pub protected_at : UeEpsContext → ℕ → List ℕ × ℕ → Outcome EpsUplinkError (List ℕ)
  protected_at ue count m =
      with_algorithms ue count m (eia_of ue.integrity_alg) (eea_of ue.ciphering_alg)

  protect_cases :
      (ue : UeEpsContext) (count : ℕ) (m : List ℕ × ℕ) (integ : Option Integrity)
      (ciph : Option Cipher)
      → finish_eps_uplink none (
          or_unsupported unsupported_integrity integ >>= λ i.
          or_unsupported unsupported_ciphering ciph >>= λ c.
          or_library_error
            (eps.protect_message m.0 m.1 count eps.direction_uplink ue.knas_int ue.knas_enc i c))
        ≡ with_algorithms ue count m integ ciph
  protect_cases ue count m none ciph = refl
  protect_cases ue count m (some i) none = refl
  protect_cases ue count m (some i) (some c) = finish_library _

  eps_protect_lem :
      (ue : UeEpsContext) (count : ℕ) (m : List ℕ × ℕ)
      → finish_eps_uplink none
          (eps_protect eps m.0 m.1 count ue.ciphering_alg ue.integrity_alg ue.knas_enc ue.knas_int)
        ≡ protected_at ue count m
  unfolding eps_protect
  eps_protect_lem ue count m =
      rw (integrity_for_lem ue.integrity_alg, cipher_for_lem ue.ciphering_alg)
        (protect_cases ue count m (eia_of ue.integrity_alg) (eea_of ue.ciphering_alg))

  -- What the run is to send: the messages at one count after the other.
  unfoldable pub protected_from :
      UeEpsContext → ℕ → List (List ℕ × ℕ) → List (Outcome EpsUplinkError (List ℕ))
  protected_from ue count [] = []
  protected_from ue count (m ∷ rest) = protected_at ue count m ∷ protected_from ue (count + 1) rest

  -- The context's own count does not matter to it.
  protected_from_count :
      (ue : UeEpsContext) (own count : ℕ) (messages : List (List ℕ × ℕ))
      → protected_from (record ue { ul_count = own }) count messages
        ≡ protected_from ue count messages
  unfolding protected_from
  protected_from_count ue own count [] = refl
  protected_from_count ue own count (m ∷ rest) =
      ap (λ others. protected_at ue count m ∷ others) (protected_from_count ue own (count + 1) rest)

  -- One send, where there is a context.
  encode_enb_uplink_nas_lem :
      (ue : UeEpsContext) (m : List ℕ × ℕ)
      → (not ue.security_active && length ue.kasme == 0) ≡ false
      → encode_enb_uplink_nas lib eps ue m.0 m.1 none
        ≡ (record ue { ul_count = u32 (ue.ul_count + 1) }, protected_at ue ue.ul_count m)
  unfolding encode_enb_uplink_nas Enb.next_ul next_ul_count
  encode_enb_uplink_nas_lem ue m h = rw h (
      ap (λ o. (record ue { ul_count = u32 (ue.ul_count + 1) }, o))
        (eps_protect_lem ue ue.ul_count m))

  -- If there is a security context or a key of the access, and the uplink count does not overflow,
  -- a run of uplinks without overrides is what the library's Protect gives at consecutive counts from
  -- the context's count on, in the uplink direction, under the context's keys and the algorithms of
  -- its numbers, whether single messages fail or not; afterwards the count is larger by the number
  -- of messages and nothing else of the context has changed.
  pub send_all-protected_from :
      (ue : UeEpsContext) (messages : List (List ℕ × ℕ))
      → (not ue.security_active && length ue.kasme == 0) ≡ false
      → ue.ul_count + length messages < 4294967296
      → send_all ue messages ≡ (
        record ue { ul_count = ue.ul_count + length messages },
        protected_from ue ue.ul_count messages,
      )
  unfolding send_all protected_from
  send_all-protected_from ue [] h below = ap (λ n. (record ue { ul_count = n }, [])) (omega arith)
  send_all-protected_from ue (m ∷ rest) h below =
      let one : u32 (ue.ul_count + 1) ≡ ue.ul_count + 1 = omega (arith, below) in
      let ue1 = record ue { ul_count = ue.ul_count + 1 } in
      let first =
        encode_enb_uplink_nas_lem ue m h
        ∙ ap (λ n. (record ue { ul_count = n }, protected_at ue ue.ul_count m)) one in
      let others = send_all-protected_from ue1 rest h (omega (arith, below)) in
      ap (λ r. let s = send_all r.0 rest in (s.0, r.1 ∷ s.1)) first
      ∙ ap (λ s. (s.0, protected_at ue ue.ul_count m ∷ s.1)) others
      ∙ ap
          (λ n. (
            record ue { ul_count = n },
            protected_at ue ue.ul_count m ∷ protected_from ue1 (ue.ul_count + 1) rest,
          ))
          (omega arith)
      ∙ ap
          (λ l. (
            record ue { ul_count = ue.ul_count + length (m ∷ rest) },
            protected_at ue ue.ul_count m ∷ l,
          ))
          (protected_from_count ue (ue.ul_count + 1) (ue.ul_count + 1) rest)
