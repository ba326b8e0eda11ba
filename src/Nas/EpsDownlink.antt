-- ===== src/Nas/EpsDownlink.antt =====
-- The downlink side of the EPS security context (internal/api/enb_security.go): what a verified
-- message was checked against.
use gpp_server.Common.{
  ℕ, ◌≤◌, ◌≡◌, refl, arith, sym, ap, ◌∙◌, Bool, true, false, not, Option, none, some,
}
use gpp_server.Common.{
  List, length, Outcome, ok, err, panic, stuck, >>=-ok, ok-injective, ltb, ◌==◌, else_taken, ltb→ge,
}
use gpp_server.Common.{none≢some, not-false}
use gpp_server.Common.Bytes.{byte_at}
use gpp_server.Common.Text.{GoString}
use gpp_server.Store.Contexts.{UeEpsContext}
use gpp_server.Store.Counts.{next_dl_count}
use gpp_server.Store.Enb
use gpp_server.Nas.Library.{NasLibrary}
use gpp_server.Nas.EpsTypes.{EpsNasResponse}
use gpp_server.Nas.EpsSecurity.{
  EpsLibrary, EpsError, Integrity, Cipher, integrity_for, cipher_for, eps_unprotect, unprotect_with,
}
use gpp_server.Nas.EnbContext.{
  decode_enb_downlink_nas, decode_with_eps_header, open_eps_downlink, enter_eps_context, eps_report,
  eps_report_peeked, eps_dl_sequence_number,
}

sequence_number_at :
    (message : List ℕ) → 6 ≤ length message → eps_dl_sequence_number message ≡ byte_at message 5
unfolding eps_dl_sequence_number
sequence_number_at message h = ground arith

failed : {p : List ℕ} → ◌≡◌ {A = Option (List ℕ) × Bool} (none, false) (some p, true) → ⊥
failed h = let g = ap (λ x. x.1) h in cc

some-true : {b : Bool} → some b ≡ some true → b ≡ true
some-true h = cc

module _ (lib : NasLibrary) (eps : EpsLibrary) where
  unprotect_with_lem :
      (message plain kenc kint : List ℕ) (count : ℕ) (i : Outcome EpsError Integrity)
      (c : Outcome EpsError Cipher)
      → unprotect_with eps message count kenc kint i c ≡ (some plain, true)
      → (integ : Integrity) × (ciph : Cipher) × (i ≡ ok integ)
        × (c ≡ ok ciph)
        × (eps.unprotect_message message count eps.direction_downlink kint kenc integ ciph
            ≡ (some plain, true))
  unfolding unprotect_with
  unprotect_with_lem message plain kenc kint count (ok i) (ok c) h = (i, c, refl, refl, h)
  unprotect_with_lem message plain kenc kint count (ok i) (err e) h = absurd (failed h)
  unprotect_with_lem message plain kenc kint count (ok i) panic h = absurd (failed h)
  unprotect_with_lem message plain kenc kint count (ok i) stuck h = absurd (failed h)
  unprotect_with_lem message plain kenc kint count (err e) c h = absurd (failed h)
  unprotect_with_lem message plain kenc kint count panic c h = absurd (failed h)
  unprotect_with_lem message plain kenc kint count stuck c h = absurd (failed h)

  module _ (sht_string : ℕ → GoString) (nas_decode : List ℕ → Option EpsNasResponse) where
    eps_report_lem :
        (ue ue' : UeEpsContext) (message : List ℕ) (u : Option (List ℕ) × Bool)
        (r : Option EpsNasResponse)
        → eps_report lib eps sht_string nas_decode ue message u ≡ (ue', r, some true)
        → (ue ≡ ue') × (plain : List ℕ) × (u ≡ (some plain, true))
    unfolding eps_report
    eps_report_lem ue ue' message (none, verified) r h = absurd (none≢some (ap (λ x. x.2) h))
    eps_report_lem ue ue' message (some inner, verified) r h =
        (ap (λ x. x.0) h, inner, ap (λ b. (some inner, b)) (some-true (ap (λ x. x.2) h)))

    eps_report_peeked_lem :
        (ue ue' : UeEpsContext) (message : List ℕ) (o : Outcome EpsError (List ℕ))
        (r : Option EpsNasResponse)
        → eps_report_peeked lib eps sht_string nas_decode ue message o ≡ (ue', r, some true)
        → ⊥
    unfolding eps_report_peeked
    eps_report_peeked_lem ue ue' message (ok inner) r h = none≢some (ap (λ x. x.2) h)
    eps_report_peeked_lem ue ue' message (err e) r h = none≢some (ap (λ x. x.2) h)
    eps_report_peeked_lem ue ue' message panic r h = none≢some (ap (λ x. x.2) h)
    eps_report_peeked_lem ue ue' message stuck r h = none≢some (ap (λ x. x.2) h)

    decode_with_eps_header_lem :
        (ue ue' : UeEpsContext) (message : List ℕ) (o : Outcome EpsError ℕ)
        (r : Option EpsNasResponse)
        → decode_with_eps_header lib eps sht_string nas_decode ue message o ≡ ok (ue', r, some true)
        → (entered : UeEpsContext) × (6 ≤ length message)
          × (open_eps_downlink lib eps sht_string nas_decode entered
                (next_dl_count ue.dl_count (eps_dl_sequence_number message))
                message
              ≡ (ue', r, some true))
    unfolding decode_with_eps_header Enb.next_dl
    decode_with_eps_header_lem ue ue' message (ok sht) r h =
        let (e1, h1) =
          else_taken (sht == eps.sht_plain) h (λ e. none≢some (ap (λ x. x.2) (ok-injective e))) in
        let (e2, h2) =
          else_taken (ltb (length message) 6) h1
            (λ e. none≢some (ap (λ x. x.2) (ok-injective e))) in
        let (ue2, e3, h3) =
          >>=-ok
            (enter_eps_context lib eps sht_string nas_decode
              (Enb.next_dl ue (eps_dl_sequence_number message)).0 sht message)
            _ _ h2 in
        (ue2, ltb→ge _ _ e2, ok-injective h3)
    decode_with_eps_header_lem ue ue' message (err e) r h =
        absurd (none≢some (ap (λ x. x.2) (ok-injective h)))
    decode_with_eps_header_lem ue ue' message panic r h =
        absurd (none≢some (ap (λ x. x.2) (ok-injective h)))
    decode_with_eps_header_lem ue ue' message stuck r h =
        absurd (none≢some (ap (λ x. x.2) (ok-injective h)))

    -- A downlink is reported as verified only if it has a whole security header, the context is
    -- active afterwards with algorithms that the wrapper supports, and the library unprotects the
    -- message without an error under that context's algorithms and keys, at the count that the
    -- octet behind the MAC gives from the downlink count of before.
    pub decode_enb_downlink_nas_verified :
        (ue ue' : UeEpsContext) (message : List ℕ) (r : Option EpsNasResponse)
        → decode_enb_downlink_nas lib eps sht_string nas_decode ue message ≡ ok (ue', r, some true)
        → (6 ≤ length message)
          × (ue'.security_active ≡ true)
          × (integ : Integrity) × (ciph : Cipher) × (plain : List ℕ) × (integrity_for
                ue'.integrity_alg
              ≡ ok integ)
          × (cipher_for ue'.ciphering_alg ≡ ok ciph)
          × (eps.unprotect_message message
                (next_dl_count ue.dl_count (byte_at message 5))
                eps.direction_downlink
                ue'.knas_int
                ue'.knas_enc
                integ
                ciph
              ≡ (some plain, true))
    unfolding decode_enb_downlink_nas open_eps_downlink eps_unprotect
    decode_enb_downlink_nas_verified ue ue' message r h =
        let (entered, long, e) = decode_with_eps_header_lem ue ue' message _ r h in
        let (active, rest) =
          else_taken (not entered.security_active) e
            (eps_report_peeked_lem entered ue' message _ r) in
        let (same, plain, opened) = eps_report_lem entered ue' message _ r rest in
        let (integ, ciph, i, c, done) = unprotect_with_lem message plain _ _ _ _ _ opened in
        (
          long,
          ap (λ u. u.security_active) (sym same) ∙ not-false _ active,
          integ,
          ciph,
          plain,
          ap (λ u. integrity_for u.integrity_alg) (sym same) ∙ i,
          ap (λ u. cipher_for u.ciphering_alg) (sym same) ∙ c,
          ap
                (λ u.
                  eps.unprotect_message message (next_dl_count ue.dl_count (byte_at message 5))
                    eps.direction_downlink u.knas_int u.knas_enc integ ciph)
                (sym same)
              ∙ ap
                  (λ sn.
                    eps.unprotect_message message (next_dl_count ue.dl_count sn)
                      eps.direction_downlink entered.knas_int entered.knas_enc integ ciph)
                  (sym (sequence_number_at message long))
              ∙ done,
        )
