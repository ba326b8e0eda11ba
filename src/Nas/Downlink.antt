-- ===== src/Nas/Downlink.antt =====
-- The downlink side of the 5GS security context (internal/api/gnb_security.go): what a verified
-- message was checked against.
use gpp_server.Common.{
  ℕ, ◌<◌, ◌≤◌, ◌≡◌, refl, sym, ap, ◌∙◌, Bool, true, false, not, Option, none, some,
}
use gpp_server.Common.{
  List, drop, length, Outcome, ok, err, panic, stuck, >>=-ok, ok-injective, ltb, ◌==◌, else_taken,
  then_taken, ltb→ge,
}
use gpp_server.Common.{none≢some, not-false}
use gpp_server.Common.Bytes.{u8, byte_at, sub_list, IsByte}
use gpp_server.Common.Maps.{bytes_beq, bytes_beq_iff}
use gpp_server.Common.Text.{GoString}
use gpp_server.Store.Contexts.{UeContext}
use gpp_server.Store.Counts.{next_dl_count, next_dl_count_least}
use gpp_server.Store.Gnb
use gpp_server.Nas.Library.{NasLibrary}
use gpp_server.Nas.Types.{NasResponse}
use gpp_server.Nas.Keys.{derive_5g_nas_keys}
use gpp_server.Nas.Security.{
  security_header, NasError, peek_protected_payload, unprotect, compare_mac, Unprotected,
}
use gpp_server.Nas.GnbContext.{
  Decoding, respond, plain_response, decode_gnb_downlink_nas, open_downlink, enter_context,
  decode_with_header, report, report_peeked, establish_gnb_security_context, is_new_context,
}

-- There is no error only where the MACs agree.
compare_mac_lem :
    (mac : Option (List ℕ)) (received : List ℕ) (inner : Option (List ℕ)) (plain : List ℕ)
    → compare_mac mac received inner ≡ (some plain, none)
    → mac ≡ some received
compare_mac_lem none received inner plain h = absurd (let g = ap (λ r. r.0) h in cc)
compare_mac_lem (some mac) received none plain h = absurd (let g = ap (λ r. r.0) h in cc)
compare_mac_lem (some mac) received (some inner) plain h = ap some (
    (bytes_beq_iff mac received).0
      (then_taken (bytes_beq mac received) (ap (λ r. r.1) h) (λ e. cc)).0)

false≢some : ◌≡◌ {A = Option Bool} (some false) (some true) → ⊥
false≢some h = cc

module _ (lib : NasLibrary) where
  unprotect_lem :
      (message plain kenc kint : List ℕ) (count calg ialg : ℕ)
      → unprotect lib message count calg ialg kenc kint ≡ (some plain, none)
      → (7 ≤ length message)
        × (lib.nas_mac ialg kint count lib.bearer_3gpp lib.direction_downlink (drop 6 message)
            ≡ some (sub_list message 2 6))
  unfolding unprotect
  unprotect_lem message plain kenc kint count calg ialg h =
      let (long, rest) =
        else_taken (ltb (length message) 7) h (λ e. let g = ap (λ r. r.0) e in cc) in
      (ltb→ge _ _ long, compare_mac_lem _ _ _ plain rest)

  module _ (sht_string : ℕ → GoString) (nas_decode : List ℕ → Decoding) where
    respond_lem :
        (ue ue' : UeContext) (sht : ℕ) (message : List ℕ) (v : Option Bool) (d : Decoding)
        (r : Option NasResponse)
        → respond lib sht_string nas_decode ue sht message v d ≡ ok (ue', r, some true)
        → (ue ≡ ue') × (v ≡ some true)
    unfolding respond
    respond_lem ue ue' sht message v (ok a) r h =
        (ap (λ x. x.0) (ok-injective h), ap (λ x. x.2) (ok-injective h))
    respond_lem ue ue' sht message v (err e) r h =
        (ap (λ x. x.0) (ok-injective h), ap (λ x. x.2) (ok-injective h))
    respond_lem ue ue' sht message v panic r h = absurd cc
    respond_lem ue ue' sht message v stuck r h = absurd cc

    report_lem :
        (ue ue' : UeContext) (sht : ℕ) (message : List ℕ) (u : Unprotected) (r : Option NasResponse)
        → report lib sht_string nas_decode ue sht message u ≡ ok (ue', r, some true)
        → (ue ≡ ue') × (plain : List ℕ) × (u ≡ (some plain, none))
    unfolding report
    report_lem ue ue' sht message (none, e) r h =
        absurd (none≢some (ap (λ x. x.2) (ok-injective h)))
    report_lem ue ue' sht message (some inner, none) r h =
        ((respond_lem ue ue' sht message _ (nas_decode inner) r h).0, inner, refl)
    report_lem ue ue' sht message (some inner, some e) r h =
        absurd (false≢some (respond_lem ue ue' sht message _ (nas_decode inner) r h).1)

    report_peeked_lem :
        (ue ue' : UeContext) (sht : ℕ) (message : List ℕ) (o : Outcome NasError (List ℕ))
        (r : Option NasResponse)
        → report_peeked lib sht_string nas_decode ue sht message o ≡ ok (ue', r, some true)
        → ⊥
    unfolding report_peeked
    report_peeked_lem ue ue' sht message (ok inner) r h =
        none≢some (respond_lem ue ue' sht message _ (nas_decode inner) r h).1
    report_peeked_lem ue ue' sht message (err e) r h = none≢some (ap (λ x. x.2) (ok-injective h))
    report_peeked_lem ue ue' sht message panic r h = none≢some (ap (λ x. x.2) (ok-injective h))
    report_peeked_lem ue ue' sht message stuck r h = none≢some (ap (λ x. x.2) (ok-injective h))

    plain_response_lem :
        (ue ue' : UeContext) (d : Decoding) (r : Option NasResponse)
        → plain_response lib sht_string nas_decode ue d ≡ ok (ue', r, some true)
        → ⊥
    plain_response_lem ue ue' (ok a) r h = none≢some (ap (λ x. x.2) (ok-injective h))
    plain_response_lem ue ue' (err e) r h = none≢some (ap (λ x. x.2) (ok-injective h))
    plain_response_lem ue ue' panic r h = cc
    plain_response_lem ue ue' stuck r h = cc

    -- The integrity key, the count and the algorithm that a verified message was checked with.
    open_downlink_lem :
        (ue ue' : UeContext) (sht count : ℕ) (message : List ℕ) (r : Option NasResponse)
        → open_downlink lib sht_string nas_decode ue sht count message ≡ ok (ue', r, some true)
        → (ue'.security_active ≡ true)
          × (7 ≤ length message)
          × (lib.nas_mac ue'.integrity_alg ue'.knas_int count lib.bearer_3gpp lib.direction_downlink
                (drop 6 message)
              ≡ some (sub_list message 2 6))
    unfolding open_downlink
    open_downlink_lem ue ue' sht count message r h =
        let (active, rest) =
          else_taken (not ue.security_active) h
            (report_peeked_lem ue ue' sht message (peek_protected_payload message) r) in
        let (same, plain, opened) = report_lem ue ue' sht message _ r rest in
        let (long, mac) = unprotect_lem message plain _ _ count _ _ opened in
        (
          ap (λ u. u.security_active) (sym same) ∙ not-false _ active,
          long,
          ap
                (λ u.
                  lib.nas_mac u.integrity_alg u.knas_int count lib.bearer_3gpp
                    lib.direction_downlink (drop 6 message))
                (sym same)
              ∙ mac,
        )

    decode_with_header_lem :
        (ue ue' : UeContext) (message : List ℕ) (o : Outcome NasError ℕ) (r : Option NasResponse)
        → decode_with_header lib sht_string nas_decode ue message o ≡ ok (ue', r, some true)
        → (sht : ℕ) × (entered : UeContext) × (open_downlink lib sht_string nas_decode entered sht
              (next_dl_count ue.dl_count (byte_at message 6))
              message
            ≡ ok (ue', r, some true))
    unfolding decode_with_header Gnb.next_dl
    decode_with_header_lem ue ue' message (ok sht) r h =
        let (e1, h1) =
          else_taken (sht == lib.sht_plain) h (plain_response_lem ue ue' (nas_decode message) r) in
        let (e2, h2) =
          else_taken (ltb (length message) 7) h1
            (λ e. none≢some (ap (λ x. x.2) (ok-injective e))) in
        let (ue2, e3, h3) =
          >>=-ok
            (enter_context lib sht_string nas_decode (Gnb.next_dl ue (byte_at message 6)).0 sht
              message)
            _ _ h2 in
        (sht, ue2, h3)
    decode_with_header_lem ue ue' message (err e) r h =
        absurd (none≢some (ap (λ x. x.2) (ok-injective h)))
    decode_with_header_lem ue ue' message panic r h =
        absurd (none≢some (ap (λ x. x.2) (ok-injective h)))
    decode_with_header_lem ue ue' message stuck r h =
        absurd (none≢some (ap (λ x. x.2) (ok-injective h)))

    -- A downlink is reported as verified only if the context is active afterwards, the message has a
    -- whole security header, and octets 2 to 6 are the MAC over the rest under the integrity
    -- algorithm and key of that context, at the count that the received sequence number gives
    -- from the downlink count of before.
    pub decode_gnb_downlink_nas_verified :
        (ue ue' : UeContext) (message : List ℕ) (r : Option NasResponse)
        → decode_gnb_downlink_nas lib sht_string nas_decode ue message ≡ ok (ue', r, some true)
        → (ue'.security_active ≡ true)
          × (7 ≤ length message)
          × (lib.nas_mac ue'.integrity_alg ue'.knas_int
                (next_dl_count ue.dl_count (byte_at message 6))
                lib.bearer_3gpp
                lib.direction_downlink
                (drop 6 message)
              ≡ some (sub_list message 2 6))
    unfolding decode_gnb_downlink_nas
    decode_gnb_downlink_nas_verified ue ue' message r h =
        let (sht, entered, e) = decode_with_header_lem ue ue' message _ r h in
        open_downlink_lem entered ue' sht (next_dl_count ue.dl_count (byte_at message 6)) message r
          e

    -- The context that a Security Mode Command establishes where its keys are derived.
    abbrev pub established : UeContext → ℕ → ℕ → List ℕ → List ℕ → UeContext
    established ue c i enc int = record ue {
      ciphering_alg = u8 c;
      integrity_alg = u8 i;
      knas_enc = enc;
      knas_int = int;
      dl_count = 0;
      security_active = true;
    }

    enter_context_lem :
        (ue : UeContext) (sht : ℕ) (message inner : List ℕ) (smc : NasResponse) (c i : ℕ)
        (enc int : List ℕ)
        → is_new_context lib sht ≡ true
        → peek_protected_payload message ≡ ok inner
        → nas_decode inner ≡ ok smc
        → smc.selected_ciphering_algorithm ≡ some c
        → smc.selected_integrity_algorithm ≡ some i
        → derive_5g_nas_keys lib ue.kamf (u8 c) (u8 i) ≡ ok (enc, int)
        → enter_context lib sht_string nas_decode ue sht message ≡ ok (established ue c i enc int)
    unfolding enter_context establish_gnb_security_context
    enter_context_lem ue sht message inner smc c i enc int new peeked decoded sc si derived =
        rw (new, peeked, decoded, sc, si, derived) refl

    open_downlink_same :
        (ue ue' : UeContext) (sht count : ℕ) (message : List ℕ) (r : Option NasResponse)
        → open_downlink lib sht_string nas_decode ue sht count message ≡ ok (ue', r, some true)
        → ue' ≡ ue
    unfolding open_downlink
    open_downlink_same ue ue' sht count message r h =
        let (active, rest) =
          else_taken (not ue.security_active) h
            (report_peeked_lem ue ue' sht message (peek_protected_payload message) r) in
        sym (report_lem ue ue' sht message _ r rest).0

    -- A Security Mode Command under a new-context header, which selects algorithms and for which the
    -- keys are derived, and which is reported as verified: the context afterwards is active, with
    -- these algorithms and keys and a downlink count of zero, and nothing else has changed; and the
    -- MAC has been checked under the new key, but at the count that the received sequence number
    -- gives from the downlink count of the old context, which is not below that count.
    pub decode_gnb_downlink_nas_rekeying :
        (ue ue' : UeContext) (sht : ℕ) (message inner : List ℕ) (smc : NasResponse) (c i : ℕ)
        (enc int : List ℕ) (r : Option NasResponse)
        → IsByte (byte_at message 6)
        → ue.dl_count < 4294967040
        → security_header lib message ≡ ok sht
        → is_new_context lib sht ≡ true
        → peek_protected_payload message ≡ ok inner
        → nas_decode inner ≡ ok smc
        → smc.selected_ciphering_algorithm ≡ some c
        → smc.selected_integrity_algorithm ≡ some i
        → derive_5g_nas_keys lib ue.kamf (u8 c) (u8 i) ≡ ok (enc, int)
        → decode_gnb_downlink_nas lib sht_string nas_decode ue message ≡ ok (ue', r, some true)
        → (ue' ≡ established ue c i enc int)
          × (count : ℕ) × (ue.dl_count ≤ count)
          × (u8 count ≡ byte_at message 6)
          × (lib.nas_mac (u8 i) int count lib.bearer_3gpp lib.direction_downlink (drop 6 message)
              ≡ some (sub_list message 2 6))
    unfolding decode_gnb_downlink_nas decode_with_header Gnb.next_dl
    decode_gnb_downlink_nas_rekeying ue ue' sht message inner smc c i enc int r byte below header
          new peeked decoded sc si derived h =
        let seq = byte_at message 6 in
        let count = next_dl_count ue.dl_count seq in
        let ue1 = (Gnb.next_dl ue seq).0 in
        let h0 = ap (decode_with_header lib sht_string nas_decode ue message) (sym header) ∙ h in
        let (e1, h1) =
          else_taken (sht == lib.sht_plain) h0 (plain_response_lem ue ue' (nas_decode message) r) in
        let (e2, h2) =
          else_taken (ltb (length message) 7) h1
            (λ e. none≢some (ap (λ x. x.2) (ok-injective e))) in
        let (ue2, e3, h3) =
          >>=-ok (enter_context lib sht_string nas_decode ue1 sht message) _ _ h2 in
        let entered : ue2 ≡ established ue c i enc int = ok-injective (
          sym e3
          ∙ enter_context_lem ue1 sht message inner smc c i enc int new peeked decoded sc si
              derived) in
        let after = open_downlink_same ue2 ue' sht count message r h3 ∙ entered in
        let (active, long, mac) = open_downlink_lem ue2 ue' sht count message r h3 in
        let (least, low, rest) = next_dl_count_least ue.dl_count seq below byte in
        (
          after,
          count,
          least,
          low,
          ap
                (λ u.
                  lib.nas_mac u.integrity_alg u.knas_int count lib.bearer_3gpp
                    lib.direction_downlink (drop 6 message))
                (sym after)
              ∙ mac,
        )
