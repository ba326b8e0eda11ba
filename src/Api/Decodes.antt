-- ===== src/Api/Decodes.antt =====
-- Decoding a downlink and computing AKA end.
use gpp_server.Common.{ℕ, ◌≡◌, Bool, true, false, not, ◌&&◌, Option, none, some, List}
use gpp_server.Common.{
  Outcome, ok, err, panic, stuck, ◌>>=◌, Ends, >>=-Ends, if◌then◌else◌, ◌==◌, length, ltb,
}
use gpp_server.Common.Bytes.{byte_at, u8, slice}
use gpp_server.Common.Text.{GoString}
use gpp_server.Store.Contexts.{UeContext}
use gpp_server.Store.Gnb
use gpp_server.Nas.Library.{NasLibrary}
use gpp_server.Nas.Types.{NasResponse}
use gpp_server.Nas.Security.{
  Unprotected, NasError, or_error, protect, peek_protected_payload, security_header,
}
use gpp_server.Nas.Keys.{KeyError, or_key_error, derive_nas_keys, derive_5g_nas_keys}
use gpp_server.Nas.GnbContext.{
  Decoding, respond, report, report_peeked, plain_response, UplinkOverrides, UplinkError,
  no_security_context, encode_gnb_uplink_nas, finish_uplink, count_of, restart,
  establish_gnb_security_context, is_new_context, enter_context, open_downlink, decode_with_header,
  decode_gnb_downlink_nas,
}
use gpp_server.Identity.Aka.{
  AkaLibrary, AkaError, or_aka_error, check_autn, derive_kamf, compute_res_star, compute_5g_aka,
  compute_auts,
}

-- `Ends` as a record, for `search`.
record Back {ℓ κ} {E : Type ℓ} {A : Type κ} (m : Outcome E A) : Type 0 where
  back : Ends m

Back-ok {ℓ κ} : {E : Type ℓ} {A : Type κ} (a : A) → Back {E = E} (ok a)
Back-ok a = record { back = tt }

Back-err {ℓ κ} : {E : Type ℓ} {A : Type κ} (e : E) → Back {A = A} (err e)
Back-err e = record { back = tt }

Back-if {ℓ κ} :
    {E : Type ℓ} {A : Type κ} (b : Bool) (x y : Outcome E A)
    → Back x
    → Back y
    → Back (if b then x else y)
Back-if true x y h k = h
Back-if false x y h k = k

Back-bind {ℓ κ μ} :
    {E : Type ℓ} {A : Type κ} {B : Type μ} (m : Outcome E A) (f : A → Outcome E B)
    → Back m
    → ((a : A) → m ≡ ok a → Back (f a))
    → Back (m >>= f)
Back-bind m f h k = record { back = >>=-Ends m f h.back (λ a e. (k a e).back) }

Back-key : (e : KeyError) (o : Option (List ℕ)) → Back (or_key_error e o)
Back-key e none = Back-err e
Back-key e (some v) = Back-ok v

Back-aka {ℓ} : {A : Type ℓ} (e : AkaError) (o : Option A) → Back (or_aka_error e o)
Back-aka e none = Back-err e
Back-aka e (some v) = Back-ok v

ruleset back_rules = (Back-ok, Back-err, Back-if, Back-bind, Back-key, Back-aka)

Back-panic {ℓ κ} : {E : Type ℓ} {A : Type κ} → Back {E = E} {A = A} panic
Back-panic = record { back = tt }

Back-slice : (v : List ℕ) → Back {E = KeyError} (slice v 16 32)
Back-slice v = Back-if _ _ _ (Back-ok _) Back-panic

module _ (lib : AkaLibrary) where
  check_autn-Back :
      (k opc sqn : GoString) (rand autn : List ℕ) → Back (check_autn lib k opc sqn rand autn)
  unfolding check_autn
  check_autn-Back k opc sqn rand autn = search back_rules depth 20

  derive_kamf-Back :
      (key : List ℕ) (snn imsi : GoString) (x : List ℕ) → Back (derive_kamf lib key snn imsi x)
  unfolding derive_kamf
  derive_kamf-Back key snn imsi x = search back_rules depth 20

  compute_res_star-Back :
      (key : List ℕ) (snn : GoString) (rand res : List ℕ)
      → Back (compute_res_star lib key snn rand res)
  unfolding compute_res_star
  compute_res_star-Back key snn rand res = search back_rules depth 20

  compute_5g_aka-Back :
      (k opc sqn supi mcc mnc : GoString) (rand autn : List ℕ)
      → Back (compute_5g_aka lib k opc sqn supi mcc mnc rand autn)
  unfolding compute_5g_aka
  compute_5g_aka-Back k opc sqn supi mcc mnc rand autn =
      search (back_rules, check_autn-Back, derive_kamf-Back, compute_res_star-Back) depth 20

  pub compute_5g_aka-Ends :
      (k opc sqn supi mcc mnc : GoString) (rand autn : List ℕ)
      → Ends (compute_5g_aka lib k opc sqn supi mcc mnc rand autn)
  compute_5g_aka-Ends k opc sqn supi mcc mnc rand autn =
      (compute_5g_aka-Back k opc sqn supi mcc mnc rand autn).back

  compute_auts-Back :
      (k opc sqn : GoString) (rand : List ℕ) → Back (compute_auts lib k opc sqn rand)
  unfolding compute_auts
  compute_auts-Back k opc sqn rand = search back_rules depth 20

  pub compute_auts-Ends :
      (k opc sqn : GoString) (rand : List ℕ) → Ends (compute_auts lib k opc sqn rand)
  compute_auts-Ends k opc sqn rand = (compute_auts-Back k opc sqn rand).back

-- A protected uplink is made or refused.
or_error-Back {ℓ} : {A : Type ℓ} (e : NasError) (o : Option A) → Back (or_error e o)
or_error-Back e none = Back-err e
or_error-Back e (some a) = Back-ok a

module _ (lib : NasLibrary) where
  protect-Back :
      (plain : List ℕ) (sht count c i : ℕ) (enc int : List ℕ)
      → Back (protect lib plain sht count c i enc int)
  unfolding protect
  protect-Back plain sht count c i enc int = search (back_rules, or_error-Back) depth 20

  finish-Back :
      (ue : UeContext) (req : Option UplinkOverrides) (m : Outcome NasError (List ℕ))
      → Back m
      → Back (finish_uplink ue req m).1
  finish-Back ue req (ok p) h = Back-ok _
  finish-Back ue req (err e) h = Back-err _
  finish-Back ue req panic h = Back-panic
  finish-Back ue req stuck h = absurd (h.back)

  if_second :
      (b : Bool) (x y : UeContext × Outcome UplinkError (List ℕ))
      → Back x.1
      → Back y.1
      → Back (if◌then◌else◌ {A = UeContext × Outcome UplinkError (List ℕ)} b x y).1
  if_second true x y h k = h
  if_second false x y h k = k

  encode-Back :
      (ue : UeContext) (plain : List ℕ) (sht : ℕ) (req : Option UplinkOverrides)
      → Back (encode_gnb_uplink_nas lib ue plain sht req).1
  unfolding encode_gnb_uplink_nas
  encode-Back ue plain sht req =
      let (ue2, next) = Gnb.next_ul (restart (is_new_context lib sht) ue) in
      if_second (not ue.security_active && length ue.kamf == 0) (ue, err no_security_context) _
        (Back-err no_security_context)
        (finish-Back ue2 req _ (
          protect-Back plain sht (count_of req next) ue2.ciphering_alg ue2.integrity_alg
            ue2.knas_enc ue2.knas_int))

  pub encode_gnb_uplink_nas-Ends :
      (ue : UeContext) (plain : List ℕ) (sht : ℕ) (req : Option UplinkOverrides)
      → Ends (encode_gnb_uplink_nas lib ue plain sht req).1
  encode_gnb_uplink_nas-Ends ue plain sht req = (encode-Back ue plain sht req).back

module _ (lib : NasLibrary) where
  derive_nas_keys-Back :
      (key : List ℕ) (fc : GoString) (c i : ℕ) → Back (derive_nas_keys lib key fc c i)
  unfolding derive_nas_keys
  derive_nas_keys-Back key fc c i = search (back_rules, Back-slice) depth 20

  Back-Option {ℓ κ μ} :
      {A : Type ℓ} {E : Type κ} {B : Type μ} (o : Option A) (n : Outcome E B) (f : A → Outcome E B)
      → Back n
      → ((a : A) → Back (f a))
      → Back (elim o [ none ↦ n | some a ↦ f a ])
  Back-Option none n f h k = h
  Back-Option (some a) n f h k = k a

  establish_keys-Back :
      (ue : UeContext) (m : Outcome KeyError (List ℕ × List ℕ))
      → Back m
      → Back {E = KeyError} (elim m [
        | ok keys ↦ ok (record ue {
          knas_enc = keys.0;
          knas_int = keys.1;
          dl_count = 0;
          security_active = true;
        })
        | err e ↦ ok ue
        | panic ↦ panic
        | stuck ↦ stuck
      ])
  establish_keys-Back ue (ok keys) h = Back-ok _
  establish_keys-Back ue (err e) h = Back-ok ue
  establish_keys-Back ue panic h = Back-panic
  establish_keys-Back ue stuck h = absurd (h.back)

  establish-Back :
      (ue : UeContext) (smc : Option NasResponse) → Back (establish_gnb_security_context lib ue smc)
  unfolding establish_gnb_security_context derive_5g_nas_keys
  establish-Back ue none = Back-ok ue
  establish-Back ue (some smc) =
      Back-Option smc.selected_ciphering_algorithm (ok ue) _ (Back-ok ue) (λ c.
        Back-Option smc.selected_integrity_algorithm (ok ue) _ (Back-ok ue) (λ i.
          establish_keys-Back (record ue { ciphering_alg = u8 c; integrity_alg = u8 i }) _
            (derive_nas_keys-Back ue.kamf lib.fc_algorithm (u8 c) (u8 i))))

  module _ (sht_string : ℕ → GoString) (nas_decode : List ℕ → Decoding)
      (decode_ends : (b : List ℕ) → Ends (nas_decode b)) where
    decode-Back : (b : List ℕ) → Back (nas_decode b)
    decode-Back b = record { back = decode_ends b }

    entered-Back :
        (ue : UeContext) (smc : Decoding)
        → Back smc
        → Back {E = KeyError} (elim smc [
          | ok r ↦ establish_gnb_security_context lib ue (some r)
          | err e ↦ ok ue
          | panic ↦ panic
          | stuck ↦ stuck
        ])
    entered-Back ue (ok r) h = establish-Back ue (some r)
    entered-Back ue (err e) h = Back-ok ue
    entered-Back ue panic h = Back-panic
    entered-Back ue stuck h = absurd (h.back)

    respond-Back :
        (ue : UeContext) (sht : ℕ) (message : List ℕ) (v : Option Bool) (d : Decoding)
        → Back d
        → Back (respond lib sht_string nas_decode ue sht message v d)
    unfolding respond
    respond-Back ue sht message v (ok r) h = Back-ok _
    respond-Back ue sht message v (err e) h = Back-ok _
    respond-Back ue sht message v panic h = Back-panic
    respond-Back ue sht message v stuck h = absurd (h.back)

    plain_response-Back :
        (ue : UeContext) (d : Decoding)
        → Back d
        → Back (plain_response lib sht_string nas_decode ue d)
    plain_response-Back ue (ok r) h = Back-ok _
    plain_response-Back ue (err e) h = Back-ok _
    plain_response-Back ue panic h = Back-panic
    plain_response-Back ue stuck h = absurd (h.back)

    peeked-Back :
        (ue : UeContext) (m : Outcome NasError (List ℕ))
        → Back m
        → Back {E = KeyError} (elim m [
          | ok inner ↦ elim (nas_decode inner) [
            | ok smc ↦ establish_gnb_security_context lib ue (some smc)
            | err e ↦ ok ue
            | panic ↦ panic
            | stuck ↦ stuck
          ]
          | err e ↦ ok ue
          | panic ↦ panic
          | stuck ↦ stuck
        ])
    peeked-Back ue (ok inner) h = entered-Back ue (nas_decode inner) (decode-Back inner)
    peeked-Back ue (err e) h = Back-ok ue
    peeked-Back ue panic h = Back-panic
    peeked-Back ue stuck h = absurd (h.back)

    peek-Back : (message : List ℕ) → Back (peek_protected_payload message)
    unfolding peek_protected_payload
    peek-Back message = search back_rules

    enter_context-Back :
        (ue : UeContext) (sht : ℕ) (message : List ℕ)
        → Back (enter_context lib sht_string nas_decode ue sht message)
    unfolding enter_context
    enter_context-Back ue sht message =
        Back-if (is_new_context lib sht) _ (ok ue)
          (peeked-Back ue (peek_protected_payload message) (peek-Back message)) (Back-ok ue)

    report-Back :
        (ue : UeContext) (sht : ℕ) (message : List ℕ) (u : Unprotected)
        → Back (report lib sht_string nas_decode ue sht message u)
    unfolding report
    report-Back ue sht message (none, e) = Back-ok _
    report-Back ue sht message (some inner, none) =
        respond-Back ue sht message _ _ (decode-Back inner)
    report-Back ue sht message (some inner, some e) =
        respond-Back ue sht message _ _ (decode-Back inner)

    report_peeked-Back :
        (ue : UeContext) (sht : ℕ) (message : List ℕ) (m : Outcome NasError (List ℕ))
        → Back (report_peeked lib sht_string nas_decode ue sht message m)
    unfolding report_peeked
    report_peeked-Back ue sht message (ok inner) =
        respond-Back ue sht message _ _ (decode-Back inner)
    report_peeked-Back ue sht message (err e) = Back-ok _
    report_peeked-Back ue sht message panic = Back-ok _
    report_peeked-Back ue sht message stuck = Back-ok _

    open_downlink-Back :
        (ue : UeContext) (sht count : ℕ) (message : List ℕ)
        → Back (open_downlink lib sht_string nas_decode ue sht count message)
    unfolding open_downlink
    open_downlink-Back ue sht count message =
        Back-if (not ue.security_active) _ _ (report_peeked-Back ue sht message _)
          (report-Back ue sht message _)

    decode_with_header-Back :
        (ue : UeContext) (message : List ℕ) (m : Outcome NasError ℕ)
        → Back (decode_with_header lib sht_string nas_decode ue message m)
    unfolding decode_with_header
    decode_with_header-Back ue message (ok sht) =
        let (ue1, count) = Gnb.next_dl ue (byte_at message 6) in
        Back-if (sht == lib.sht_plain) _ _
          (plain_response-Back ue (nas_decode message) (decode-Back message))
          (Back-if (ltb (length message) 7) (ok (ue, none, none)) _ (Back-ok _) (
            Back-bind (enter_context lib sht_string nas_decode ue1 sht message)
              (λ ue2. open_downlink lib sht_string nas_decode ue2 sht count message)
              (enter_context-Back ue1 sht message)
              (λ ue2 _. open_downlink-Back ue2 sht count message)))
    decode_with_header-Back ue message (err e) = Back-ok _
    decode_with_header-Back ue message panic = Back-ok _
    decode_with_header-Back ue message stuck = Back-ok _

    pub decode_gnb_downlink_nas-Ends :
        (ue : UeContext) (message : List ℕ)
        → Ends (decode_gnb_downlink_nas lib sht_string nas_decode ue message)
    unfolding decode_gnb_downlink_nas
    decode_gnb_downlink_nas-Ends ue message =
        (decode_with_header-Back ue message (security_header lib message)).back
