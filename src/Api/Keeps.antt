-- ===== src/Api/Keeps.antt =====
-- What every step of a handler leaves as it is.
use gpp_server.Common.{
  ℕ, ◌≡◌, refl, ◌∙◌, ◌⊎◌, inl, inr, Bool, true, false, Option, none, some, List, [],
}
use gpp_server.Common.{
  Outcome, ok, err, panic, stuck, ◌>>=◌, if◌then◌else◌, not, ◌&&◌, ◌==◌, length, ltb,
}
use gpp_server.Common.Bytes.{byte_at, u8}
use gpp_server.Common.Text.{GoString}
use gpp_server.Store.Contexts.{UeContext}
use gpp_server.Store.Gnb
use gpp_server.Identity.Aka.{Aka5GResult, compute_5g_aka}
use gpp_server.Api.Action.{Env}
use gpp_server.Nas.Types.{NasResponse}
use gpp_server.Nas.Security.{
  NasError, Unprotected, protect, peek_protected_payload, security_header,
}
use gpp_server.Nas.Keys.{KeyError, derive_5g_nas_keys}
use gpp_server.Nas.GnbContext.{
  Decoding, respond, plain_response, UplinkOverrides, no_security_context, Downlink, restart,
  finish_uplink, count_of, is_new_context, encode_gnb_uplink_nas, establish_gnb_security_context,
  enter_context, report, report_peeked, open_downlink, decode_with_header, decode_gnb_downlink_nas,
}

-- The part of a UE that no handler writes: who it is and what it subscribes to.
abbrev pub subscriber : UeContext → UeContext
subscriber ue = record ue {
  ran_ue_ngap_id = 0;
  amf_ue_ngap_id = 0;
  ciphering_alg = 0;
  integrity_alg = 0;
  knas_enc = [];
  knas_int = [];
  kamf = [];
  ng_ksi = 0;
  ul_count = 0;
  dl_count = 0;
  security_active = false;
  last_uplink_nas = [];
  rand = [];
  autn = [];
  pdu_session_id = 0;
  pdu_sessions = [];
  guti = none;
}

-- NAS keys that the KDF gave, for some key of the access.
abbrev pub Derived : Env → List ℕ → List ℕ → Type 0
Derived env enc int =
    (kamf : List ℕ) × (calg : ℕ) × (ialg : ℕ) × (derive_5g_nas_keys env.nas kamf calg ialg
      ≡ ok (enc, int))

-- Algorithms that a message selected which was decoded.
abbrev pub Selected : Env → ℕ → ℕ → Type 0
Selected env calg ialg =
    (inner : List ℕ) × (r : NasResponse) × (c : ℕ) × (i : ℕ) × (env.codec.nas_decode inner ≡ ok r)
    × (r.selected_ciphering_algorithm ≡ some c)
    × (r.selected_integrity_algorithm ≡ some i)
    × (calg ≡ u8 c)
    × (ialg ≡ u8 i)

-- A key of the access that a 5G AKA computation gave.
abbrev pub Authenticated : Env → List ℕ → Type 0
Authenticated env kamf =
    (k : GoString) × (opc : GoString) × (sqn : GoString) × (supi : GoString) × (mcc : GoString)
    × (mnc : GoString) × (rand : List ℕ) × (autn : List ℕ) × (result : Aka5GResult)
    × (compute_5g_aka env.aka k opc sqn supi mcc mnc rand autn ≡ ok result)
    × (kamf ≡ result.kamf)

-- The same subscriber, and a security context that is not given up and not made up: it stays active,
-- its keys are the old ones or come from the KDF, its algorithms are the old ones or were selected,
-- and the key of the access is the old one or comes from an AKA computation.
pub record Successor (env : Env) (u v : UeContext) : Type 0 where
  pub same_subscriber : subscriber v ≡ subscriber u
  pub keys :
      (v.knas_enc ≡ u.knas_enc) × (v.knas_int ≡ u.knas_int) ⊎ Derived env v.knas_enc v.knas_int
  pub algorithms :
      (v.ciphering_alg ≡ u.ciphering_alg) × (v.integrity_alg ≡ u.integrity_alg)
      ⊎ Selected env v.ciphering_alg v.integrity_alg
  pub access_key : (v.kamf ≡ u.kamf) ⊎ Authenticated env v.kamf
  pub stays_active : u.security_active ≡ true → v.security_active ≡ true

pub successor :
    {env : Env} {u v : UeContext}
    → subscriber v ≡ subscriber u
    → (v.knas_enc ≡ u.knas_enc) × (v.knas_int ≡ u.knas_int) ⊎ Derived env v.knas_enc v.knas_int
    → (v.ciphering_alg ≡ u.ciphering_alg) × (v.integrity_alg ≡ u.integrity_alg)
      ⊎ Selected env v.ciphering_alg v.integrity_alg
    → (v.kamf ≡ u.kamf) ⊎ Authenticated env v.kamf
    → (u.security_active ≡ true → v.security_active ≡ true)
    → Successor env u v
successor e k a m f = record {
  same_subscriber = e;
  keys = k;
  algorithms = a;
  access_key = m;
  stays_active = f;
}

pub Successor-refl : {env : Env} (u : UeContext) → Successor env u u
Successor-refl u = successor refl (inl (refl, refl)) (inl (refl, refl)) (inl refl) (λ h. h)

pub Successor-trans :
    {env : Env} (u v w : UeContext) → Successor env u v → Successor env v w → Successor env u w
Successor-trans {env} u v w p q =
    successor (q.same_subscriber ∙ p.same_subscriber) (both_keys p.keys q.keys)
      (both_algorithms p.algorithms q.algorithms) (both_access p.access_key q.access_key)
      (λ h. q.stays_active (p.stays_active h))
  where
    both_keys :
        (v.knas_enc ≡ u.knas_enc) × (v.knas_int ≡ u.knas_int) ⊎ Derived env v.knas_enc v.knas_int
        → (w.knas_enc ≡ v.knas_enc) × (w.knas_int ≡ v.knas_int) ⊎ Derived env w.knas_enc w.knas_int
        → (w.knas_enc ≡ u.knas_enc) × (w.knas_int ≡ u.knas_int) ⊎ Derived env w.knas_enc w.knas_int
    both_keys a (inr d) = inr d
    both_keys (inl (e, e')) (inl (h, h')) = inl (h ∙ e, h' ∙ e')
    both_keys (inr (k, c, i, e)) (inl (h, h')) = inr (k, c, i, rw (h, h') e)

    both_algorithms :
        (v.ciphering_alg ≡ u.ciphering_alg) × (v.integrity_alg ≡ u.integrity_alg)
          ⊎ Selected env v.ciphering_alg v.integrity_alg
        → (w.ciphering_alg ≡ v.ciphering_alg) × (w.integrity_alg ≡ v.integrity_alg)
          ⊎ Selected env w.ciphering_alg w.integrity_alg
        → (w.ciphering_alg ≡ u.ciphering_alg) × (w.integrity_alg ≡ u.integrity_alg)
          ⊎ Selected env w.ciphering_alg w.integrity_alg
    both_algorithms a (inr d) = inr d
    both_algorithms (inl (e, e')) (inl (h, h')) = inl (h ∙ e, h' ∙ e')
    both_algorithms (inr (b, r, c, i, d, sc, si, e, e')) (inl (h, h')) =
        inr (b, r, c, i, d, sc, si, h ∙ e, h' ∙ e')

    both_access :
        (v.kamf ≡ u.kamf) ⊎ Authenticated env v.kamf
        → (w.kamf ≡ v.kamf) ⊎ Authenticated env w.kamf
        → (w.kamf ≡ u.kamf) ⊎ Authenticated env w.kamf
    both_access a (inr d) = inr d
    both_access (inl e) (inl h) = inl (h ∙ e)
    both_access (inr (k, opc, sqn, supi, mcc, mnc, rand, autn, r, d, e)) (inl h) =
        inr (k, opc, sqn, supi, mcc, mnc, rand, autn, r, d, h ∙ e)

finish_uplink-Successor :
    {env : Env} (ue : UeContext) (req : Option UplinkOverrides) (p : Outcome NasError (List ℕ))
    → Successor env ue (finish_uplink ue req p).0
finish_uplink-Successor ue req (ok p) =
    successor refl (inl (refl, refl)) (inl (refl, refl)) (inl refl) (λ h. h)
finish_uplink-Successor ue req (err e) =
    successor refl (inl (refl, refl)) (inl (refl, refl)) (inl refl) (λ h. h)
finish_uplink-Successor ue req panic =
    successor refl (inl (refl, refl)) (inl (refl, refl)) (inl refl) (λ h. h)
finish_uplink-Successor ue req stuck =
    successor refl (inl (refl, refl)) (inl (refl, refl)) (inl refl) (λ h. h)

restart-Successor : {env : Env} (b : Bool) (ue : UeContext) → Successor env ue (restart b ue)
restart-Successor true ue = successor refl (inl (refl, refl)) (inl (refl, refl)) (inl refl) (λ h. h)
restart-Successor false ue =
    successor refl (inl (refl, refl)) (inl (refl, refl)) (inl refl) (λ h. h)

-- A predicate on the UE of a result.
abbrev pub OnUe : (UeContext → Type 0) → Outcome KeyError UeContext → Type 0
OnUe P (ok v) = P v
OnUe P _ = Unit {0}

Option-OnUe {ℓ} :
    {A : Type ℓ} (P : UeContext → Type 0) (o : Option A) (n : Outcome KeyError UeContext)
    (f : A → Outcome KeyError UeContext)
    → OnUe P n
    → ((a : A) → o ≡ some a → OnUe P (f a))
    → OnUe P (elim o [ none ↦ n | some a ↦ f a ])
Option-OnUe P none n f hn hf = hn
Option-OnUe P (some a) n f hn hf = hf a refl

abbrev pub first_ue {ℓ} : {A : Type ℓ} → UeContext × A → UeContext
first_ue r = r.0

if_Successor {ℓ} :
    {env : Env} {R : Type ℓ} (b : Bool) (ue : UeContext) (x y : UeContext × R)
    → Successor env ue (first_ue x)
    → Successor env ue (first_ue y)
    → Successor env ue (first_ue (if b then x else y))
if_Successor true ue x y h k = h
if_Successor false ue x y h k = k

OnUe-trans :
    {env : Env} (u v : UeContext) (m : Outcome KeyError UeContext)
    → Successor env u v
    → OnUe (Successor env v) m
    → OnUe (Successor env u) m
OnUe-trans u v (ok w) h k = Successor-trans u v w h k
OnUe-trans u v (err e) h k = tt
OnUe-trans u v panic h k = tt
OnUe-trans u v stuck h k = tt

module _ (env : Env) where
  pub encode_gnb_uplink_nas-Successor :
      (ue : UeContext) (plain : List ℕ) (sht : ℕ) (req : Option UplinkOverrides)
      → Successor env ue (encode_gnb_uplink_nas env.nas ue plain sht req).0
  unfolding encode_gnb_uplink_nas Gnb.next_ul
  encode_gnb_uplink_nas-Successor ue plain sht req =
      let ue1 = restart (is_new_context env.nas sht) ue in
      let (ue2, next) = Gnb.next_ul ue1 in
      let protected =
        protect env.nas plain sht (count_of req next) ue2.ciphering_alg ue2.integrity_alg
          ue2.knas_enc ue2.knas_int in
      if_Successor (not ue.security_active && length ue.kamf == 0) ue (ue, err no_security_context)
        (finish_uplink ue2 req protected) (Successor-refl ue)
        (Successor-trans ue ue2 (finish_uplink ue2 req protected).0
          (Successor-trans ue ue1 ue2 (restart-Successor (is_new_context env.nas sht) ue)
            (successor refl (inl (refl, refl)) (inl (refl, refl)) (inl refl) (λ h. h)))
          (finish_uplink-Successor ue2 req protected))

  establish_keys-Successor :
      (ue : UeContext) (calg ialg : ℕ) (m : Outcome KeyError (List ℕ × List ℕ))
      → derive_5g_nas_keys env.nas ue.kamf calg ialg ≡ m
      → OnUe (Successor env ue) (elim m [
        | ok keys ↦ ok (record ue {
          knas_enc = keys.0;
          knas_int = keys.1;
          dl_count = 0;
          security_active = true;
        })
        | err e ↦ ok ue
        | panic ↦ panic
        | stuck ↦ stuck
      ])
  establish_keys-Successor ue calg ialg (ok keys) h =
      successor refl (inr (ue.kamf, calg, ialg, h)) (inl (refl, refl)) (inl refl) (λ _. refl)
  establish_keys-Successor ue calg ialg (err e) h = Successor-refl ue
  establish_keys-Successor ue calg ialg panic h = tt
  establish_keys-Successor ue calg ialg stuck h = tt

  establish-Successor :
      (ue : UeContext) (inner : List ℕ) (smc : NasResponse)
      → env.codec.nas_decode inner ≡ ok smc
      → OnUe (Successor env ue) (establish_gnb_security_context env.nas ue (some smc))
  unfolding establish_gnb_security_context
  establish-Successor ue inner smc d =
      Option-OnUe (Successor env ue) (smc.selected_ciphering_algorithm) _ _ (Successor-refl ue)
        (λ c hc.
          Option-OnUe (Successor env ue) (smc.selected_integrity_algorithm) _ _ (Successor-refl ue)
            (λ i hi.
              OnUe-trans ue (record ue { ciphering_alg = u8 c; integrity_alg = u8 i }) _
                (successor refl (inl (refl, refl)) (inr (inner, smc, c, i, d, hc, hi, refl, refl))
                  (inl refl) (λ h. h))
                (establish_keys-Successor _ (u8 c) (u8 i) _ refl)))

  abbrev pub OnDownlink : (UeContext → Type 0) → Outcome KeyError Downlink → Type 0
  OnDownlink P (ok d) = P d.0
  OnDownlink P _ = Unit {0}

  entered-Successor :
      (ue : UeContext) (inner : List ℕ) (smc : Decoding)
      → env.codec.nas_decode inner ≡ smc
      → OnUe (Successor env ue) (elim smc [
        | ok r ↦ establish_gnb_security_context env.nas ue (some r)
        | err e ↦ ok ue
        | panic ↦ panic
        | stuck ↦ stuck
      ])
  entered-Successor ue inner (ok r) d = establish-Successor ue inner r d
  entered-Successor ue inner (err e) d = Successor-refl ue
  entered-Successor ue inner panic d = tt
  entered-Successor ue inner stuck d = tt

  peeked-Successor :
      (ue : UeContext) (m : Outcome NasError (List ℕ))
      → OnUe (Successor env ue) (elim m [
        | ok inner ↦ elim (env.codec.nas_decode inner) [
          | ok smc ↦ establish_gnb_security_context env.nas ue (some smc)
          | err e ↦ ok ue
          | panic ↦ panic
          | stuck ↦ stuck
        ]
        | err e ↦ ok ue
        | panic ↦ panic
        | stuck ↦ stuck
      ])
  peeked-Successor ue (ok inner) = entered-Successor ue inner (env.codec.nas_decode inner) refl
  peeked-Successor ue (err e) = Successor-refl ue
  peeked-Successor ue panic = tt
  peeked-Successor ue stuck = tt

  if_OnUe :
      (b : Bool) (ue : UeContext) (x y : Outcome KeyError UeContext)
      → OnUe (Successor env ue) x
      → OnUe (Successor env ue) y
      → OnUe (Successor env ue) (if b then x else y)
  if_OnUe true ue x y h k = h
  if_OnUe false ue x y h k = k

  enter_context-Successor :
      (ue : UeContext) (sht : ℕ) (message : List ℕ)
      → OnUe
          (Successor env ue)
          (enter_context env.nas env.codec.sht_string env.codec.nas_decode ue sht message)
  unfolding enter_context
  enter_context-Successor ue sht message =
      if_OnUe (is_new_context env.nas sht) ue _ (ok ue)
        (peeked-Successor ue (peek_protected_payload message)) (Successor-refl ue)

  if_OnDownlink :
      (b : Bool) (ue : UeContext) (x y : Outcome KeyError Downlink)
      → OnDownlink (Successor env ue) x
      → OnDownlink (Successor env ue) y
      → OnDownlink (Successor env ue) (if b then x else y)
  if_OnDownlink true ue x y h k = h
  if_OnDownlink false ue x y h k = k

  respond-Successor :
      (ue : UeContext) (sht : ℕ) (message : List ℕ) (v : Option Bool) (d : Decoding)
      → OnDownlink
          (Successor env ue)
          (respond env.nas env.codec.sht_string env.codec.nas_decode ue sht message v d)
  unfolding respond
  respond-Successor ue sht message v (ok r) = Successor-refl ue
  respond-Successor ue sht message v (err e) = Successor-refl ue
  respond-Successor ue sht message v panic = tt
  respond-Successor ue sht message v stuck = tt

  report-Successor :
      (ue : UeContext) (sht : ℕ) (message : List ℕ) (u : Unprotected)
      → OnDownlink
          (Successor env ue)
          (report env.nas env.codec.sht_string env.codec.nas_decode ue sht message u)
  unfolding report
  report-Successor ue sht message (none, e) = Successor-refl ue
  report-Successor ue sht message (some inner, none) = respond-Successor ue sht message _ _
  report-Successor ue sht message (some inner, some e) = respond-Successor ue sht message _ _

  report_peeked-Successor :
      (ue : UeContext) (sht : ℕ) (message : List ℕ) (m : Outcome NasError (List ℕ))
      → OnDownlink
          (Successor env ue)
          (report_peeked env.nas env.codec.sht_string env.codec.nas_decode ue sht message m)
  unfolding report_peeked
  report_peeked-Successor ue sht message (ok inner) = respond-Successor ue sht message _ _
  report_peeked-Successor ue sht message (err e) = Successor-refl ue
  report_peeked-Successor ue sht message panic = Successor-refl ue
  report_peeked-Successor ue sht message stuck = Successor-refl ue

  open_downlink-Successor :
      (ue : UeContext) (sht count : ℕ) (message : List ℕ)
      → OnDownlink
          (Successor env ue)
          (open_downlink env.nas env.codec.sht_string env.codec.nas_decode ue sht count message)
  unfolding open_downlink
  open_downlink-Successor ue sht count message =
      if_OnDownlink (not ue.security_active) ue _ _ (report_peeked-Successor ue sht message _)
        (report-Successor ue sht message _)

  plain_response-Successor :
      (ue : UeContext) (d : Decoding)
      → OnDownlink
          (Successor env ue)
          (plain_response env.nas env.codec.sht_string env.codec.nas_decode ue d)
  plain_response-Successor ue (ok r) = Successor-refl ue
  plain_response-Successor ue (err e) = Successor-refl ue
  plain_response-Successor ue panic = tt
  plain_response-Successor ue stuck = tt

  OnDownlink-trans :
      (u v : UeContext) (m : Outcome KeyError Downlink)
      → Successor env u v
      → OnDownlink (Successor env v) m
      → OnDownlink (Successor env u) m
  OnDownlink-trans u v (ok d) h k = Successor-trans u v d.0 h k
  OnDownlink-trans u v (err e) h k = tt
  OnDownlink-trans u v panic h k = tt
  OnDownlink-trans u v stuck h k = tt

  opened-Successor :
      (ue : UeContext) (sht count : ℕ) (message : List ℕ) (m : Outcome KeyError UeContext)
      → OnUe (Successor env ue) m
      → OnDownlink (Successor env ue) (
          m >>= λ ue2.
          open_downlink env.nas env.codec.sht_string env.codec.nas_decode ue2 sht count message)
  opened-Successor ue sht count message (ok w) h =
      OnDownlink-trans ue w _ h (open_downlink-Successor w sht count message)
  opened-Successor ue sht count message (err e) h = tt
  opened-Successor ue sht count message panic h = tt
  opened-Successor ue sht count message stuck h = tt

  decode_with_header-Successor :
      (ue : UeContext) (message : List ℕ) (m : Outcome NasError ℕ)
      → OnDownlink
          (Successor env ue)
          (decode_with_header env.nas env.codec.sht_string env.codec.nas_decode ue message m)
  unfolding decode_with_header Gnb.next_dl
  decode_with_header-Successor ue message (ok sht) =
      let (ue1, count) = Gnb.next_dl ue (byte_at message 6) in
      if_OnDownlink (sht == env.nas.sht_plain) ue _ _
        (plain_response-Successor ue (env.codec.nas_decode message))
        (if_OnDownlink (ltb (length message) 7) ue (ok (ue, none, none)) _ (Successor-refl ue) (
          opened-Successor ue sht count message _ (
            OnUe-trans ue ue1
              (enter_context env.nas env.codec.sht_string env.codec.nas_decode ue1 sht message)
              (successor refl (inl (refl, refl)) (inl (refl, refl)) (inl refl) (λ h. h))
              (enter_context-Successor ue1 sht message))))
  decode_with_header-Successor ue message (err e) = Successor-refl ue
  decode_with_header-Successor ue message panic = Successor-refl ue
  decode_with_header-Successor ue message stuck = Successor-refl ue

  pub decode_gnb_downlink_nas-Successor :
      (ue : UeContext) (message : List ℕ)
      → OnDownlink
          (Successor env ue)
          (decode_gnb_downlink_nas env.nas env.codec.sht_string env.codec.nas_decode ue message)
  unfolding decode_gnb_downlink_nas
  decode_gnb_downlink_nas-Successor ue message =
      decode_with_header-Successor ue message (security_header env.nas message)
