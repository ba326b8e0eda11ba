-- ===== src/Api/Steps.antt =====
-- What every handler leaves as it is: rules for the steps of a handler.
use gpp_server.Common.{
  ℕ, ◌≡◌, refl, sym, ap, ◌∙◌, Bool, true, false, Option, none, some, List, [], ◌∷◌, ◌++◌,
}
use gpp_server.Common.{Outcome, ok, err, panic, stuck, Ends, if◌then◌else◌}
use gpp_server.Common.Text.{GoString}
use gpp_server.Store.Contexts.{UeContext, GnbContext}
use gpp_server.Store.Gnb.{allocate_ran_ue_ngap_id}
use gpp_server.Transport.Framed.{Frames, TransportError, transport_closed, send_failed, send}
use gpp_server.Nas.GnbContext.{
  Decoding, UplinkOverrides, UplinkError, Downlink, encode_gnb_uplink_nas,
}
use gpp_server.Nas.Keys.{KeyError}
use gpp_server.Identity.Aka.{AkaError}
use gpp_server.Api.Types.{
  NgapResponse, StatusError, Fault, no_response, aka_failed, security_failed,
}
use gpp_server.Api.Action.{
  Env, Session, Action, pure, fail, or_fail, case_of, continue, ◌>>=◌, the_ue, the_gnb, modify_ue,
  allocate_ran, send_stream, send_frame, answer, wait_for, wait_or_504, was_sent, or_502, written,
  or_none,
}
use gpp_server.Api.Exchange.{protect_uplink, decode_downlink, take_downlink, decode_plain}
use gpp_server.Api.Authentication.{or_aka_failed}
use gpp_server.Api.Decodes.{encode_gnb_uplink_nas-Ends, decode_gnb_downlink_nas-Ends}
use gpp_server.Transport.Waits.{ends, Ended, wait_for_message_matching-Ended}
use gpp_server.Api.Keeps.{
  Successor, Successor-refl, Successor-trans, OnDownlink, encode_gnb_uplink_nas-Successor,
  decode_gnb_downlink_nas-Successor,
}
use mathlib.Core.List.{append_assoc, append-nil}

-- A gNB but for its counter of identities.
abbrev pub station : GnbContext → GnbContext
station g = record g { next_ran_ue_id = 0 }

-- The subscriber and the gNB stay the same, a security context is not given up, and what was sent
-- stays sent.
pub record Later (env : Env) (s t : Session) : Type 0 where
  pub ue_later : Successor env s.ue t.ue
  pub same_station : station t.gnb ≡ station s.gnb
  pub more_sent : List (List ℕ)
  pub log : t.sent ≡ s.sent ++ more_sent

pub Later-refl : {env : Env} (s : Session) → Later env s s
Later-refl s = record {
  ue_later = Successor-refl s.ue;
  same_station = refl;
  more_sent = [];
  log = sym (append-nil s.sent);
}

pub Later-trans : {env : Env} (s t u : Session) → Later env s t → Later env t u → Later env s u
Later-trans s t u p q = record {
  ue_later = Successor-trans s.ue t.ue u.ue p.ue_later q.ue_later;
  same_station = q.same_station ∙ p.same_station;
  more_sent = p.more_sent ++ q.more_sent;
  log = q.log ∙ ap (λ l. l ++ q.more_sent) p.log ∙ append_assoc s.sent p.more_sent q.more_sent;
}

-- What a handler waits for and calls ends: the context of the wait, and nas5gs.Decode.
pub record CallsEnd (env : Env) : Type 0 where
  pub context_ends : ends env.ended env.turns ≡ true
  pub decode_ends : (b : List ℕ) → Ends (env.codec.nas_decode b)

-- A step goes to a later session, and ends.
pub record Keeps {ℓ} {A : Type ℓ} (env : Env) (m : Action A) : Type ℓ where
  pub at : (s : Session) → Later env s (m s).0
  pub ends : CallsEnd env → (s : Session) → Ends (m s).1

module _ {ℓ} {A : Type ℓ} {env : Env} where
  pub Keeps-pure : (a : A) → Keeps env (pure a)
  unfolding pure
  Keeps-pure a = record { at = Later-refl; ends = λ h s. tt }

  pub Keeps-fail : (status : ℕ) (cause : Fault) → Keeps {A = A} env (fail status cause)
  unfolding fail
  Keeps-fail status cause = record { at = Later-refl; ends = λ h s. tt }

  pub Keeps-or_fail :
      (status : ℕ) (cause : Fault) (o : Option A) → Keeps env (or_fail status cause o)
  unfolding or_fail
  Keeps-or_fail status cause none = Keeps-fail status cause
  Keeps-or_fail status cause (some a) = Keeps-pure a

  pub Keeps-if :
      (b : Bool) (m n : Action A) → Keeps env m → Keeps env n → Keeps env (if b then m else n)
  Keeps-if true m n km kn = km
  Keeps-if false m n km kn = kn

  pub Keeps-aka : (r : Outcome AkaError A) → Ends r → Keeps env (or_aka_failed r)
  Keeps-aka (ok a) h = record {
    at = λ s. (Keeps-pure a).at s;
    ends = λ w s. (Keeps-pure a).ends w s;
  }
  Keeps-aka (err e) h = record {
    at = λ s. (Keeps-fail 500 aka_failed).at s;
    ends = λ w s. (Keeps-fail 500 aka_failed).ends w s;
  }
  Keeps-aka panic h = record { at = Later-refl; ends = λ w s. tt }
  Keeps-aka stuck h = absurd h

module _ {ℓ κ} {A : Type ℓ} {B : Type κ} {env : Env} where
  -- The rest of a block after an AKA computation, which knows its result.
  pub Keeps-aka-bind :
      (r : Outcome AkaError A) (f : A → Action B)
      → Ends r
      → ((a : A) → r ≡ ok a → Keeps env (f a))
      → Keeps env (or_aka_failed r >>= f)
  unfolding ◌>>=◌ pure fail
  Keeps-aka-bind (ok a) f h k = record {
    at = λ s. (k a refl).at s;
    ends = λ w s. (k a refl).ends w s;
  }
  Keeps-aka-bind (err e) f h k = record { at = Later-refl; ends = λ w s. tt }
  Keeps-aka-bind panic f h k = record { at = Later-refl; ends = λ w s. tt }
  Keeps-aka-bind stuck f h k = absurd h

  pub Keeps-case :
      (o : Option A) (m : Action B) (f : A → Action B)
      → Keeps env m
      → ((a : A) → Keeps env (f a))
      → Keeps env (case_of o m f)
  Keeps-case none m f km kf = km
  Keeps-case (some a) m f km kf = kf a

  continue-Later :
      (f : A → Action B) (s t : Session) (r : Outcome StatusError A)
      → Later env s t
      → ((a : A) → Keeps env (f a))
      → Later env s (continue f t r).0
  continue-Later f s t (ok a) h kf = Later-trans s t (f a t).0 h ((kf a).at t)
  continue-Later f s t (err e) h kf = h
  continue-Later f s t panic h kf = h
  continue-Later f s t stuck h kf = h

  continue-Ends :
      (f : A → Action B) (t : Session) (r : Outcome StatusError A)
      → CallsEnd env
      → Ends r
      → ((a : A) → Keeps env (f a))
      → Ends (continue f t r).1
  continue-Ends f t (ok a) w h kf = (kf a).ends w t
  continue-Ends f t (err e) w h kf = tt
  continue-Ends f t panic w h kf = h
  continue-Ends f t stuck w h kf = h

  pub Keeps-bind :
      (m : Action A) (f : A → Action B)
      → Keeps env m
      → ((a : A) → Keeps env (f a))
      → Keeps env (m >>= f)
  unfolding ◌>>=◌
  Keeps-bind m f km kf = record {
    at = λ s. continue-Later f s (m s).0 (m s).1 (km.at s) kf;
    ends = λ w s. continue-Ends f (m s).0 (m s).1 w (km.ends w s) kf;
  }

-- A change of the UE, of the gNB and of the log.
with_ue :
    {env : Env} (s : Session) (u : UeContext)
    → Successor env s.ue u
    → Later env s (record s { ue = u })
with_ue s u h = record {
  ue_later = h;
  same_station = refl;
  more_sent = [];
  log = sym (append-nil s.sent);
}

with_log :
    {env : Env} (s : Session) (b : Bool) (frame : List ℕ)
    → Later env s (record s { sent = if b then s.sent ++ (frame ∷ []) else s.sent })
with_log s true frame = record {
  ue_later = Successor-refl s.ue;
  same_station = refl;
  more_sent = frame ∷ [];
  log = refl;
}
with_log s false frame = Later-refl s

pub Keeps-the_ue : {env : Env} → Keeps env the_ue
unfolding the_ue
Keeps-the_ue = record { at = Later-refl; ends = λ w s. tt }

pub Keeps-the_gnb : {env : Env} → Keeps env the_gnb
unfolding the_gnb
Keeps-the_gnb = record { at = Later-refl; ends = λ w s. tt }

pub Keeps-allocate_ran : {env : Env} → Keeps env allocate_ran
unfolding allocate_ran allocate_ran_ue_ngap_id
Keeps-allocate_ran = record {
  at = λ s. record {
    ue_later = Successor-refl s.ue;
    same_station = refl;
    more_sent = [];
    log = sym (append-nil s.sent);
  };
  ends = λ w s. tt;
}

pub Keeps-modify_ue :
    {env : Env} (f : UeContext → UeContext)
    → ((u : UeContext) → Successor env u (f u))
    → Keeps env (modify_ue f)
unfolding modify_ue
Keeps-modify_ue f h = record { at = λ s. with_ue s (f s.ue) (h s.ue); ends = λ w s. tt }

module _ (env : Env) where
  or_502-Ends : (o : Outcome TransportError ℕ) → Ends o → Ends (or_502 env o)
  or_502-Ends (ok stream) h = tt
  or_502-Ends (err e) h = tt
  or_502-Ends panic h = h
  or_502-Ends stuck h = h

  if-Ends :
      (b : Bool) (x y : Outcome TransportError ℕ) → Ends x → Ends y → Ends (if b then x else y)
  if-Ends true x y h k = h
  if-Ends false x y h k = k

  written-Ends : (s : Session) (frame : List ℕ) (non_ue : Bool) → Ends (written env s frame non_ue)
  unfolding send
  written-Ends s frame non_ue =
      let stream = if non_ue then 0 else 1 in
      if-Ends env.closed (err transport_closed) _ tt
        (if-Ends (env.write s.sent stream frame) (ok stream) (err send_failed) tt tt)

  pub Keeps-send_stream :
      (non_ue : Bool) (frame : List ℕ) → Keeps env (send_stream env non_ue frame)
  unfolding send_stream
  Keeps-send_stream non_ue frame = record {
    at = λ s. with_log s (was_sent env (written env s frame non_ue)) frame;
    ends = λ w s. or_502-Ends (written env s frame non_ue) (written-Ends s frame non_ue);
  }

  pub Keeps-send_frame : (frame : List ℕ) → Keeps env (send_frame env frame)
  unfolding send_frame
  Keeps-send_frame = Keeps-send_stream false

  pub Keeps-answer : (o : Option (List ℕ)) → Keeps env (answer env o)
  unfolding answer
  Keeps-answer none = record { at = Later-refl; ends = λ w s. tt }
  Keeps-answer (some frame) = record {
    at = λ s. with_log s (was_sent env (written env s frame false)) frame;
    ends = λ w s. tt;
  }

  or_none-Ends : (o : Outcome TransportError NgapResponse) → Ends o → Ends (or_none env o)
  or_none-Ends (ok m) h = tt
  or_none-Ends (err e) h = tt
  or_none-Ends panic h = h
  or_none-Ends stuck h = h

  comes_back :
      (match : NgapResponse → Bool) (types : List GoString) (now left : Frames NgapResponse)
      (o : Outcome TransportError NgapResponse)
      → Ended env.codec.ngap_decode (λ r. r.message_type) match types now (left, o)
      → Ends o
  comes_back match types now left (ok m) h = tt
  comes_back match types now left (err e) h = tt
  comes_back match types now left panic h = absurd (h.lower)
  comes_back match types now left stuck h = absurd (h.lower)

  pub Keeps-wait_for :
      (match : NgapResponse → Bool) (types : List GoString) → Keeps env (wait_for env match types)
  unfolding wait_for
  Keeps-wait_for match types = record {
    at = λ s. record {
      ue_later = Successor-refl s.ue;
      same_station = refl;
      more_sent = [];
      log = sym (append-nil s.sent);
    };
    ends = λ w s.
        let key : NgapResponse → GoString = λ r. r.message_type in
        let (before, after, split, late, ended) =
          wait_for_message_matching-Ended env.codec.ngap_decode key match types s.frames env.ended
            env.turns w.context_ends in
        or_none-Ends _ (comes_back match types _ _ _ ended);
  }

  pub Keeps-wait_or_504 :
      (match : NgapResponse → Bool) (types : List GoString)
      → Keeps env (wait_or_504 env match types)
  unfolding wait_or_504
  Keeps-wait_or_504 match types =
      Keeps-bind (wait_for env match types) _ (Keeps-wait_for match types)
        (λ r. Keeps-or_fail 504 no_response r)

  protected-Ends :
      (o : Outcome UplinkError (List ℕ))
      → Ends o
      → Ends {E = StatusError} {A = List ℕ} (elim o [
        | ok p ↦ ok p
        | err e ↦ err (record { status = 500; cause = security_failed })
        | panic ↦ panic
        | stuck ↦ stuck
      ])
  protected-Ends (ok p) h = tt
  protected-Ends (err e) h = tt
  protected-Ends panic h = h
  protected-Ends stuck h = h

  pub Keeps-protect_uplink :
      (plain : List ℕ) (sht : ℕ) (req : Option UplinkOverrides)
      → Keeps env (protect_uplink env plain sht req)
  unfolding protect_uplink
  Keeps-protect_uplink plain sht req = record {
    at = λ s.
        with_ue s (encode_gnb_uplink_nas env.nas s.ue plain sht req).0
          (encode_gnb_uplink_nas-Successor env s.ue plain sht req);
    ends = λ w s. protected-Ends _ (encode_gnb_uplink_nas-Ends env.nas s.ue plain sht req);
  }

  take_downlink-Later :
      (s : Session) (m : Outcome KeyError Downlink)
      → OnDownlink env (Successor env s.ue) m
      → Later env s (take_downlink env s m).0
  take_downlink-Later s (ok (ue, nas, verified)) h = with_ue s ue h
  take_downlink-Later s (err e) h = Later-refl s
  take_downlink-Later s panic h = Later-refl s
  take_downlink-Later s stuck h = Later-refl s

  taken-Ends :
      (s : Session) (m : Outcome KeyError Downlink) → Ends m → Ends (take_downlink env s m).1
  taken-Ends s (ok (ue, nas, verified)) h = tt
  taken-Ends s (err e) h = tt
  taken-Ends s panic h = h
  taken-Ends s stuck h = h

  pub Keeps-decode_downlink : (message : List ℕ) → Keeps env (decode_downlink env message)
  unfolding decode_downlink
  Keeps-decode_downlink message = record {
    at = λ s. take_downlink-Later s _ (decode_gnb_downlink_nas-Successor env s.ue message);
    ends = λ w s. taken-Ends s _ (
        decode_gnb_downlink_nas-Ends env.nas env.codec.sht_string env.codec.nas_decode w.decode_ends
          s.ue message);
  }

  plain-Later : (d : Decoding) (s : Session) → Later env s (decode_plain env d s).0
  unfolding decode_plain
  plain-Later (ok r) s = Later-refl s
  plain-Later (err e) s = Later-refl s
  plain-Later panic s = Later-refl s
  plain-Later stuck s = Later-refl s

  plain-Ends : (d : Decoding) (s : Session) → Ends d → Ends (decode_plain env d s).1
  unfolding decode_plain
  plain-Ends (ok r) s h = tt
  plain-Ends (err e) s h = tt
  plain-Ends panic s h = h
  plain-Ends stuck s h = h

  pub Keeps-decode_plain :
      (message : List ℕ) → Keeps env (decode_plain env (env.codec.nas_decode message))
  Keeps-decode_plain message = record {
    at = plain-Later (env.codec.nas_decode message);
    ends = λ w s. plain-Ends (env.codec.nas_decode message) s (w.decode_ends message);
  }

pub ruleset keeps_rules = (
  Keeps-pure, Keeps-fail, Keeps-or_fail, Keeps-if, Keeps-case, Keeps-bind, Keeps-the_ue,
  Keeps-the_gnb, Keeps-allocate_ran, Keeps-modify_ue, Keeps-send_stream, Keeps-send_frame,
  Keeps-answer, Keeps-wait_for, Keeps-wait_or_504, Keeps-protect_uplink, Keeps-decode_downlink,
  Keeps-decode_plain,
)
