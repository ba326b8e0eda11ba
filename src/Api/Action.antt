-- ===== src/Api/Action.antt =====
-- A handler of a request on a 5G UE: state and exceptions. The state is the UE, its gNB and the
-- transport's frames, with a log of what was sent; what is written stays written after an error.
-- A handler waits at most once; `Env` says what happens in that wait.
use gpp_server.Common.{ℕ, Bool, true, false, Option, none, some, List, [], ◌∷◌, ◌++◌}
use gpp_server.Common.{Outcome, ok, err, panic, stuck, if◌then◌else◌}
use gpp_server.Common.Text.{GoString, hex_decode}
use gpp_server.Store.Contexts.{UeContext, GnbContext}
use gpp_server.Store.Gnb.{allocate_ran_ue_ngap_id}
use gpp_server.Transport.Framed.{Frames, Turn, TransportError, send, wait_for_message_matching}
use gpp_server.Nas.Library.{NasLibrary}
use gpp_server.Identity.Aka.{AkaLibrary}
use gpp_server.Api.Types.{NgapResponse, StatusError, Fault, no_response, bad_hex, send_failed}
use gpp_server.Api.Codec.{Codec}

pub record Env : Type 0 where
  pub nas : NasLibrary
  pub aka : AkaLibrary
  pub codec : Codec
  -- The connection's write, given what was sent before.
  pub write : List (List ℕ) → ℕ → List ℕ → Bool
  pub closed : Bool
  pub ended : Bool
  pub turns : List Turn

pub record Session : Type 0 where
  pub ue : UeContext
  pub gnb : GnbContext
  pub frames : Frames NgapResponse
  pub sent : List (List ℕ)

abbrev pub Action {ℓ} : Type ℓ → Type ℓ
Action A = Session → Session × Outcome StatusError A

module _ {ℓ} {A : Type ℓ} where
  unfoldable pub pure : A → Action A
  pure a s = (s, ok a)

  unfoldable pub fail : ℕ → Fault → Action A
  fail status cause s = (s, err (record { status = status; cause = cause }))

  unfoldable pub or_fail : ℕ → Fault → Option A → Action A
  or_fail status cause none = fail status cause
  or_fail status cause (some a) = pure a

-- The rest of a block, from the state and the outcome of its first step.
abbrev pub continue {ℓ κ} :
    {A : Type ℓ} {B : Type κ}
    → (A → Action B)
    → Session
    → Outcome StatusError A
    → Session × Outcome StatusError B
continue f s (ok a) = f a s
continue f s (err e) = (s, err e)
continue f s panic = (s, panic)
continue f s stuck = (s, stuck)

infixl 5 ◌>>=◌ ◌>>◌
unfoldable pub ◌>>=◌ {ℓ κ} : {A : Type ℓ} {B : Type κ} → Action A → (A → Action B) → Action B
◌>>=◌ m f s = continue f (m s).0 (m s).1

abbrev pub ◌>>◌ {ℓ κ} : {A : Type ℓ} {B : Type κ} → Action A → Action B → Action B
m >> k = m >>= λ _. k

unfoldable pub the_ue : Action UeContext
the_ue s = (s, ok (s.ue))

unfoldable pub the_gnb : Action GnbContext
the_gnb s = (s, ok (s.gnb))

-- A write to a field of the UE.
unfoldable pub modify_ue : (UeContext → UeContext) → Action (Unit {0})
modify_ue f s = (record s { ue = f (s.ue) }, ok tt)

-- `gnb.AllocateRANUENGAPID()`
unfoldable pub allocate_ran : Action ℕ
allocate_ran s = let (g, n) = allocate_ran_ue_ngap_id (s.gnb) in (record s { gnb = g }, ok n)

-- A field of the request that may be absent.
abbrev pub case_of {ℓ κ} :
    {A : Type ℓ} {B : Type κ} → Option A → Action B → (A → Action B) → Action B
case_of none m f = m
case_of (some a) m f = f a

-- `hex.DecodeString` of a field of the request.
abbrev pub from_hex : GoString → Action (List ℕ)
from_hex s = or_fail 400 bad_hex (hex_decode s)

module _ (env : Env) where
  abbrev pub was_sent : Outcome TransportError ℕ → Bool
  was_sent (ok stream) = true
  was_sent _ = false

  abbrev pub or_502 : Outcome TransportError ℕ → Outcome StatusError (Unit {0})
  or_502 (ok stream) = ok tt
  or_502 (err e) = err (record { status = 502; cause = send_failed })
  or_502 panic = panic
  or_502 stuck = stuck

  -- `t.Send(frame, nonUE)`
  abbrev pub written : Session → List ℕ → Bool → Outcome TransportError ℕ
  written s frame non_ue = send (env.write (s.sent)) env.closed frame non_ue

  abbrev pub with_sent : Session → List ℕ → Bool → Session
  with_sent s frame non_ue = record s {
    sent = if was_sent (written s frame non_ue) then s.sent ++ (frame ∷ []) else s.sent;
  }

  -- A send whose error is status 502.
  unfoldable pub send_stream : Bool → List ℕ → Action (Unit {0})
  send_stream non_ue frame s = (with_sent s frame non_ue, or_502 (written s frame non_ue))

  unfoldable pub send_frame : List ℕ → Action (Unit {0})
  send_frame = send_stream false

  -- A send where neither an error of the builder nor one of `Send` is looked at.
  unfoldable pub answer : Option (List ℕ) → Action (Unit {0})
  answer none s = (s, ok tt)
  answer (some frame) s = (with_sent s frame false, ok tt)

  abbrev pub or_none :
      Outcome TransportError NgapResponse → Outcome StatusError (Option NgapResponse)
  or_none (ok m) = ok (some m)
  or_none (err e) = ok none
  or_none panic = panic
  or_none stuck = stuck

  -- The wait; `none` is its error.
  unfoldable pub wait_for : (NgapResponse → Bool) → List GoString → Action (Option NgapResponse)
  wait_for match types s =
      let (left, outcome) =
        wait_for_message_matching env.codec.ngap_decode (λ r. r.message_type) match types s.frames
          env.ended env.turns in
      (record s { frames = left }, or_none outcome)

  -- The wait of most handlers, whose error is status 504.
  unfoldable pub wait_or_504 : (NgapResponse → Bool) → List GoString → Action NgapResponse
  wait_or_504 match types = wait_for match types >>= λ r. or_fail 504 no_response r
