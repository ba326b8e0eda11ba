-- ===== src/Api/Dispatched.antt =====
-- What a request on a 5G UE leaves as it is.
use gpp_server.Common.{
  ℕ, ◌≡◌, refl, sym, ap, ◌∙◌, Bool, true, false, Option, none, some, List, [], ◌∷◌, ◌++◌,
}
use gpp_server.Common.{
  Outcome, ok, err, panic, stuck, Ends, if◌then◌else◌, Bool-cases, inl, inr, if_true, if_false,
  ◌==◌, ==_iff,
}
use mathlib.Core.List.{append-nil}
use gpp_server.Common.Maps.{bytes_key, lookup, insert, lookup-insert}
use gpp_server.Common.Text.{GoString}
use gpp_server.Store.Contexts.{World, update}
use gpp_server.Store.Registry
use gpp_server.Store.Registry.{StoreError, gnb_not_found}
use gpp_server.Store.Gnb
use gpp_server.Api.Types.{SendGnbUeNgapRequest}
use gpp_server.Api.Action.{Action, Env, Session}
use gpp_server.Api.Keeps.{Successor, Successor-refl}
use gpp_server.Api.Steps.{CallsEnd, Keeps, station}
use gpp_server.Api.Dispatch.{
  Connection, ApiState, Handler, run_on, on_connection, on_ue, on_gnb, is_there,
}

-- A property of every handler in a table.
pub data Each {H : Type 0} (P : H → Type 0) : List (GoString × H) → Type 0 where
  no_more : Each P []
  more :
      {name : GoString} {h : H} {l : List (GoString × H)} → P h → Each P l → Each P ((name, h) ∷ l)

abbrev pub OfFound : {H : Type 0} → (H → Type 0) → Option H → Type 0
OfFound P none = Unit {0}
OfFound P (some h) = P h

if-OfFound :
    {H : Type 0} (P : H → Type 0) (b : Bool) (h : H) (o : Option H)
    → P h
    → OfFound P o
    → OfFound P (if b then some h else o)
if-OfFound P true h o p q = p
if-OfFound P false h o p q = q

pub lookup-Each :
    {H : Type 0} (P : H → Type 0) (name : GoString) (l : List (GoString × H))
    → Each P l
    → OfFound P (lookup name l)
unfolding lookup
lookup-Each P name _ no_more = tt
lookup-Each P name _ (more {name = n} {h = h} {l = l} p q) =
    if-OfFound P (bytes_key.same n name) h (lookup name l) p (lookup-Each P name l q)

abbrev pub KeepsAll : Env → Handler → Type 0
KeepsAll env h = (req : SendGnbUeNgapRequest) → Keeps env (h req)

-- What holds of the old and the new value at one address holds of both functions everywhere.
if_related :
    {A : Type 0} (R : A → A → Type 0) (b : Bool) (x y z : A)
    → (b ≡ true → R z x)
    → R z y
    → R z (if b then x else y)
if_related R true x y z h k = h refl
if_related R false x y z h k = k

pub update_related :
    {A : Type 0} (R : A → A → Type 0)
    → ((a : A) → R a a)
    → (at : ℕ → A) (p : ℕ) (x : A) (q : ℕ) → R (at p) x
    → R (at q) (update at p x q)
unfolding update
update_related R r at p x q h =
    if_related R (p == q) x (at q) (at q) (λ e. rw (← (==_iff p q).0 e) h) (r (at q))

-- The log of every connection is still there, with more behind it.
abbrev pub LogsGrow : List (GoString × Connection) → List (GoString × Connection) → Type 0
LogsGrow m n =
    (id : GoString) (c : Connection)
    → lookup id m ≡ some c
    → (d : Connection) × (later : List (List ℕ)) × (lookup id n ≡ some d)
      × (d.sent ≡ c.sent ++ later)

pub some-injective : {A : Type 0} (a b : A) → ◌≡◌ {A = Option A} (some a) (some b) → a ≡ b
some-injective a b h = cc

pub insert_log :
    (m : List (GoString × Connection)) (k : GoString) (c d : Connection) (later : List (List ℕ))
    → lookup k m ≡ some c
    → d.sent ≡ c.sent ++ later
    → LogsGrow m (insert k d m)
insert_log m k c d later here log id b h = elim (Bool-cases (bytes_key.same k id)) [
  | inl same ↦
      let e : k ≡ id = (bytes_key.same_iff k id).0 same in
      let cb : c ≡ b = some-injective c b (sym here ∙ ap (λ i. lookup i m) e ∙ h) in
      (d, later, lookup-insert k id d m ∙ if_true _ _ same, log ∙ ap (λ x. x.sent ++ later) cb)
  | inr other ↦ (b, [], lookup-insert k id d m ∙ (if_false _ _ other ∙ h), sym (append-nil b.sent))
]

-- The state after a request: the same gNBs in the registry, every UE the same subscriber and none
-- without the security context that it had, every gNB the same but for its counter of identities,
-- and everything that was sent on a connection still on its log.
pub record LaterState (env : Env) (st st' : ApiState) : Type 0 where
  pub same_registry : st'.world.gnbs ≡ st.world.gnbs
  pub ues_later : (u : ℕ) → Successor env (st.world.ue_at u) (st'.world.ue_at u)
  pub same_stations : (g : ℕ) → station (st'.world.gnb_at g) ≡ station (st.world.gnb_at g)
  pub logs_grow : LogsGrow st.transports st'.transports

pub LaterState-refl : {env : Env} (st : ApiState) → LaterState env st st
LaterState-refl st = record {
  same_registry = refl;
  ues_later = λ u. Successor-refl (st.world.ue_at u);
  same_stations = λ g. refl;
  logs_grow = λ id c h. (c, [], h, sym (append-nil c.sent));
}

found_gnb-Ends :
    (id : GoString) (o : Option ℕ)
    → Ends {E = StoreError} (elim o [ some gnb ↦ ok gnb | none ↦ err (gnb_not_found id) ])
found_gnb-Ends id (some gnb) = tt
found_gnb-Ends id none = tt

pub get_gnb-Ends : (w : World) (id : GoString) → Ends (Registry.get_gnb w id)
unfolding Registry.get_gnb
get_gnb-Ends w id = found_gnb-Ends id (lookup id w.gnbs)

-- A request whose handler keeps these, from the path to the handler.
module _ {Req Resp : Type 0} (env : Env) (handle : Bool → Req → Action Resp)
    (keeps : (b : Bool) (req : Req) → Keeps env (handle b req)) where
  run_on-LaterState :
      (st : ApiState) (gnb_id : GoString) (g u : ℕ) (c : Connection) (req : Req)
      → lookup gnb_id st.transports ≡ some c
      → LaterState env st (run_on handle st gnb_id g u c req).0
  run_on-LaterState st gnb_id g u c req here =
      let s0 : Session = record {
        ue = st.world.ue_at u;
        gnb = st.world.gnb_at g;
        frames = c.frames;
        sent = c.sent;
      } in
      let has_gtpu = is_there (lookup gnb_id st.gtpu) in
      let s1 = (handle has_gtpu req s0).0 in
      let later = (keeps has_gtpu req).at s0 in
      record {
        same_registry = refl;
        ues_later = λ q.
            update_related (Successor env) Successor-refl st.world.ue_at u s1.ue q later.ue_later;
        same_stations = λ q.
            update_related (λ a b. station b ≡ station a) (λ a. refl) st.world.gnb_at g s1.gnb q
              later.same_station;
        logs_grow =
            insert_log st.transports gnb_id c (record { frames = s1.frames; sent = s1.sent })
              later.more_sent here later.log;
      }

  found-LaterState :
      (st : ApiState) (gnb_id : GoString) (g u : ℕ) (o : Option Connection) (body : Option Req)
      → lookup gnb_id st.transports ≡ o
      → LaterState env st (on_connection handle st gnb_id g u o body).0
  found-LaterState st gnb_id g u none body e = LaterState-refl st
  found-LaterState st gnb_id g u (some c) none e = LaterState-refl st
  found-LaterState st gnb_id g u (some c) (some req) e = run_on-LaterState st gnb_id g u c req e

  on_ue-LaterState :
      (st : ApiState) (gnb_id : GoString) (g : ℕ) (o : Option ℕ) (body : Option Req)
      → LaterState env st (on_ue handle st gnb_id g o body).0
  on_ue-LaterState st gnb_id g none body = LaterState-refl st
  on_ue-LaterState st gnb_id g (some u) body =
      found-LaterState st gnb_id g u (lookup gnb_id st.transports) body refl

  pub on_gnb-LaterState :
      (st : ApiState) (gnb_id ue_id : GoString) (m : Outcome StoreError ℕ) (body : Option Req)
      → LaterState env st (on_gnb handle st gnb_id ue_id m body).0
  on_gnb-LaterState st gnb_id ue_id (ok g) body =
      on_ue-LaterState st gnb_id g (Gnb.get_ue (st.world.gnb_at g) ue_id) body
  on_gnb-LaterState st gnb_id ue_id (err e) body = LaterState-refl st
  on_gnb-LaterState st gnb_id ue_id panic body = LaterState-refl st
  on_gnb-LaterState st gnb_id ue_id stuck body = LaterState-refl st

  found-Ends :
      CallsEnd env
      → (st : ApiState) (gnb_id : GoString) (g u : ℕ) (o : Option Connection) (body : Option Req)
      → Ends (on_connection handle st gnb_id g u o body).1
  found-Ends w st gnb_id g u none body = tt
  found-Ends w st gnb_id g u (some c) none = tt
  found-Ends w st gnb_id g u (some c) (some req) =
      (keeps (is_there (lookup gnb_id st.gtpu)) req).ends w _

  on_ue-Ends :
      CallsEnd env
      → (st : ApiState) (gnb_id : GoString) (g : ℕ) (o : Option ℕ) (body : Option Req)
      → Ends (on_ue handle st gnb_id g o body).1
  on_ue-Ends w st gnb_id g none body = tt
  on_ue-Ends w st gnb_id g (some u) body =
      found-Ends w st gnb_id g u (lookup gnb_id st.transports) body

  pub on_gnb-Ends :
      CallsEnd env
      → (st : ApiState) (gnb_id ue_id : GoString) (m : Outcome StoreError ℕ) (body : Option Req)
      → Ends m
      → Ends (on_gnb handle st gnb_id ue_id m body).1
  on_gnb-Ends w st gnb_id ue_id (ok g) body h =
      on_ue-Ends w st gnb_id g (Gnb.get_ue (st.world.gnb_at g) ue_id) body
  on_gnb-Ends w st gnb_id ue_id (err e) body h = tt
  on_gnb-Ends w st gnb_id ue_id panic body h = h
  on_gnb-Ends w st gnb_id ue_id stuck body h = h
