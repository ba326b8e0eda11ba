-- ===== src/Api/StationKeeps.antt =====
-- What a request on a gNB leaves as it is, and that it ends.
use gpp_server.Common.{ℕ, ◌≡◌, refl, Option, none, some, List, [], ◌∷◌}
use gpp_server.Common.{Outcome, ok, err, panic, stuck, Ends}
use gpp_server.Common.Maps.{bytes_key, lookup}
use gpp_server.Common.Text.{GoString}
use gpp_server.Store.Contexts.{UeContext}
use gpp_server.Store.Registry
use gpp_server.Store.Registry.{StoreError}
use gpp_server.Store.Gnb
use gpp_server.Api.Types.{ue_not_found}
use gpp_server.Api.Action.{Env, Session, Action, pure, or_fail, ◌>>=◌}
use gpp_server.Api.StationTypes.{HandoverPduSession, UeSecurityCapabilitiesInput, StationCodec}
use gpp_server.Api.Station.{
  admitted, admitted_sessions, parse_capability, path_switch_security_capabilities, wait_if_asked,
  reset_connections,
}
use gpp_server.Api.Dispatch.{Connection, ApiState}
use gpp_server.Api.Keeps.{Successor, Successor-refl}
use gpp_server.Api.Steps.{Keeps, Keeps-or_fail, CallsEnd, station, keeps_rules}
use gpp_server.Api.Dispatched.{LaterState, LaterState-refl, update_related, insert_log}
use gpp_server.Api.StationDispatch.{at_address, run_on_station, on_station_connection, on_station}

-- A request whose handler keeps these, from the path to the handler.
module _ {Req Resp : Type 0} (env : Env)
    (handle : (GoString → Option UeContext) → Req → Action Resp)
    (keeps : (find : GoString → Option UeContext) (req : Req) → Keeps env (handle find req)) where
  run_on_station-LaterState :
      (st : ApiState) (gnb_id : GoString) (g : ℕ) (c : Connection) (req : Req)
      → lookup gnb_id st.transports ≡ some c
      → LaterState env st (run_on_station handle st gnb_id g c req).0
  run_on_station-LaterState st gnb_id g c req here =
      let w = st.world in
      let s0 : Session = record {
        ue = w.ue_at w.fresh;
        gnb = w.gnb_at g;
        frames = c.frames;
        sent = c.sent;
      } in
      let find = λ (id : GoString). at_address w.ue_at (Gnb.get_ue (w.gnb_at g) id) in
      let s1 = (handle find req s0).0 in
      let later = (keeps find req).at s0 in
      record {
        same_registry = refl;
        ues_later = λ q.
            update_related (Successor env) Successor-refl w.ue_at w.fresh s1.ue q later.ue_later;
        same_stations = λ q.
            update_related (λ a b. station b ≡ station a) (λ a. refl) w.gnb_at g s1.gnb q
              later.same_station;
        logs_grow =
            insert_log st.transports gnb_id c (record { frames = s1.frames; sent = s1.sent })
              later.more_sent here later.log;
      }

  on_station_connection-LaterState :
      (st : ApiState) (gnb_id : GoString) (g : ℕ) (o : Option Connection) (body : Option Req)
      → lookup gnb_id st.transports ≡ o
      → LaterState env st (on_station_connection handle st gnb_id g o body).0
  on_station_connection-LaterState st gnb_id g none body e = LaterState-refl st
  on_station_connection-LaterState st gnb_id g (some c) none e = LaterState-refl st
  on_station_connection-LaterState st gnb_id g (some c) (some req) e =
      run_on_station-LaterState st gnb_id g c req e

  pub on_station-LaterState :
      (st : ApiState) (gnb_id : GoString) (m : Outcome StoreError ℕ) (body : Option Req)
      → LaterState env st (on_station handle st gnb_id m body).0
  on_station-LaterState st gnb_id (ok g) body =
      on_station_connection-LaterState st gnb_id g (lookup gnb_id st.transports) body refl
  on_station-LaterState st gnb_id (err e) body = LaterState-refl st
  on_station-LaterState st gnb_id panic body = LaterState-refl st
  on_station-LaterState st gnb_id stuck body = LaterState-refl st

  on_station_connection-Ends :
      CallsEnd env
      → (st : ApiState) (gnb_id : GoString) (g : ℕ) (o : Option Connection) (body : Option Req)
      → Ends (on_station_connection handle st gnb_id g o body).1
  on_station_connection-Ends w st gnb_id g none body = tt
  on_station_connection-Ends w st gnb_id g (some c) none = tt
  on_station_connection-Ends w st gnb_id g (some c) (some req) = (keeps _ req).ends w _

  pub on_station-Ends :
      CallsEnd env
      → (st : ApiState) (gnb_id : GoString) (m : Outcome StoreError ℕ) (body : Option Req) → Ends m
      → Ends (on_station handle st gnb_id m body).1
  on_station-Ends w st gnb_id (ok g) body h =
      on_station_connection-Ends w st gnb_id g (lookup gnb_id st.transports) body
  on_station-Ends w st gnb_id (err e) body h = tt
  on_station-Ends w st gnb_id panic body h = h
  on_station-Ends w st gnb_id stuck body h = h

module _ (env : Env) (codec : StationCodec) where
  first_then-Keeps :
      {A B C : Type 0} (m : Action A) (n : Action B) (f : A → B → C)
      → Keeps env m
      → Keeps env n
      → Keeps env (m >>= λ a. n >>= λ b. pure (f a b))
  first_then-Keeps m n f km kn = search keeps_rules

  admitted-Keeps : (ps : HandoverPduSession) → Keeps env (admitted ps)
  unfolding admitted
  admitted-Keeps ps = search keeps_rules depth 20

  admitted_sessions-Keeps : (l : List HandoverPduSession) → Keeps env (admitted_sessions l)
  unfolding admitted_sessions
  admitted_sessions-Keeps [] = search keeps_rules
  admitted_sessions-Keeps (ps ∷ l) =
      first_then-Keeps (admitted ps) (admitted_sessions l) _ (admitted-Keeps ps)
        (admitted_sessions-Keeps l)

  parse_capability-Keeps : (s : GoString) (def : List ℕ) → Keeps env (parse_capability s def)
  unfolding parse_capability
  parse_capability-Keeps [] def = search keeps_rules
  parse_capability-Keeps (c ∷ s) def = search keeps_rules

  path_switch_capabilities-Keeps :
      (given : Option UeSecurityCapabilitiesInput)
      → Keeps env (path_switch_security_capabilities given)
  unfolding path_switch_security_capabilities
  path_switch_capabilities-Keeps given = search (keeps_rules, parse_capability-Keeps) depth 20

  wait_if_asked-Keeps : (types : List GoString) → Keeps env (wait_if_asked env codec types)
  unfolding wait_if_asked
  wait_if_asked-Keeps types = search keeps_rules

  reset_connections-Keeps :
      (find : GoString → Option UeContext) (ids : List GoString)
      → Keeps env (reset_connections env codec find ids)
  unfolding reset_connections
  reset_connections-Keeps find [] = search keeps_rules
  reset_connections-Keeps find (id ∷ ids) =
      first_then-Keeps (or_fail 404 ue_not_found (find id)) (reset_connections env codec find ids) _
        (Keeps-or_fail 404 ue_not_found (find id)) (reset_connections-Keeps find ids)

  ruleset station_rules = (
    keeps_rules, admitted_sessions-Keeps, path_switch_capabilities-Keeps, wait_if_asked-Keeps,
    reset_connections-Keeps,
  )
