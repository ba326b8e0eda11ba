-- ===== src/Api/Stations.antt =====
-- internal/api/gnb_handlers.go: the requests that create, read and delete a gNB. An error of a
-- library call is `none`; a body that is not JSON of the request's form is `none`.
use gpp_server.Common.{ℕ, Bool, true, Option, none, some, List, [], ◌∷◌, ◌>>=◌}
use gpp_server.Common.{Outcome, ok, err, panic, stuck, if◌then◌else◌}
use gpp_server.Common.Text.{GoString, text, hex_decode}
use gpp_server.Common.Maps.{bytes_key, insert, delete}
use gpp_server.Store.Contexts.{World, update}
use gpp_server.Store.Registry
use gpp_server.Store.Registry.{GnbConfig, StoreError}
use gpp_server.Transport.Framed.{TransportError, send, wait_for_message}
use gpp_server.Identity.NewUe.{is_empty, or_default}
use gpp_server.Api.Types.{
  NgapResponse, StatusError, Fault, bad_body, bad_hex, build_failed, encode_failed, send_failed,
  no_response, gnb_not_found, amf_missing, dial_failed, listen_failed,
}
use gpp_server.Api.Action.{Env}
use gpp_server.Api.Dispatch.{Connection, ApiState, status_error}

-- `NGSetupIEs` stand as their JSON texts.
pub record CreateGnbRequest : Type 0 where
  pub amf_address : GoString
  pub gnb_n2_address : GoString
  pub config : GnbConfig
  pub default_paging_drx : Option ℕ
  pub ng_setup_ies : List GoString
  pub skip_ng_setup : Bool
  pub raw_ngap_pdu : Option GoString
  pub wait_for : List GoString
  pub timeout_ms : ℕ
  pub enable_gtpu : Bool
  pub gnb_n3_address : GoString

pub record CreateGnbResponse : Type 0 where
  pub gnb_id : GoString
  pub ng_setup_response : Option NgapResponse

-- What the handler takes from the operating system and from internal/ngap.
pub record SetupLibrary : Type 0 where
  -- Whether `transport.DialNGAP(localAddr, remoteAddr)` connects.
  pub dial : GoString → GoString → Bool
  -- Whether `gtpu.Listen(addr)` binds.
  pub listen : GoString → Bool
  -- `ngap.BuildNGSetupRequest`, then `ngap.Encode` of what it builds.
  pub build_ng_setup : GnbConfig → Option ℕ → Option (Option (List ℕ))
  -- `ngap.Encode` of an NG setup with the given IEs.
  pub encode_ies : List GoString → Option (List ℕ)

abbrev pub or_status {ℓ} : {A : Type ℓ} → ℕ → Fault → Option A → Outcome StatusError A
or_status status cause none = err (status_error status cause)
or_status status cause (some a) = ok a

abbrev pub default_ng_setup_wait : List GoString
default_ng_setup_wait = text "NGSetupResponse" ∷ text "NGSetupFailure" ∷ text "ErrorIndication" ∷ []

abbrev pub types_or_default : List GoString → List GoString
types_or_default [] = default_ng_setup_wait
types_or_default (type ∷ types) = type ∷ types

-- `teardownGNB`
unfoldable pub teardown_gnb : ApiState → GoString → ApiState
teardown_gnb st id = record {
  world = (Registry.delete_gnb (st.world) id).0;
  transports = delete id st.transports;
  gtpu = delete id st.gtpu;
}

abbrev pub or_setup_error {ℓ} :
    {A : Type ℓ} → ℕ → Fault → Outcome TransportError A → Outcome StatusError A
or_setup_error status cause (ok a) = ok a
or_setup_error status cause (err e) = err (status_error status cause)
or_setup_error status cause panic = panic
or_setup_error status cause stuck = stuck

abbrev pub set_n3_addr : World → ℕ → GoString → World
set_n3_addr w g addr = record w {
  gnb_at = update w.gnb_at g (record (w.gnb_at g) { n3_addr = addr });
}

module _ (env : Env) (lib : SetupLibrary) where
  abbrev pub built_frame : List GoString → GnbConfig → Option ℕ → Outcome StatusError (List ℕ)
  built_frame [] config drx = do
    encoded ← or_status 400 build_failed (lib.build_ng_setup config drx)
    or_status 500 encode_failed encoded
  built_frame (ie ∷ ies) config drx = or_status 500 encode_failed (lib.encode_ies (ie ∷ ies))

  abbrev pub raw_or_built : Option GoString → CreateGnbRequest → Outcome StatusError (List ℕ)
  raw_or_built (some raw) req = or_status 400 bad_hex (hex_decode raw)
  raw_or_built none req = built_frame req.ng_setup_ies req.config req.default_paging_drx

  -- The NG setup on a new connection, and what is left on it.
  unfoldable pub ng_setup : CreateGnbRequest → Outcome StatusError (Connection × NgapResponse)
  ng_setup req = do
    encoded ← raw_or_built req.raw_ngap_pdu req
    stream ← or_setup_error 502 send_failed (send (env.write []) env.closed encoded true)
    let (left, outcome) =
        wait_for_message env.codec.ngap_decode (λ r. r.message_type) (types_or_default req.wait_for)
          [] env.ended env.turns
    r ← or_setup_error 504 no_response outcome
    ok (record { frames = left; sent = encoded ∷ [] }, r)

  abbrev pub after_setup :
      ApiState
      → GoString
      → Outcome StatusError (Connection × NgapResponse)
      → ApiState × Outcome StatusError CreateGnbResponse
  after_setup st id (ok (c, r)) = (
    record st { transports = insert id c st.transports },
    ok (record { gnb_id = id; ng_setup_response = some r }),
  )
  after_setup st id (err e) = (teardown_gnb st id, err e)
  after_setup st id panic = (st, panic)
  after_setup st id stuck = (st, stuck)

  abbrev pub set_up :
      ApiState → GoString → CreateGnbRequest → ApiState × Outcome StatusError CreateGnbResponse
  set_up st id req =
      if req.skip_ng_setup
      then (st, ok (record { gnb_id = id; ng_setup_response = none }))
      else after_setup st id (ng_setup req)

  -- The GTP-U endpoint, then the NG setup.
  abbrev pub listen_and_set_up :
      ApiState
      → ℕ
      → GoString
      → GoString
      → CreateGnbRequest
      → ApiState × Outcome StatusError CreateGnbResponse
  listen_and_set_up st g id n3 req =
      if req.enable_gtpu
      then if lib.listen n3
        then set_up (record st { world = set_n3_addr st.world g n3; gtpu = insert id tt st.gtpu })
            id req
        else (teardown_gnb st id, err (status_error 502 listen_failed))
      else set_up st id req

  -- The gNB of the store takes the address of the connection.
  abbrev pub register_gnb :
      ApiState → GoString → CreateGnbRequest → ApiState × Outcome StatusError CreateGnbResponse
  register_gnb st local_addr req =
      let (w, g) = Registry.create_gnb (st.world) (req.config) in
      let id = (w.gnb_at g).id in
      let n3 = or_default req.gnb_n3_address local_addr in
      let connection : Connection = record { frames = []; sent = [] } in
      listen_and_set_up
        (record st {
          world = set_n3_addr w g local_addr;
          transports = insert id connection st.transports;
        })
        g id n3 req

  abbrev pub dial_and_register :
      ApiState → GoString → CreateGnbRequest → ApiState × Outcome StatusError CreateGnbResponse
  dial_and_register st local_addr req =
      if is_empty req.amf_address
      then (st, err (status_error 400 amf_missing))
      else if lib.dial local_addr req.amf_address
      then register_gnb st local_addr req
      else (st, err (status_error 502 dial_failed))

  unfoldable pub create_gnb :
      ApiState → Option CreateGnbRequest → ApiState × Outcome StatusError CreateGnbResponse
  create_gnb st none = (st, err (status_error 400 bad_body))
  create_gnb st (some req) =
      dial_and_register st (or_default req.gnb_n2_address (text "0.0.0.0")) req

abbrev pub deleted_gnb :
    ApiState → World × Option StoreError → ApiState × Outcome StatusError (Unit {0})
deleted_gnb st (w, none) = (record st { world = w }, ok tt)
deleted_gnb st (w, some e) = (record st { world = w }, err (status_error 404 gnb_not_found))

-- The connection and the endpoint go, then the gNB.
unfoldable pub delete_gnb : ApiState → GoString → ApiState × Outcome StatusError (Unit {0})
delete_gnb st id =
    deleted_gnb (record st { transports = delete id st.transports; gtpu = delete id st.gtpu })
      (Registry.delete_gnb (st.world) id)
