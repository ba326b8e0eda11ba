-- ===== src/Api/Await.antt =====
-- internal/api/gnb_await_handlers.go and wait.go: the wait for a message for a UE or a gNB, without
-- one sent.
use gpp_server.Common.{ℕ, true, none, some, Option, List, [], ◌∷◌, Outcome}
use gpp_server.Common.Text.{GoString}
use gpp_server.Store.Registry
use gpp_server.Api.Types.{StatusError, SendGnbUeNgapResponse, types_missing}
use gpp_server.Api.Action.{Env, Action, pure, fail, ◌>>=◌, the_ue, wait_or_504}
use gpp_server.Api.Exchange.{ue_ngap_matcher, downlink_of}
use gpp_server.Store.Contexts.{UeContext}
use gpp_server.Api.Dispatch.{ApiState, on_gnb}
use gpp_server.Api.StationDispatch.{on_station}

pub record AwaitRequest : Type 0 where
  pub message_types : List GoString
  pub timeout_ms : ℕ

module _ (env : Env) where
  abbrev pub await_types : List GoString → Action SendGnbUeNgapResponse
  await_types [] = fail 400 types_missing
  await_types (type ∷ types) = do
    ue ← the_ue
    r ← wait_or_504 env (ue_ngap_matcher ue.ran_ue_ngap_id ue.amf_ue_ngap_id) (type ∷ types)
    (nas, verified) ← downlink_of env r
    pure (record { ngap = some r; nas = nas; mac_verified = none })

  -- The request's message types are tested, then the wait is for the UE's identities.
  unfoldable pub await_message : AwaitRequest → Action SendGnbUeNgapResponse
  await_message req = await_types req.message_types

  unfoldable pub await_gnb_ue_message :
      ApiState
      → GoString
      → GoString
      → Option AwaitRequest
      → ApiState × Outcome StatusError SendGnbUeNgapResponse
  await_gnb_ue_message st gnb_id ue_id body =
      on_gnb (λ has_gtpu. await_message) st gnb_id ue_id (Registry.get_gnb (st.world) gnb_id) body

  abbrev pub await_station_types : List GoString → Action SendGnbUeNgapResponse
  await_station_types [] = fail 400 types_missing
  await_station_types (type ∷ types) = wait_or_504 env (λ r. true) (type ∷ types) >>= λ r.
      pure (record { ngap = some r; nas = none; mac_verified = none })

  unfoldable pub await_station_message :
      (GoString → Option UeContext) → AwaitRequest → Action SendGnbUeNgapResponse
  await_station_message find req = await_station_types req.message_types

  unfoldable pub await_gnb_message :
      ApiState
      → GoString
      → Option AwaitRequest
      → ApiState × Outcome StatusError SendGnbUeNgapResponse
  await_gnb_message st gnb_id body =
      on_station await_station_message st gnb_id (Registry.get_gnb (st.world) gnb_id) body
