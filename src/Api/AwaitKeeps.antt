-- ===== src/Api/AwaitKeeps.antt =====
-- What a wait for a message leaves as it is, and that it ends.
use gpp_server.Common.{Option, List, [], ◌∷◌, Ends}
use gpp_server.Common.Text.{GoString}
use gpp_server.Store.Registry
use gpp_server.Api.Action.{Env}
use gpp_server.Api.Await.{
  AwaitRequest, await_station_types, await_station_message, await_gnb_message,
}
use gpp_server.Api.Dispatch.{ApiState}
use gpp_server.Api.Steps.{Keeps, CallsEnd, keeps_rules}
use gpp_server.Store.Contexts.{UeContext}
use gpp_server.Api.StationKeeps.{on_station-LaterState, on_station-Ends}
use gpp_server.Api.Dispatched.{LaterState, get_gnb-Ends}

module _ (env : Env) where
  await_station_types-Keeps : (types : List GoString) → Keeps env (await_station_types env types)
  await_station_types-Keeps [] = search keeps_rules
  await_station_types-Keeps (type ∷ types) = search keeps_rules depth 20

  await_station_message-Keeps :
      (find : GoString → Option UeContext) (req : AwaitRequest)
      → Keeps env (await_station_message env find req)
  unfolding await_station_message
  await_station_message-Keeps find req = await_station_types-Keeps req.message_types

  -- The same of a wait for a message for a gNB.
  pub await_gnb_message-Waits :
      CallsEnd env
      → (st : ApiState) (gnb_id : GoString) (body : Option AwaitRequest)
      → LaterState env st (await_gnb_message env st gnb_id body).0
        × Ends (await_gnb_message env st gnb_id body).1
  unfolding await_gnb_message
  await_gnb_message-Waits w st gnb_id body = (
    on_station-LaterState env (await_station_message env) await_station_message-Keeps st gnb_id
        (Registry.get_gnb st.world gnb_id) body,
    on_station-Ends env (await_station_message env) await_station_message-Keeps w st gnb_id
        (Registry.get_gnb st.world gnb_id) body (get_gnb-Ends st.world gnb_id),
  )
