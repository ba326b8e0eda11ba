-- ===== src/Gtpu/Endpoint.antt =====
-- internal/gtpu/transport.go: the endpoint's queues, its receiver and the waits on it. The lock is
-- held for each change of the queues, so a change is one step. A wait is run on the turns in
-- which its goroutine wakes up: what was received since, and whether the context had ended.
use gpp_server.Common.{ℕ, Bool, true, false, List, [], ◌∷◌, length}
use gpp_server.Common.{Outcome, ok, err, panic, stuck, ◌>>=◌, ◌==◌, if◌then◌else◌}
use gpp_server.Common.Text.{GoString}
use gpp_server.Common.Maps.{nat_key, insert}
use gpp_server.Common.Queues.{queue, push, set_queue}
use gpp_server.Gtpu.Addr.{Addr}
use gpp_server.Gtpu.Message.{
  Message, msg_gpdu, encode_gpdu, encode_gpdu_with_qfi, encode_echo_request,
}
use gpp_server.Gtpu.Decode.{DecodeError, decode}

pub record Endpoint : Type 0 where
  pub closed : Bool
  pub gpdus : List (ℕ × List Message)  -- by TEID
  pub control : List (ℕ × List Message)  -- by message type

pub data EndpointError : Type 0 where
  endpoint_closed write_failed wait_timeout : EndpointError

pub record Turn : Type 0 where
  pub arrived : List (List ℕ)
  pub ended : Bool

module _ (addr_string : Addr → GoString) where
  unfoldable pub enqueue : Endpoint → Message → Endpoint
  enqueue e m =
      if m.type == msg_gpdu
      then record e { gpdus = push m.teid m e.gpdus }
      else record e { control = push m.type m e.control }

  -- A datagram that does not decode is dropped; a panic would end the program.
  unfoldable pub accept : Endpoint → Outcome DecodeError Message → Outcome EndpointError Endpoint
  unfolding enqueue
  accept e (ok m) = ok (enqueue e m)
  accept e (err x) = ok e
  accept e panic = panic
  accept e stuck = stuck

  -- One round of `runReceiver`.
  unfoldable pub receive : Endpoint → List ℕ → Outcome EndpointError Endpoint
  unfolding accept
  receive e b = if length b == 0 then ok e else accept e (decode addr_string b)

  unfoldable pub receive_all : Endpoint → List (List ℕ) → Outcome EndpointError Endpoint
  unfolding receive
  receive_all e [] = ok e
  receive_all e (b ∷ bs) = receive e b >>= λ e1. receive_all e1 bs

  -- What a wait returns: the endpoint, and the message or an error. `stuck` is a wait that has not
  -- come back yet.
  abbrev pub Waited : Type 0
  Waited = Endpoint × Outcome EndpointError Message

  -- The receiver ran between two turns; its panic would end the program.
  abbrev pub go_on : Endpoint → Outcome EndpointError Endpoint → (Endpoint → Waited) → Waited
  go_on e (ok e1) f = f e1
  go_on e _ f = (e, panic)

  unfoldable pub downlink_turn : Endpoint → ℕ → Bool → List Message → List Turn → Waited
  downlink_turn e dl_teid ended (m ∷ rest) turns =
      (record e { gpdus = set_queue dl_teid rest e.gpdus }, ok m)
  downlink_turn e dl_teid true [] turns = (e, err wait_timeout)
  downlink_turn e dl_teid false [] [] = (e, stuck)
  downlink_turn e dl_teid false [] (t ∷ turns) =
      go_on e (receive_all e t.arrived)
        (λ e1. downlink_turn e1 dl_teid t.ended (queue dl_teid e1.gpdus) turns)

  unfoldable pub wait_for_downlink : Endpoint → ℕ → Bool → List Turn → Waited
  unfolding downlink_turn
  wait_for_downlink e dl_teid ended turns =
      downlink_turn e dl_teid ended (queue dl_teid e.gpdus) turns

  -- `WaitForControl` leaves a key without messages in the map, which reads like a missing one.
  unfoldable pub control_turn : Endpoint → ℕ → Bool → List Message → List Turn → Waited
  control_turn e msg_type ended (m ∷ rest) turns =
      (record e { control = insert msg_type rest e.control }, ok m)
  control_turn e msg_type true [] turns = (e, err wait_timeout)
  control_turn e msg_type false [] [] = (e, stuck)
  control_turn e msg_type false [] (t ∷ turns) =
      go_on e (receive_all e t.arrived)
        (λ e1. control_turn e1 msg_type t.ended (queue msg_type e1.control) turns)

  unfoldable pub wait_for_control : Endpoint → ℕ → Bool → List Turn → Waited
  unfolding control_turn
  wait_for_control e msg_type ended turns =
      control_turn e msg_type ended (queue msg_type e.control) turns

-- `write` is the socket's write to an address and port `2152`; it says whether it succeeded.
module _ (write : GoString → List ℕ → Bool) where
  -- The datagram that was sent.
  unfoldable pub send_to : Endpoint → GoString → List ℕ → Outcome EndpointError (List ℕ)
  send_to e remote_ip datagram =
      if e.closed
      then err endpoint_closed
      else if write remote_ip datagram
      then ok datagram
      else err write_failed

  unfoldable pub send_uplink : Endpoint → GoString → ℕ → ℕ → List ℕ → Outcome EndpointError (List ℕ)
  unfolding send_to
  send_uplink e remote_ip ul_teid qfi inner =
      send_to e remote_ip (encode_gpdu_with_qfi ul_teid qfi inner)

  unfoldable pub send_uplink_plain :
      Endpoint → GoString → ℕ → List ℕ → Outcome EndpointError (List ℕ)
  unfolding send_to
  send_uplink_plain e remote_ip ul_teid inner = send_to e remote_ip (encode_gpdu ul_teid inner)

  unfoldable pub send_echo_request : Endpoint → GoString → ℕ → Outcome EndpointError (List ℕ)
  unfolding send_to
  send_echo_request e remote_ip seq = send_to e remote_ip (encode_echo_request seq)
