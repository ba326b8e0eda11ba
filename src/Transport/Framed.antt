-- ===== src/Transport/Framed.antt =====
-- internal/transport/framed.go: the frames that were received, by message type, and the wait for
-- one of them. The lock is held for each change of the queues, so a change is one step. A wait is
-- run on the turns in which its goroutine wakes up: what was received since, and whether the
-- context had ended. Other waiters are not part of a run.
use gpp_server.Common.{ℕ, Bool, true, false, Option, none, some, List, [], ◌∷◌, length}
use gpp_server.Common.{Outcome, ok, err, stuck, ◌==◌, if◌then◌else◌}
use gpp_server.Common.Text.{GoString}
use gpp_server.Common.Maps.{bytes_key}
use gpp_server.Common.Queues.{queue, push, set_queue}

pub data TransportError : Type 0 where
  timeout transport_closed send_failed : TransportError

-- The lists are `frames`, the map from a message type to a queue of frames.
abbrev pub Frames {ℓ} : Type ℓ → Type ℓ
Frames T = List (GoString × List T)

pub record Turn : Type 0 where
  pub arrived : List (List ℕ)
  pub ended : Bool

module _ {ℓ} {T : Type ℓ} where
  abbrev pub with_kept : T → Option (T × List T) → Option (T × List T)
  with_kept x none = none
  with_kept x (some (m, rest)) = some (m, x ∷ rest)

  -- The first frame that matches, and the queue without it.
  unfoldable pub take_first : (T → Bool) → List T → Option (T × List T)
  take_first match [] = none
  take_first match (x ∷ xs) =
      let later = take_first match xs in if match x then some (x, xs) else with_kept x later

  abbrev pub or_else :
      GoString → Frames T → Option (T × List T) → Option (T × Frames T) → Option (T × Frames T)
  or_else msg_type frames none other = other
  or_else msg_type frames (some (m, rest)) other = some (m, set_queue msg_type rest frames)

  -- The two loops under the lock: the message types in order, the frames of each in order.
  unfoldable pub take_message : (T → Bool) → List GoString → Frames T → Option (T × Frames T)
  unfolding take_first
  take_message match [] frames = none
  take_message match (msg_type ∷ more) frames =
      or_else msg_type frames (take_first match (queue msg_type frames))
        (take_message match more frames)

-- `decode` is nil on an error; `key` is the frame's message type.
module _ {ℓ} {T : Type ℓ} (decode : List ℕ → Option T) (key : T → GoString) where
  abbrev enqueue : Frames T → Option T → Frames T
  enqueue frames none = frames
  enqueue frames (some m) = push (key m) m frames

  -- One round of `runReceiver`.
  unfoldable pub receive : Frames T → List ℕ → Frames T
  receive frames frame = if length frame == 0 then frames else enqueue frames (decode frame)

  unfoldable pub receive_all : Frames T → List (List ℕ) → Frames T
  unfolding receive
  receive_all frames [] = frames
  receive_all frames (d ∷ ds) = receive_all (receive frames d) ds

  -- `stuck` is a wait that has not come back yet.
  unfoldable pub matching_turn :
      (T → Bool)
      → List GoString
      → Frames T
      → Bool
      → Option (T × Frames T)
      → List Turn
      → Frames T × Outcome TransportError T
  matching_turn match types frames ended (some (m, left)) turns = (left, ok m)
  matching_turn match types frames true none turns = (frames, err timeout)
  matching_turn match types frames false none [] = (frames, stuck)
  matching_turn match types frames false none (t ∷ turns) =
      let now = receive_all frames t.arrived in
      matching_turn match types now t.ended (take_message match types now) turns

  unfoldable pub wait_for_message_matching :
      (T → Bool) → List GoString → Frames T → Bool → List Turn → Frames T × Outcome TransportError T
  unfolding matching_turn
  wait_for_message_matching match types frames ended turns =
      matching_turn match types frames ended (take_message match types frames) turns

  unfoldable pub wait_for_message :
      List GoString → Frames T → Bool → List Turn → Frames T × Outcome TransportError T
  unfolding wait_for_message_matching
  wait_for_message = wait_for_message_matching (λ m. true)

-- `write` is the connection's write to a stream; the result is the stream that was written to.
unfoldable pub send : (ℕ → List ℕ → Bool) → Bool → List ℕ → Bool → Outcome TransportError ℕ
send write closed frame non_ue =
    if closed
    then err transport_closed
    else let stream = if non_ue then 0 else 1 in
      if write stream frame then ok stream else err send_failed
