-- ===== src/Transport/Waits.antt =====
-- The waits of internal/transport/framed.go from the first check to the result.
use mathlib.Core.Path.{subst}
use mathlib.Core.Logic.{Lift}
use gpp_server.Common.{
  ℕ, ◌≡◌, refl, ap, Bool, true, false, ◌||◌, Option, none, some, List, [], ◌∷◌, ◌++◌,
}
use gpp_server.Common.{Outcome, ok, err, panic, stuck}
use gpp_server.Common.Text.{GoString}
use gpp_server.Transport.Framed.{
  Frames, Turn, TransportError, take_message, receive, receive_all, matching_turn,
  wait_for_message_matching,
}
use gpp_server.Transport.Matching.{Took, take_message-Took, any_match_in, take_message-none}

-- The context has ended, now or at one of the turns.
abbrev pub ends : Bool → List Turn → Bool
ends ended [] = ended
ends ended (t ∷ turns) = ended || ends t.ended turns

-- Whether the context has ended when these turns are over.
abbrev pub ended_after : Bool → List Turn → Bool
ended_after ended [] = ended
ended_after ended (t ∷ turns) = ended_after t.ended turns

-- What arrives in these turns.
abbrev pub all_arrived : List Turn → List (List ℕ)
all_arrived [] = []
all_arrived (t ∷ turns) = t.arrived ++ all_arrived turns

module _ {ℓ} {T : Type ℓ} (decode : List ℕ → Option T) (key : T → GoString) (match : T → Bool)
    (types : List GoString) where
  receive_all-++ :
      (frames : Frames T) (a b : List (List ℕ))
      → receive_all decode key (receive_all decode key frames a) b
        ≡ receive_all decode key frames (a ++ b)
  unfolding receive_all
  receive_all-++ frames [] b = refl
  receive_all-++ frames (d ∷ a) b = receive_all-++ (receive decode key frames d) a b

  -- A wait that came back, seen from the frames `now` of its last check.
  abbrev pub Ended : Frames T → Frames T × Outcome TransportError T → Type ℓ
  Ended now (left, ok m) = Took match types now m left
  Ended now (left, err e) = (any_match_in match types now ≡ false) × (left ≡ now)
  Ended now (left, panic) = Lift {0, ℓ} ⊥
  Ended now (left, stuck) = Lift {0, ℓ} ⊥

  -- An error comes when the context has ended.
  abbrev pub TimedOut : Bool → Outcome TransportError T → Type 0
  TimedOut now (ok m) = Unit {0}
  TimedOut now (err e) = now ≡ true
  TimedOut now panic = ⊥
  TimedOut now stuck = ⊥

  -- The wait came back before the turns `after`, with what arrived in the turns before received.
  abbrev pub Back : Frames T → Bool → List Turn → Frames T × Outcome TransportError T → Type ℓ
  Back frames ended turns w =
      (before : List Turn) × (after : List Turn) × (turns ≡ before ++ after)
      × TimedOut (ended_after ended before) w.1
      × Ended (receive_all decode key frames (all_arrived before)) w

  matching_turn-Ended :
      (frames : Frames T) (ended : Bool) (o : Option (T × Frames T)) (turns : List Turn)
      → take_message match types frames ≡ o
      → ends ended turns ≡ true
      → Back frames ended turns (matching_turn decode key match types frames ended o turns)
  unfolding matching_turn receive_all
  matching_turn-Ended frames ended (some (m, left)) turns h e =
      ([], turns, refl, tt, take_message-Took match types frames m left h)
  matching_turn-Ended frames true none turns h e =
      ([], turns, refl, refl, (take_message-none match types frames h, refl))
  matching_turn-Ended frames false none [] h e = absurd cc
  matching_turn-Ended frames false none (t ∷ turns) h e =
      let now = receive_all decode key frames t.arrived in
      let (before, after, split, late, result) =
        matching_turn-Ended now t.ended (take_message match types now) turns refl e in
      (
        t ∷ before,
        after,
        ap (λ l. t ∷ l) split,
        late,
        subst
            (λ f. Ended f (
              matching_turn decode key match types now t.ended (take_message match types now)
                turns))
            (receive_all-++ frames t.arrived (all_arrived before)) result,
      )

  -- If the context ends at some turn, a wait comes back, before some of the turns, with all that
  -- arrived in the turns before that received. If it gives a frame, this is the first match of the
  -- first asked type with a match in the queues of that moment, only it has been taken and all other
  -- queues are unchanged. If it gives an error, the context has ended by then, no queue of an asked
  -- type holds a match and no frame has been taken.
  pub wait_for_message_matching-Ended :
      (frames : Frames T) (ended : Bool) (turns : List Turn)
      → ends ended turns ≡ true
      → Back frames ended turns
          (wait_for_message_matching decode key match types frames ended turns)
  unfolding wait_for_message_matching
  wait_for_message_matching-Ended frames ended turns e =
      matching_turn-Ended frames ended (take_message match types frames) turns refl e
