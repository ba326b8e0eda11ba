-- ===== src/Transport/Tests.antt =====
-- The theorems on internal/transport at concrete frames: numbers, of which the parity is the type.
use gpp_server.Common.{ℕ, ◌%◌, ◌≡◌, refl, true, false, Option, some, Bool, List, [], ◌∷◌, ltb}
use gpp_server.Common.Bytes.{byte_at}
use gpp_server.Common.Maps.{bytes_key, lookup, insert}
use gpp_server.Common.Text.{GoString}
use gpp_server.Common.Queues.{queue, set_queue}
use gpp_server.Transport.Framed.{Frames, Turn, take_first, take_message, wait_for_message_matching}
use gpp_server.Transport.Matching.{Took, take_message-Took}
use gpp_server.Transport.Waits.{Back, wait_for_message_matching-Ended}

abbrev decode_number : List ℕ → Option ℕ
decode_number b = some (byte_at b 0)

abbrev parity : ℕ → GoString
parity n = n % 2 ∷ []

abbrev small : ℕ → Bool
small n = ltb n 10

abbrev frames : Frames ℕ
frames = (0 ∷ [], 12 ∷ 4 ∷ 6 ∷ []) ∷ (1 ∷ [], 13 ∷ []) ∷ []

abbrev types : List GoString
types = (1 ∷ []) ∷ (0 ∷ []) ∷ []

abbrev left : Frames ℕ
left = (0 ∷ [], 12 ∷ 6 ∷ []) ∷ (1 ∷ [], 13 ∷ []) ∷ []

take_four : take_message small types frames ≡ some (4, left)
unfolding take_message take_first queue set_queue lookup insert
take_four = refl

take_message-Took_example : Took small types frames 4 left
take_message-Took_example = take_message-Took small types frames 4 left take_four

abbrev turns : List Turn
turns =
    record { arrived = (15 ∷ []) ∷ (3 ∷ []) ∷ []; ended = false }
    ∷ record { arrived = []; ended = true }
    ∷ []

wait_for_message_matching-Ended_example :
    Back decode_number parity small types [] false turns
      (wait_for_message_matching decode_number parity small types [] false turns)
wait_for_message_matching-Ended_example =
    wait_for_message_matching-Ended decode_number parity small types [] false turns refl
