-- ===== src/Gtpu/Fifo.antt =====
-- The queues of internal/gtpu/transport.go keep the order of arrival.
use gpp_server.Common.{
  ℕ, ◌≡◌, refl, sym, ap, ◌∙◌, arith, Bool, true, false, ◌&&◌, not, List, [], ◌∷◌, ◌++◌, length,
}
use gpp_server.Common.{
  Outcome, ok, err, panic, stuck, Returns, ◌>>=◌, ◌==◌, if◌then◌else◌, ==_iff, Bool-cases, inl, inr,
}
use gpp_server.Common.Text.{GoString}
use gpp_server.Common.Maps.{nat_key}
use gpp_server.Common.Queues.{queue, queue-push}
use gpp_server.Gtpu.Addr.{Addr}
use gpp_server.Gtpu.Message.{Message, msg_gpdu}
use gpp_server.Gtpu.Decode.{DecodeError, decode}
use gpp_server.Gtpu.Total.{decode-Returns}
use gpp_server.Gtpu.Endpoint.{Endpoint, EndpointError, Turn, enqueue, accept, receive, receive_all}

++_nil : (l : List Message) → l ++ [] ≡ l
++_nil [] = refl
++_nil (m ∷ l) = ap (λ r. m ∷ r) (++_nil l)

-- The G-PDUs for a TEID, in the order of the list.
abbrev pub for_teid : ℕ → List Message → List Message
for_teid teid [] = []
for_teid teid (m ∷ ms) =
    let rest = for_teid teid ms in if m.type == msg_gpdu && m.teid == teid then m ∷ rest else rest

++_assoc {ℓ} : {A : Type ℓ} (a b c : List A) → (a ++ b) ++ c ≡ a ++ (b ++ c)
++_assoc [] b c = refl
++_assoc (m ∷ a) b c = ap (λ r. m ∷ r) (++_assoc a b c)

for_teid-++ :
    (teid : ℕ) (a b : List Message) → for_teid teid (a ++ b) ≡ for_teid teid a ++ for_teid teid b
for_teid-++ teid [] b = refl
for_teid-++ teid (m ∷ a) b = ground (arith, for_teid-++ teid a b)

-- The context does not end in these turns, and what arrives in them.
abbrev pub patient : List Turn → Bool
patient [] = true
patient (t ∷ ts) = not t.ended && patient ts

abbrev pub all_arrived : List Turn → List (List ℕ)
all_arrived [] = []
all_arrived (t ∷ ts) = t.arrived ++ all_arrived ts

module _ (addr_string : Addr → GoString) where
  -- The message of a datagram, if it decodes.
  abbrev message_of : Outcome DecodeError Message → List Message
  message_of (ok m) = m ∷ []
  message_of _ = []

  abbrev pub decoded : List (List ℕ) → List Message
  decoded [] = []
  decoded (b ∷ bs) = (if length b == 0 then [] else message_of (decode addr_string b)) ++ decoded bs

  queue-enqueue :
      (teid : ℕ) (e : Endpoint) (m : Message)
      → queue teid (enqueue addr_string e m).gpdus ≡ queue teid e.gpdus ++ for_teid teid (m ∷ [])
  unfolding enqueue
  queue-enqueue teid e m = elim (Bool-cases (m.type == msg_gpdu)) [
    | inl gpdu ↦ ground (
      arith,
      queue-push m.teid teid m e.gpdus,
      gpdu,
      ++_nil (queue teid e.gpdus),
      (==_iff m.teid teid).0,
    )
    | inr other ↦ ground (arith, other, ++_nil (queue teid e.gpdus))
  ]

  queue-accept :
      (empty : Bool) (e : Endpoint) (o : Outcome DecodeError Message)
      → Returns o
      → (e1 : Endpoint) × ((if empty then ok e else accept addr_string e o) ≡ ok e1)
        × ((teid : ℕ)
            → queue teid e1.gpdus
              ≡ queue teid e.gpdus ++ for_teid teid (if empty then [] else message_of o))
  unfolding accept
  queue-accept true e o h = (e, refl, λ teid. sym (++_nil (queue teid e.gpdus)))
  queue-accept false e (ok m) h = (enqueue addr_string e m, refl, λ teid. queue-enqueue teid e m)
  queue-accept false e (err x) h = (e, refl, λ teid. sym (++_nil (queue teid e.gpdus)))
  queue-accept false e panic h = absurd h
  queue-accept false e stuck h = absurd h

  -- However the datagrams are formed, the receiver goes on after each of them, and the queue of
  -- every TEID then holds what it held before, followed by the G-PDUs for that TEID among those
  -- that decode, in the order of arrival.
  pub receive_all-for_teid :
      (e : Endpoint) (datagrams : List (List ℕ))
      → (e1 : Endpoint) × (receive_all addr_string e datagrams ≡ ok e1)
        × ((teid : ℕ)
            → queue teid e1.gpdus ≡ queue teid e.gpdus ++ for_teid teid (decoded datagrams))
  unfolding receive_all receive
  receive_all-for_teid e [] = (e, refl, λ teid. sym (++_nil (queue teid e.gpdus)))
  receive_all-for_teid e (b ∷ bs) =
      let (e1, h1, q1) =
        queue-accept (length b == 0) e (decode addr_string b) (decode-Returns addr_string b) in
      let (e2, h2, q2) = receive_all-for_teid e1 bs in
      (
        e2,
        ap (λ o. o >>= λ x. receive_all addr_string x bs) h1 ∙ h2,
        λ teid.
            q2 teid
            ∙ ap (λ l. l ++ for_teid teid (decoded bs)) (q1 teid)
            ∙ ++_assoc (queue teid e.gpdus) _ _
            ∙ ap (λ l. queue teid e.gpdus ++ l)
                (sym (
                  for_teid-++ teid (if length b == 0 then [] else message_of (decode addr_string b))
                    (decoded bs))),
      )

  -- What a wait takes: the first G-PDU for the TEID among those that were queued and those that
  -- arrived until it was woken, before the turns `after`. The others stay, and so do those for
  -- another TEID.
  abbrev pub Takes :
      ℕ → Message → Endpoint → List Turn → Endpoint × Outcome EndpointError Message → Type 0
  Takes teid m e turns w =
      (w.1 ≡ ok m)
      × (before : List Turn) × (after : List Turn) × (turns ≡ before ++ after)
      × (queue teid e.gpdus ++ for_teid teid (decoded (all_arrived before))
          ≡ m ∷ queue teid w.0.gpdus)
      × ((k : ℕ)
          → ¬ (teid ≡ k)
          → queue k w.0.gpdus ≡ queue k e.gpdus ++ for_teid k (decoded (all_arrived before)))
