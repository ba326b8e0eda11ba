-- ===== src/Transport/Matching.antt =====
-- What the waits of internal/transport/framed.go take from the queues.
use mathlib.Core.Path.{subst}
use gpp_server.Common.{
  ◌≡◌, ◌≢◌, refl, sym, ap, ◌∙◌, Bool, true, false, ◌||◌, Option, none, some, List, [], ◌∷◌, ◌++◌,
}
use gpp_server.Common.{Bool-cases, if_true, if_false, else_taken, inl, inr, Option-cases}
use gpp_server.Common.Text.{GoString}
use gpp_server.Common.Maps.{bytes_key, same_self, same_ne}
use gpp_server.Common.Queues.{queue, set_queue, queue-set_queue}
use gpp_server.Transport.Framed.{Frames, with_kept, or_else, take_first, take_message}

module _ {ℓ} {T : Type ℓ} (match : T → Bool) where
  abbrev pub any_match : List T → Bool
  any_match [] = false
  any_match (x ∷ xs) = match x || any_match xs

  -- A queue from which the first match is gone.
  abbrev pub Removed : T → List T → List T → Type ℓ
  Removed m q left =
      (before : List T) × (after : List T) × (q ≡ before ++ (m ∷ after))
      × (left ≡ before ++ after)
      × (any_match before ≡ false)
      × (match m ≡ true)

  here :
      (x : T) (xs : List T) (m : T) (left : List T)
      → match x ≡ true
      → ◌≡◌ {A = Option (T × List T)} (some (x, xs)) (some (m, left))
      → Removed m (x ∷ xs) left
  here x xs m left first h =
      let p : ◌≡◌ {A = T × List T} (x, xs) (m, left) = cc in
      let e = ap (λ r. r.0) p in
      ([], xs, ap (λ y. y ∷ xs) e, sym (ap (λ r. r.1) p), refl, ap match (sym e) ∙ first)

  with_kept_lem :
      (x m : T) (o : Option (T × List T)) (left : List T)
      → with_kept x o ≡ some (m, left)
      → (rest : List T) × (o ≡ some (m, rest)) × (left ≡ x ∷ rest)
  with_kept_lem x m none left h = absurd cc
  with_kept_lem x m (some (n, rest)) left h = (rest, cc, cc)

  take_first_lem :
      (q : List T) (m : T) (left : List T) → take_first match q ≡ some (m, left) → Removed m q left
  unfolding take_first
  take_first_lem [] m left h = absurd cc
  take_first_lem (x ∷ xs) m left h = elim (Bool-cases (match x)) [
    | inl first ↦
        here x xs m left first
          (sym (if_true (some (x, xs)) (with_kept x (take_first match xs)) first) ∙ h)
    | inr other ↦
        let (rest, e1, e2) =
          with_kept_lem x m (take_first match xs) left
            (sym (if_false (some (x, xs)) (with_kept x (take_first match xs)) other) ∙ h) in
        let (before, after, r1, r2, r3, r4) = take_first_lem xs m rest e1 in
        (
          x ∷ before,
          after,
          ap (λ l. x ∷ l) r1,
          e2 ∙ ap (λ l. x ∷ l) r2,
          ap (λ b. b || any_match before) other ∙ r3,
          r4,
        )
  ]

  some≢none : {r : T × List T} → some r ≡ none → ⊥
  some≢none h = cc

  some≢nothing : {r : T × Frames T} → some r ≡ none → ⊥
  some≢nothing h = cc

  with_kept-none : (x : T) (o : Option (T × List T)) → with_kept x o ≡ none → o ≡ none
  with_kept-none x none h = refl
  with_kept-none x (some (n, rest)) h = absurd cc

  take_first-none : (q : List T) → take_first match q ≡ none → any_match q ≡ false
  unfolding take_first
  take_first-none [] h = refl
  take_first-none (x ∷ xs) h =
      let (e1, e2) = else_taken (match x) h (λ e. absurd (some≢none e)) in
      ap (λ b. b || any_match xs) e1
      ∙ take_first-none xs (with_kept-none x (take_first match xs) e2)

  abbrev pub any_match_in : List GoString → Frames T → Bool
  any_match_in [] frames = false
  any_match_in (t ∷ ts) frames = any_match (queue t frames) || any_match_in ts frames

  -- One match is gone from the queue of the first of the types that has one.
  abbrev pub Took : List GoString → Frames T → T → Frames T → Type ℓ
  Took types frames m left =
      (earlier : List GoString) × (msg_type : GoString) × (later : List GoString) × (types
        ≡ earlier ++ (msg_type ∷ later))
      × (any_match_in earlier frames ≡ false)
      × Removed m (queue msg_type frames) (queue msg_type left)
      × ((other : GoString) → other ≢ msg_type → queue other left ≡ queue other frames)

  Took-here :
      (t : GoString) (ts : List GoString) (frames : Frames T) (n m : T) (rest : List T)
      (left : Frames T)
      → take_first match (queue t frames) ≡ some (n, rest)
      → ◌≡◌ {A = Option (T × Frames T)} (some (n, set_queue t rest frames)) (some (m, left))
      → Took (t ∷ ts) frames m left
  Took-here t ts frames n m rest left e h =
      let p : ◌≡◌ {A = T × Frames T} (n, set_queue t rest frames) (m, left) = cc in
      let now : queue t left ≡ rest =
        ap (λ r. queue t r.1) (sym p)
        ∙ queue-set_queue t t rest frames
        ∙ if_true rest (queue t frames) (same_self t) in
      (
        [],
        t,
        ts,
        refl,
        refl,
        subst (λ l. Removed m (queue t frames) l) (sym now)
            (take_first_lem (queue t frames) m rest (e ∙ ap (λ r. some (r.0, rest)) p)),
        λ other ne.
            ap (λ r. queue other r.1) (sym p)
            ∙ queue-set_queue t other rest frames
            ∙ if_false rest (queue other frames) (same_ne t other (λ eq. ne (sym eq))),
      )

  Took-later :
      (t : GoString) (ts : List GoString) (frames : Frames T) (m : T) (left : Frames T)
      → any_match (queue t frames) ≡ false
      → Took ts frames m left
      → Took (t ∷ ts) frames m left
  Took-later t ts frames m left unmatched
        (earlier, msg_type, later, e, none_before, removed, kept) =
      (
        t ∷ earlier,
        msg_type,
        later,
        ap (λ l. t ∷ l) e,
        ap (λ b. b || any_match_in earlier frames) unmatched ∙ none_before,
        removed,
        kept,
      )

  -- A frame that is taken is the first match of the first of the asked types that has one; it is
  -- the only one that goes, and all other queues stay as they are.
  pub take_message-Took :
      (types : List GoString) (frames : Frames T) (m : T) (left : Frames T)
      → take_message match types frames ≡ some (m, left)
      → Took types frames m left
  unfolding take_message
  take_message-Took [] frames m left h = absurd cc
  take_message-Took (t ∷ ts) frames m left h =
      elim (Option-cases (take_first match (queue t frames))) [
        | inl nothing ↦ Took-later t ts frames m left (take_first-none (queue t frames) nothing) (
            take_message-Took ts frames m left
              (sym (ap (λ o. or_else t frames o (take_message match ts frames)) nothing) ∙ h))
        | inr ((n, rest), found) ↦
            Took-here t ts frames n m rest left found
              (sym (ap (λ o. or_else t frames o (take_message match ts frames)) found) ∙ h)
      ]

  -- Nothing is taken only where no queue of the asked types has a match.
  pub take_message-none :
      (types : List GoString) (frames : Frames T)
      → take_message match types frames ≡ none
      → any_match_in types frames ≡ false
  unfolding take_message
  take_message-none [] frames h = refl
  take_message-none (t ∷ ts) frames h = elim (Option-cases (take_first match (queue t frames))) [
    | inl nothing ↦
        ap (λ b. b || any_match_in ts frames) (take_first-none (queue t frames) nothing)
        ∙ take_message-none ts frames
            (sym (ap (λ o. or_else t frames o (take_message match ts frames)) nothing) ∙ h)
    | inr ((n, rest), found) ↦
        absurd (
          some≢nothing
            (sym (ap (λ o. or_else t frames o (take_message match ts frames)) found) ∙ h))
  ]
