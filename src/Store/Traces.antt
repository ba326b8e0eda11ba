-- ===== src/Store/Traces.antt =====
-- internal/store/store.go: any sequence of calls on the store.
use gpp_server.Common.{
  ℕ, ◌+◌, ◌≤◌, ◌<◌, ◌≡◌, ◌≢◌, refl, ◌∙◌, arith, List, [], ◌∷◌, ◌++◌, All, All-map, length, ◌⊎◌, inl,
  inr,
}
use gpp_server.Common.Text.{GoString, format_int}
use gpp_server.Store.Contexts.{World, update}
use gpp_server.Store.Registry.{
  GnbConfig, EnbConfig, create_gnb, delete_gnb, create_enb, delete_enb, new_gnb_context,
  new_enb_context,
}
use gpp_server.Store.Valid.{IsValid, max_int64, format_int-injective}
use gpp_server.Store.Valid.{
  create_gnb-IsValid, create_enb-IsValid, delete_gnb-IsValid, delete_enb-IsValid,
}

-- A call that changes the store.
pub data Call : Type 0 where
  make_gnb : GnbConfig → Call
  make_enb : EnbConfig → Call
  drop_gnb drop_enb : GoString → Call

pub step : World → Call → World
step w (make_gnb c) = (create_gnb w c).0
step w (make_enb c) = (create_enb w c).0
step w (drop_gnb id) = (delete_gnb w id).0
step w (drop_enb id) = (delete_enb w id).0

pub run : World → List Call → World
run w [] = w
run w (c ∷ cs) = run (step w c) cs

-- The id that a call gives to a new base station: the one in the context that it makes.
abbrev pub new_id : World → Call → List GoString
new_id w (make_gnb c) = let (w', p) = create_gnb w c in (w'.gnb_at p).id ∷ []
new_id w (make_enb c) = let (w', p) = create_enb w c in (w'.enb_at p).id ∷ []
new_id w (drop_gnb id) = []
new_id w (drop_enb id) = []

pub ids_made : World → List Call → List GoString
ids_made w [] = []
ids_made w (c ∷ cs) = new_id w c ++ ids_made (step w c) cs

abbrev pub Distinct : List GoString → Type 0
Distinct [] = Unit {0}
Distinct (x ∷ xs) = All (λ y. x ≢ y) xs × Distinct xs

step-next_id :
    (w : World) (c : Call)
    → w.next_id < max_int64
    → ((step w c).next_id ≤ w.next_id + 1) × (w.next_id ≤ (step w c).next_id)
unfolding step create_gnb create_enb delete_gnb delete_enb
step-next_id w (make_gnb c) h = omega arith
step-next_id w (make_enb c) h = omega arith
step-next_id w (drop_gnb id) h = ground arith
step-next_id w (drop_enb id) h = ground arith

pub step-IsValid : (w : World) (c : Call) → w.next_id < max_int64 → IsValid w → IsValid (step w c)
unfolding step
step-IsValid w (make_gnb c) h v = create_gnb-IsValid w v h c
step-IsValid w (make_enb c) h v = create_enb-IsValid w v h c
step-IsValid w (drop_gnb id) h v = delete_gnb-IsValid w v id
step-IsValid w (drop_enb id) h v = delete_enb-IsValid w v id

new_id_lem :
    (w : World) (c : Call)
    → w.next_id < max_int64
    → (new_id w c ≡ [])
      ⊎ ((new_id w c ≡ format_int (w.next_id + 1) ∷ []) × ((step w c).next_id ≡ w.next_id + 1))
unfolding step create_gnb create_enb new_gnb_context new_enb_context update
new_id_lem w (make_gnb c) h = ground arith
new_id_lem w (make_enb c) h = ground arith
new_id_lem w (drop_gnb id) h = inl refl
new_id_lem w (drop_enb id) h = inl refl

abbrev IsAfter : ℕ → GoString → Type 0
IsAfter k y = (i : ℕ) × (k < i) × (i ≤ max_int64) × (y ≡ format_int i)

ids_made-IsAfter :
    (w : World) (cs : List Call) (k : ℕ)
    → k ≤ w.next_id
    → w.next_id + length cs ≤ max_int64
    → All (IsAfter k) (ids_made w cs)
unfolding ids_made
ids_made-IsAfter w [] k h room = tt
ids_made-IsAfter w (c ∷ cs) k h room =
    let grows = step-next_id w c (omega arith) in
    let later = ids_made-IsAfter (step w c) cs k (omega arith) (omega arith) in
    elim (new_id_lem w c (omega arith)) [
      | inl nothing ↦ rw nothing later
      | inr (one, up) ↦ rw one ((w.next_id + 1, omega arith, omega arith, refl), later)
    ]

-- Ids are never reused: over any sequence of calls, deletions included, the ids that new base
-- stations of both kinds get are pairwise different, while the 63-bit counter lasts.
pub ids_made-Distinct :
    (cs : List Call) (w : World) → w.next_id + length cs ≤ max_int64 → Distinct (ids_made w cs)
unfolding ids_made
ids_made-Distinct [] w room = tt
ids_made-Distinct (c ∷ cs) w room =
    let grows = step-next_id w c (omega arith) in
    let rest = ids_made-Distinct cs (step w c) (omega arith) in
    elim (new_id_lem w c (omega arith)) [
      | inl nothing ↦ rw nothing rest
      | inr (one, up) ↦ rw one (
        All-map (IsAfter (w.next_id + 1)) _ _
            (λ y (i, after, small, e) same.
              omega (arith, format_int-injective (w.next_id + 1) i (omega arith) small (same ∙ e)))
            (ids_made-IsAfter (step w c) cs (w.next_id + 1) (omega arith) (omega arith)),
        rest,
      )
    ]

-- The keys of the registered base stations stay texts of numbers that the counter has passed.
pub run-IsValid :
    (cs : List Call) (w : World)
    → w.next_id + length cs ≤ max_int64
    → IsValid w
    → IsValid (run w cs)
unfolding run
run-IsValid [] w room v = v
run-IsValid (c ∷ cs) w room v =
    let grows = step-next_id w c (omega arith) in
    run-IsValid cs (step w c) (omega arith) (step-IsValid w c (omega arith) v)
