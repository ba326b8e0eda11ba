-- ===== src/Store/Valid.antt =====
-- internal/store/store.go: the ids of the registered base stations.
use gpp_server.Common.{ℕ, ◌+◌, ◌≤◌, ◌<◌, ◌≡◌, ◌≢◌, refl, sym, ◌∙◌, arith}
use gpp_server.Common.{
  Bool-cases, Option-cases, ◌⊎◌, inl, inr, List, [], ◌∷◌, none, some, ok, err, lt→ltb,
}
use gpp_server.Common.Text.{GoString, format_int, format_uint-injective}
use gpp_server.Common.Maps.{
  bytes_key, bytes_beq_iff, bytes_beq, lookup, insert, delete, lookup-insert, lookup-delete,
  same_ne,
}
use gpp_server.Store.Contexts.{World, update}
use gpp_server.Store.Registry.{GnbConfig, EnbConfig, u64, create_gnb, get_gnb, delete_gnb}
use gpp_server.Store.Registry.{
  create_enb, get_enb, delete_enb, gnb_not_found, enb_not_found, new_gnb_context,
}

abbrev pub max_int64 : ℕ
max_int64 = 9223372036854775807

pub format_int-injective :
    (n m : ℕ) → n ≤ max_int64 → m ≤ max_int64 → format_int n ≡ format_int m → n ≡ m
unfolding format_int
format_int-injective n m hn hm e = format_uint-injective n m (
    rw (lt→ltb n 9223372036854775808 (omega arith), lt→ltb m 9223372036854775808 (omega arith)) at
      e)

-- Every key of the map was made from a number from 1 to `n`, and its address has been handed out.
abbrev pub Issued : ℕ → ℕ → List (GoString × ℕ) → Type 0
Issued n fresh [] = Unit {0}
Issued n fresh ((k, p) ∷ m) =
    ((i : ℕ) × (1 ≤ i) × (i ≤ n) × (k ≡ format_int i)) × (p < fresh) × Issued n fresh m

-- The keys of both registries are texts of numbers that the counter has passed.
pub record IsValid (w : World) : Type 0 where
  pub gnb_ids : Issued w.next_id w.fresh w.gnbs
  pub enb_ids : Issued w.next_id w.fresh w.enbs

Issued-grow :
    (n n' fresh fresh' : ℕ) (m : List (GoString × ℕ))
    → n ≤ n'
    → fresh ≤ fresh'
    → Issued n fresh m
    → Issued n' fresh' m
Issued-grow n n' f f' [] h k i = tt
Issued-grow n n' f f' ((k, p) ∷ m) h g ((i, lo, hi, e), under, rest) =
    ((i, lo, omega arith, e), omega arith, Issued-grow n n' f f' m h g rest)

Issued-insert :
    (n fresh i p : ℕ) (m : List (GoString × ℕ))
    → 1 ≤ i
    → i ≤ n
    → p < fresh
    → Issued n fresh m
    → Issued n fresh (insert (format_int i) p m)
unfolding insert
Issued-insert n fresh i p [] lo hi under is = ((i, lo, hi, refl), under, tt)
Issued-insert n fresh i p ((k, q) ∷ m) lo hi under (here, u, rest) =
    elim (Bool-cases (bytes_beq k (format_int i))) [
      | inl same ↦ rw same ((i, lo, hi, refl), under, rest)
      | inr other ↦ rw other (here, u, Issued-insert n fresh i p m lo hi under rest)
    ]

Issued-delete :
    (n fresh : ℕ) (id : GoString) (m : List (GoString × ℕ))
    → Issued n fresh m
    → Issued n fresh (delete id m)
unfolding delete
Issued-delete n fresh id [] is = tt
Issued-delete n fresh id ((k, q) ∷ m) (here, u, rest) = elim (Bool-cases (bytes_beq k id)) [
  | inl same ↦ rw same (Issued-delete n fresh id m rest)
  | inr other ↦ rw other (here, u, Issued-delete n fresh id m rest)
]

-- A number that has not been issued is the key of nothing.
lookup_of_new :
    (n fresh i : ℕ) (m : List (GoString × ℕ))
    → n < i
    → i ≤ max_int64
    → Issued n fresh m
    → lookup (format_int i) m ≡ none
unfolding lookup
lookup_of_new n fresh i [] h small is = refl
lookup_of_new n fresh i ((k, q) ∷ m) h small ((j, lo, hi, e), u, rest) =
    rw (same_ne k (format_int i) (λ same. absurd (differ same)))
      (lookup_of_new n fresh i m h small rest)
  where
    differ : k ≡ format_int i → ⊥
    differ same = omega (arith, format_int-injective j i (omega arith) small (sym e ∙ same))

module _ (w : World) (valid : IsValid w) (room : w.next_id < max_int64) where
  next_number : u64 (w.next_id + 1) ≡ w.next_id + 1
  next_number = omega arith

  pub create_gnb-IsValid : (c : GnbConfig) → IsValid (create_gnb w c).0
  unfolding create_gnb
  create_gnb-IsValid c = rw next_number (record {
    gnb_ids =
        Issued-insert _ _ (w.next_id + 1) w.fresh w.gnbs (omega arith) (omega arith) (omega arith)
          (Issued-grow _ _ _ _ w.gnbs (omega arith) (omega arith) valid.gnb_ids);
    enb_ids = Issued-grow _ _ _ _ w.enbs (omega arith) (omega arith) valid.enb_ids;
  })

  -- Creating a gNB takes an id under which no base station of either kind was registered, and the
  -- registered ones stay as they were: a later lookup of the new id gives the new gNB, with the
  -- configuration asked for and no UE, and a lookup of any other id gives what it gave before.
  pub create_gnb_fresh :
      (c : GnbConfig)
      → let (w', gnb) = create_gnb w c in
        let id = format_int (w.next_id + 1) in
        (get_gnb w id ≡ err (gnb_not_found id))
        × (get_enb w id ≡ err (enb_not_found id))
        × (get_gnb w' id ≡ ok gnb)
        × (w'.gnb_at gnb ≡ new_gnb_context id c)
        × ((j : GoString) → j ≢ id → get_gnb w' j ≡ get_gnb w j)
        × ((p : ℕ) → p < w.fresh → w'.gnb_at p ≡ w.gnb_at p)
  unfolding create_gnb get_gnb get_enb new_gnb_context update
  create_gnb_fresh c = (
    ground (arith, unused w.gnbs valid.gnb_ids),
    ground (arith, unused w.enbs valid.enb_ids),
    ground (arith, next_number, lookup-insert id id w.fresh w.gnbs, bytes_beq_iff id id),
    ground (arith, next_number),
    λ j other. ground (arith, next_number, lookup-insert id j w.fresh w.gnbs, bytes_beq_iff id j),
    λ p old. ground arith,
  )
    where
      id : GoString
      id = format_int (w.next_id + 1)

      unused : (m : List (GoString × ℕ)) → Issued w.next_id w.fresh m → lookup id m ≡ none
      unused m is = lookup_of_new w.next_id w.fresh (w.next_id + 1) m (omega arith) (omega arith) is

  pub create_enb-IsValid : (c : EnbConfig) → IsValid (create_enb w c).0
  unfolding create_enb
  create_enb-IsValid c = rw next_number (record {
    gnb_ids = Issued-grow _ _ _ _ w.gnbs (omega arith) (omega arith) valid.gnb_ids;
    enb_ids =
        Issued-insert _ _ (w.next_id + 1) w.fresh w.enbs (omega arith) (omega arith) (omega arith)
          (Issued-grow _ _ _ _ w.enbs (omega arith) (omega arith) valid.enb_ids);
  })

module _ (w : World) (id : GoString) where
  pub delete_gnb_found :
      (p : ℕ)
      → lookup id w.gnbs ≡ some p
      → delete_gnb w id ≡ (record w { gnbs = delete id w.gnbs }, none)
  unfolding delete_gnb
  delete_gnb_found p e = ground arith

  pub delete_gnb_missing : lookup id w.gnbs ≡ none → delete_gnb w id ≡ (w, some (gnb_not_found id))
  unfolding delete_gnb
  delete_gnb_missing e = ground arith

  delete_enb_found :
      (p : ℕ)
      → lookup id w.enbs ≡ some p
      → delete_enb w id ≡ (record w { enbs = delete id w.enbs }, none)
  unfolding delete_enb
  delete_enb_found p e = ground arith

  delete_enb_missing : lookup id w.enbs ≡ none → delete_enb w id ≡ (w, some (enb_not_found id))
  unfolding delete_enb
  delete_enb_missing e = ground arith

module _ (w : World) (valid : IsValid w) (id : GoString) where
  pub delete_gnb-IsValid : IsValid (delete_gnb w id).0
  delete_gnb-IsValid = elim (Option-cases (lookup id w.gnbs)) [
    | inl missing ↦ rw (delete_gnb_missing w id missing) valid
    | inr (gnb, found) ↦ rw (delete_gnb_found w id gnb found) (record {
      gnb_ids = Issued-delete w.next_id w.fresh id w.gnbs valid.gnb_ids;
      enb_ids = valid.enb_ids;
    })
  ]

  pub delete_enb-IsValid : IsValid (delete_enb w id).0
  delete_enb-IsValid = elim (Option-cases (lookup id w.enbs)) [
    | inl missing ↦ rw (delete_enb_missing w id missing) valid
    | inr (enb, found) ↦ rw (delete_enb_found w id enb found) (record {
      gnb_ids = valid.gnb_ids;
      enb_ids = Issued-delete w.next_id w.fresh id w.enbs valid.enb_ids;
    })
  ]

-- Deleting a gNB removes it and nothing else: afterwards its id is not found, every other id gives
-- what it gave, and the eNBs are untouched. If the id was registered the call succeeds; if not, it
-- fails with the error that a lookup gives, and nothing changes.
pub delete_gnb_lem :
    (w : World) (id : GoString)
    → let (w', e) = delete_gnb w id in
      (get_gnb w' id ≡ err (gnb_not_found id))
      × ((j : GoString) → j ≢ id → get_gnb w' j ≡ get_gnb w j)
      × (w'.enbs ≡ w.enbs)
      × ((e ≡ none) × ((p : ℕ) × (get_gnb w id ≡ ok p))
          ⊎ (e ≡ some (gnb_not_found id)) × (get_gnb w id ≡ err (gnb_not_found id)) × (w' ≡ w))
unfolding get_gnb
delete_gnb_lem w id = elim (Option-cases (lookup id w.gnbs)) [
  | inl missing ↦
      rw (delete_gnb_missing w id missing)
        (ground arith, λ j other. refl, refl, inr (refl, ground arith, refl))
  | inr (gnb, found) ↦ rw (delete_gnb_found w id gnb found) (
    ground (arith, lookup-delete id id w.gnbs, bytes_beq_iff id id),
    λ j other. ground (arith, lookup-delete id j w.gnbs, bytes_beq_iff id j),
    refl,
    inl (refl, (gnb, ground arith)),
  )
]
