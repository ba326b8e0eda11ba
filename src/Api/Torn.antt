-- ===== src/Api/Torn.antt =====
-- A request to create a gNB that fails takes back what it had done.
use gpp_server.Common.{
  ℕ, ◌≡◌, ◌+◌, arith, refl, sym, ap, ◌∙◌, Bool, true, false, Option, none, some, List, [],
}
use gpp_server.Common.{
  Outcome, ok, err, panic, stuck, if◌then◌else◌, if_true, if_false, Bool-cases, Option-cases, inl,
  inr,
}
use gpp_server.Common.Text.{GoString, format_int}
use gpp_server.Common.Maps.{
  bytes_key, lookup, insert, delete, lookup-insert, lookup-delete, bytes_beq_iff,
}
use gpp_server.Store.Contexts.{World, update}
use gpp_server.Store.Registry
use gpp_server.Store.Valid.{delete_gnb_found, delete_gnb_missing}
use gpp_server.Identity.NewUe.{is_empty}
use gpp_server.Api.Types.{NgapResponse, StatusError}
use gpp_server.Api.Action.{Env}
use gpp_server.Api.Dispatch.{Connection, ApiState}
use gpp_server.Api.Stations.{
  CreateGnbRequest, CreateGnbResponse, SetupLibrary, teardown_gnb, create_gnb, after_setup, set_up,
  listen_and_set_up, register_gnb, ng_setup,
}

-- Two maps with the same entries.
abbrev pub SameEntries : {V : Type 0} → List (GoString × V) → List (GoString × V) → Type 0
SameEntries m n = (id : GoString) → lookup id m ≡ lookup id n

-- The same gNBs are registered, with the same connections and endpoints.
pub record SameStations (st st' : ApiState) : Type 0 where
  pub same_gnbs : SameEntries st'.world.gnbs st.world.gnbs
  pub same_transports : SameEntries st'.transports st.transports
  pub same_endpoints : SameEntries st'.gtpu st.gtpu

SameStations-refl : (st : ApiState) → SameStations st st
SameStations-refl st = record {
  same_gnbs = λ id. refl;
  same_transports = λ id. refl;
  same_endpoints = λ id. refl;
}

delete-insert :
    {V : Type 0} (m : List (GoString × V)) (k : GoString) (v : V)
    → lookup k m ≡ none
    → SameEntries (delete k (insert k v m)) m
delete-insert m k v new id =
    ground
      (arith, lookup-delete k id (insert k v m), lookup-insert k id v m, bytes_beq_iff k id, new)

delete_missing :
    {V : Type 0} (m : List (GoString × V)) (k : GoString)
    → lookup k m ≡ none
    → SameEntries (delete k m) m
delete_missing m k new id = ground (arith, lookup-delete k id m, bytes_beq_iff k id, new)

-- Two maps with the same entries but for one key.
abbrev ButFor : {V : Type 0} → GoString → List (GoString × V) → List (GoString × V) → Type 0
ButFor k m n = (j : GoString) → ¬ (k ≡ j) → lookup j m ≡ lookup j n

insert-ButFor :
    {V : Type 0} (m : List (GoString × V)) (k : GoString) (v : V) → ButFor k (insert k v m) m
insert-ButFor m k v j other = ground (arith, lookup-insert k j v m, bytes_beq_iff k j, other)

true_not_false : ¬ (true ≡ false)
true_not_false e = cc

delete-ButFor :
    {V : Type 0} (m n : List (GoString × V)) (k : GoString)
    → ButFor k m n
    → lookup k n ≡ none
    → SameEntries (delete k m) n
delete-ButFor m n k but new j = elim (Bool-cases (bytes_key.same k j)) [
  | inl same ↦
      let e : k ≡ j = (bytes_beq_iff k j).0 same in
      lookup-delete k j m ∙ if_true _ _ same ∙ sym new ∙ ap (λ i. lookup i n) e
  | inr other ↦
      lookup-delete k j m
      ∙ if_false _ _ other
      ∙ but j (λ e. true_not_false (sym ((bytes_beq_iff k j).1 e) ∙ other))
]

deleted_gnbs :
    (w : World) (id : GoString) → SameEntries (Registry.delete_gnb w id).0.gnbs (delete id w.gnbs)
deleted_gnbs w id j = elim (Option-cases (lookup id w.gnbs)) [
  | inl e ↦
      ap (λ r. lookup j r.0.gnbs) (delete_gnb_missing w id e) ∙ sym (delete_missing w.gnbs id e j)
  | inr (p, e) ↦ ap (λ r. lookup j r.0.gnbs) (delete_gnb_found w id p e)
]

-- The state while the gNB is set up: only the new id's entries have changed.
record Partial (st st1 : ApiState) (id : GoString) : Type 0 where
  gnbs_but : ButFor id st1.world.gnbs st.world.gnbs
  transports_but : ButFor id st1.transports st.transports
  endpoints_but : ButFor id st1.gtpu st.gtpu

-- Nothing is kept under an id.
pub record Unregistered (st : ApiState) (id : GoString) : Type 0 where
  pub no_gnb : lookup id st.world.gnbs ≡ none
  pub no_transport : lookup id st.transports ≡ none
  pub no_endpoint : lookup id st.gtpu ≡ none

teardown_gnb-SameStations :
    (st st1 : ApiState) (id : GoString)
    → Unregistered st id
    → Partial st st1 id
    → SameStations st (teardown_gnb st1 id)
unfolding teardown_gnb
teardown_gnb-SameStations st st1 id new p = record {
  same_gnbs = λ j.
      deleted_gnbs st1.world id j
      ∙ delete-ButFor st1.world.gnbs st.world.gnbs id p.gnbs_but new.no_gnb j;
  same_transports = delete-ButFor st1.transports st.transports id p.transports_but new.no_transport;
  same_endpoints = delete-ButFor st1.gtpu st.gtpu id p.endpoints_but new.no_endpoint;
}

-- What holds of the state where the answer is an error.
abbrev TakenBack : ApiState → ApiState × Outcome StatusError CreateGnbResponse → Type 0
TakenBack st (st', ok r) = Unit {0}
TakenBack st (st', err e) = SameStations st st'
TakenBack st (st', panic) = Unit {0}
TakenBack st (st', stuck) = Unit {0}

if-TakenBack :
    (st : ApiState) (b : Bool) (r s : ApiState × Outcome StatusError CreateGnbResponse)
    → TakenBack st r
    → TakenBack st s
    → TakenBack st (if b then r else s)
if-TakenBack st true r s hr hs = hr
if-TakenBack st false r s hr hs = hs

module _ (env : Env) (lib : SetupLibrary) where
  after_setup-TakenBack :
      (st st1 : ApiState) (id : GoString) (o : Outcome StatusError (Connection × NgapResponse))
      → Unregistered st id
      → Partial st st1 id
      → TakenBack st (after_setup env lib st1 id o)
  after_setup-TakenBack st st1 id (ok (c, r)) new p = tt
  after_setup-TakenBack st st1 id (err e) new p = teardown_gnb-SameStations st st1 id new p
  after_setup-TakenBack st st1 id panic new p = tt
  after_setup-TakenBack st st1 id stuck new p = tt

  set_up-TakenBack :
      (st st1 : ApiState) (id : GoString) (req : CreateGnbRequest)
      → Unregistered st id
      → Partial st st1 id
      → TakenBack st (set_up env lib st1 id req)
  set_up-TakenBack st st1 id req new p =
      if-TakenBack st req.skip_ng_setup _ _ tt
        (after_setup-TakenBack st st1 id (ng_setup env lib req) new p)

  listen_and_set_up-TakenBack :
      (st st1 : ApiState) (g : ℕ) (id n3 : GoString) (req : CreateGnbRequest)
      → Unregistered st id
      → Partial st st1 id
      → TakenBack st (listen_and_set_up env lib st1 g id n3 req)
  listen_and_set_up-TakenBack st st1 g id n3 req new p =
      if-TakenBack st req.enable_gtpu _ _
        (if-TakenBack st (lib.listen n3) _ _
          (set_up-TakenBack st _ id req new (record {
            gnbs_but = p.gnbs_but;
            transports_but = p.transports_but;
            endpoints_but =
                λ j other. insert-ButFor st1.gtpu id tt j other ∙ p.endpoints_but j other;
          }))
          (teardown_gnb-SameStations st st1 id new p))
        (set_up-TakenBack st st1 id req new p)

  -- The id of the gNB that the store would make next.
  abbrev next_gnb : ApiState → CreateGnbRequest → GoString
  next_gnb st req = let (w, g) = Registry.create_gnb st.world req.config in (w.gnb_at g).id

  next_gnb_lem :
      (st : ApiState) (req : CreateGnbRequest)
      → next_gnb st req ≡ format_int (Registry.u64 (st.world.next_id + 1))
  unfolding Registry.create_gnb Registry.new_gnb_context update
  next_gnb_lem st req = ground arith

  created_gnbs :
      (st : ApiState) (req : CreateGnbRequest)
      → ButFor (next_gnb st req) (Registry.create_gnb st.world req.config).0.gnbs st.world.gnbs
  unfolding Registry.create_gnb
  created_gnbs st req j other =
      insert-ButFor st.world.gnbs _ st.world.fresh j (λ e. other (next_gnb_lem st req ∙ e))

  register_gnb-TakenBack :
      (st : ApiState) (local_addr : GoString) (req : CreateGnbRequest)
      → Unregistered st (next_gnb st req)
      → TakenBack st (register_gnb env lib st local_addr req)
  register_gnb-TakenBack st local_addr req new =
      let id = next_gnb st req in
      listen_and_set_up-TakenBack st _ _ id _ req new (record {
        gnbs_but = created_gnbs st req;
        transports_but = insert-ButFor st.transports id (record { frames = []; sent = [] });
        endpoints_but = λ j other. refl;
      })

  create-TakenBack :
      (st : ApiState) (body : Option CreateGnbRequest)
      → ((req : CreateGnbRequest) → Unregistered st (next_gnb st req))
      → TakenBack st (create_gnb env lib st body)
  unfolding create_gnb
  create-TakenBack st none new = SameStations-refl st
  create-TakenBack st (some req) new =
      if-TakenBack st (is_empty req.amf_address) _ _ (SameStations-refl st) (
        if-TakenBack st (lib.dial _ req.amf_address) _ _ (register_gnb-TakenBack st _ req (new req))
          (SameStations-refl st))

  -- A request to create a gNB that fails, at whatever step, takes back what it had done, if nothing is
  -- kept under the id that the store makes next: the same gNBs are registered as before, with the same
  -- connections and the same GTP-U endpoints.
  pub create_gnb-SameStations :
      (st st' : ApiState) (body : Option CreateGnbRequest) (e : StatusError)
      → Unregistered st (format_int (Registry.u64 (st.world.next_id + 1)))
      → create_gnb env lib st body ≡ (st', err e)
      → SameStations st st'
  create_gnb-SameStations st st' body e new h =
      let taken = create-TakenBack st body (λ req. rw (next_gnb_lem st req) new) in rw h at taken
