-- ===== src/Api/UsersKept.antt =====
-- The UE that a request creates is the one that its answer names.
use gpp_server.Common.{
  ℕ, ◌≡◌, ◌≢◌, arith, refl, ap, ◌∙◌, Bool, true, false, Option, none, some, ==_iff,
}
use gpp_server.Common.{Outcome, ok, err, panic, stuck, if◌then◌else◌, ok-injective, if_true}
use gpp_server.Common.Text.{GoString}
use gpp_server.Common.Maps.{bytes_key, lookup, lookup-insert, bytes_beq_iff}
use gpp_server.Store.Contexts.{World, GnbContext, UeContext, update}
use gpp_server.Store.Registry
use gpp_server.Store.Registry.{StoreError}
use gpp_server.Store.Gnb
use gpp_server.Identity.Suci.{CryptoLibrary}
use gpp_server.Identity.NewUe.{CreateUeOpts, NewUeError, is_empty}
use gpp_server.Api.Types.{StatusError, Fault, supi_missing, k_missing, opc_missing}
use gpp_server.Api.Users.{
  Request, refuse, with_gnb, with_body, CreateGnbUeResponse, register_ue, create_on, create_gnb_ue,
}

-- The UE of the answer is at a new address, under its id on the gNB, with the answer's SUPI and
-- identity; every other id and address is as before, and so is the gNBs' registry.
pub record Created (w : World) (g : ℕ) (w' : World) (resp : CreateGnbUeResponse) : Type 0 where
  pub found : Gnb.get_ue (w'.gnb_at g) resp.ue_id ≡ some w.fresh
  pub supi : (w'.ue_at w.fresh).supi ≡ resp.supi
  pub suci : (w'.ue_at w.fresh).suci_string ≡ resp.suci
  pub ran : (w'.ue_at w.fresh).ran_ue_ngap_id ≡ resp.ran_ue_ngap_id
  pub other_ids :
      (id : GoString) → id ≢ resp.ue_id → Gnb.get_ue (w'.gnb_at g) id ≡ Gnb.get_ue (w.gnb_at g) id
  pub other_ues : (u : ℕ) → u ≢ w.fresh → w'.ue_at u ≡ w.ue_at u
  pub other_gnbs : (p : ℕ) → p ≢ g → w'.gnb_at p ≡ w.gnb_at p
  pub same_registry : w'.gnbs ≡ w.gnbs

update_here : {A : Type 0} (at : ℕ → A) (p : ℕ) (x : A) → update at p x p ≡ x
unfolding update
update_here at p x = if_true _ _ ((==_iff p p).1 refl)

update_there : {A : Type 0} (at : ℕ → A) (p : ℕ) (x : A) (q : ℕ) → q ≢ p → update at p x q ≡ at q
unfolding update
update_there at p x q other = ground (arith, other)

err_not_ok :
    {A : Type 0} {e : StatusError} {a : A} → ¬ (◌≡◌ {A = Outcome StatusError A} (err e) (ok a))
err_not_ok h = cc

panic_not_ok : {A : Type 0} {a : A} → ¬ (◌≡◌ {A = Outcome StatusError A} panic (ok a))
panic_not_ok h = cc

stuck_not_ok : {A : Type 0} {a : A} → ¬ (◌≡◌ {A = Outcome StatusError A} stuck (ok a))
stuck_not_ok h = cc

register_ue-Created :
    (w : World) (g : ℕ) (gnb : GnbContext) (ue : UeContext)
    → gnb.ues ≡ (w.gnb_at g).ues
    → Created w g (register_ue w g gnb (ok ue)).0 (record {
      ue_id = ue.id;
      supi = ue.supi;
      suci = ue.suci_string;
      ran_ue_ngap_id = ue.ran_ue_ngap_id;
    })
unfolding Gnb.get_ue Gnb.create_ue
register_ue-Created w g gnb ue same_ues =
    let here = update_here w.gnb_at g (Gnb.create_ue gnb ue.id w.fresh) in
    let new_ue = update_here w.ue_at w.fresh ue in
    record {
      found =
          ap (λ c. lookup ue.id c.ues) here
          ∙ lookup-insert ue.id ue.id w.fresh gnb.ues
          ∙ if_true _ _ ((bytes_beq_iff ue.id ue.id).1 refl);
      supi = ap (λ u. u.supi) new_ue;
      suci = ap (λ u. u.suci_string) new_ue;
      ran = ap (λ u. u.ran_ue_ngap_id) new_ue;
      other_ids = λ id other.
          ap (λ c. lookup id c.ues) here
          ∙ ground (
            arith,
            lookup-insert ue.id id w.fresh gnb.ues,
            bytes_beq_iff ue.id id,
            other,
            same_ues,
          );
      other_ues = update_there w.ue_at w.fresh ue;
      other_gnbs = update_there w.gnb_at g (Gnb.create_ue gnb ue.id w.fresh);
      same_registry = refl;
    }

allocate-ues : (g : GnbContext) → (Gnb.allocate_ran_ue_ngap_id g).0.ues ≡ g.ues
unfolding Gnb.allocate_ran_ue_ngap_id
allocate-ues g = refl

-- A request is answered with success only by its last step.
register_ue-ok :
    (w w' : World) (g : ℕ) (gnb : GnbContext) (made : Outcome NewUeError UeContext)
    (resp : CreateGnbUeResponse)
    → gnb.ues ≡ (w.gnb_at g).ues
    → register_ue w g gnb made ≡ (w', ok resp)
    → Created w g w' resp
register_ue-ok w w' g gnb (ok ue) resp same h =
    let e1 = ap (λ r. r.0) h in
    let e2 = ok-injective (ap (λ r. r.1) h) in rw (← e1, ← e2) (register_ue-Created w g gnb ue same)
register_ue-ok w w' g gnb (err e) resp same h = absurd (err_not_ok (ap (λ r. r.1) h))
register_ue-ok w w' g gnb panic resp same h = absurd (panic_not_ok (ap (λ r. r.1) h))
register_ue-ok w w' g gnb stuck resp same h = absurd (stuck_not_ok (ap (λ r. r.1) h))

if_refused-ok :
    (b : Bool) (w w' : World) (cause : Fault) (r : Request CreateGnbUeResponse)
    (resp : CreateGnbUeResponse)
    → (if b then refuse w 400 cause else r) ≡ (w', ok resp)
    → r ≡ (w', ok resp)
if_refused-ok true w w' cause r resp h = absurd (err_not_ok (ap (λ x. x.1) h))
if_refused-ok false w w' cause r resp h = h

module _ (lib : CryptoLibrary) where
  create_on-Created :
      (w w' : World) (g : ℕ) (body : Option CreateUeOpts) (resp : CreateGnbUeResponse)
      → with_body w body (λ req. create_on lib w g req) ≡ (w', ok resp)
      → Created w g w' resp
  create_on-Created w w' g none resp h = absurd (err_not_ok (ap (λ x. x.1) h))
  create_on-Created w w' g (some req) resp h =
      let h1 = if_refused-ok (is_empty req.supi) w w' supi_missing _ resp h in
      let h2 = if_refused-ok (is_empty req.k) w w' k_missing _ resp h1 in
      let h3 = if_refused-ok (is_empty req.opc) w w' opc_missing _ resp h2 in
      register_ue-ok w w' g _ _ resp (allocate-ues (w.gnb_at g)) h3

  found_gnb-Created :
      (w w' : World) (m : Outcome StoreError ℕ) (body : Option CreateUeOpts)
      (resp : CreateGnbUeResponse)
      → with_gnb w m (λ g. with_body w body (λ req. create_on lib w g req)) ≡ (w', ok resp)
      → (g : ℕ) × (m ≡ ok g) × Created w g w' resp
  found_gnb-Created w w' (ok g) body resp h = (g, refl, create_on-Created w w' g body resp h)
  found_gnb-Created w w' (err e) body resp h = absurd (err_not_ok (ap (λ x. x.1) h))
  found_gnb-Created w w' panic body resp h = absurd (panic_not_ok (ap (λ x. x.1) h))
  found_gnb-Created w w' stuck body resp h = absurd (stuck_not_ok (ap (λ x. x.1) h))

  -- A request that creates a 5G UE and succeeds has put one on the gNB that its path names, at a new
  -- address, under the id that the answer names, with the answer's SUPI, SUCI and identity; every
  -- other id of the gNB, every other UE and gNB and the registry of gNBs are as before.
  pub create_gnb_ue-Created :
      (w w' : World) (gnb_id : GoString) (body : Option CreateUeOpts) (resp : CreateGnbUeResponse)
      → create_gnb_ue lib w gnb_id body ≡ (w', ok resp)
      → (g : ℕ) × (Registry.get_gnb w gnb_id ≡ ok g) × Created w g w' resp
  unfolding create_gnb_ue
  create_gnb_ue-Created w w' gnb_id body resp h =
      found_gnb-Created w w' (Registry.get_gnb w gnb_id) body resp h
