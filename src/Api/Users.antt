-- ===== src/Api/Users.antt =====
-- internal/api/gnb_ue_handlers.go, gnb_ue_lifecycle_handlers.go and `MigrateGNBUE` of
-- gnb_handover_handlers.go: the requests that create, change, delete and move a 5G UE. A body that is
-- not JSON of the request's form is `none`. `CreateUeOpts` has the fields of `CreateGNBUERequest`.
use gpp_server.Common.{ℕ, suc, Bool, true, false, Option, none, some}
use gpp_server.Common.{Outcome, ok, err, panic, stuck, length, if◌then◌else◌}
use gpp_server.Common.Text.{GoString, format_int}
use gpp_server.Store.Contexts.{World, GnbContext, UeContext, update}
use gpp_server.Store.Pointers.{or_keep}
use gpp_server.Store.Registry
use gpp_server.Store.Registry.{StoreError}
use gpp_server.Store.Gnb
use gpp_server.Identity.Suci.{CryptoLibrary}
use gpp_server.Identity.NewUe.{CreateUeOpts, NewUeError, is_empty, new_ue_context}
use gpp_server.Api.Types.{
  StatusError, Fault, gnb_not_found, ue_not_found, bad_body, supi_missing, k_missing, opc_missing,
  context_failed,
}
use gpp_server.Api.Dispatch.{status_error}

-- What a request does to the store, and its answer.
abbrev pub Request : Type 0 → Type 0
Request A = World × Outcome StatusError A

abbrev pub refuse {ℓ} : {A : Type ℓ} → World → ℕ → Fault → World × Outcome StatusError A
refuse w status cause = (w, err (status_error status cause))

-- `h.Store.GetGNB(gnbID)`, whose error is status 404.
abbrev pub with_gnb : {A : Type 0} → World → Outcome StoreError ℕ → (ℕ → Request A) → Request A
with_gnb w (ok g) f = f g
with_gnb w (err e) f = refuse w 404 gnb_not_found
with_gnb w panic f = (w, panic)
with_gnb w stuck f = (w, stuck)

-- `gnb.GetUE(ueID)`, whose error is status 404.
abbrev pub with_ue : {A : Type 0} → World → Option ℕ → (ℕ → Request A) → Request A
with_ue w none f = refuse w 404 ue_not_found
with_ue w (some u) f = f u

abbrev pub with_body : {A B : Type 0} → World → Option B → (B → Request A) → Request A
with_body w none f = refuse w 400 bad_body
with_body w (some req) f = f req

pub record CreateGnbUeResponse : Type 0 where
  pub ue_id : GoString
  pub supi : GoString
  pub suci : GoString
  pub ran_ue_ngap_id : ℕ

-- The new UE takes the next address.
abbrev pub register_ue :
    World → ℕ → GnbContext → Outcome NewUeError UeContext → Request CreateGnbUeResponse
register_ue w g gnb (ok ue) = (
  record w {
    ue_at = update w.ue_at w.fresh ue;
    gnb_at = update w.gnb_at g (Gnb.create_ue gnb ue.id w.fresh);
    fresh = suc w.fresh;
  },
  ok (record {
    ue_id = ue.id;
    supi = ue.supi;
    suci = ue.suci_string;
    ran_ue_ngap_id = ue.ran_ue_ngap_id;
  }),
)
register_ue w g gnb (err e) =
    refuse (record w { gnb_at = update w.gnb_at g gnb }) 400 context_failed
register_ue w g gnb panic = (record w { gnb_at = update w.gnb_at g gnb }, panic)
register_ue w g gnb stuck = (record w { gnb_at = update w.gnb_at g gnb }, stuck)

module _ (lib : CryptoLibrary) where
  -- The identity is allocated before the context is made, and stays allocated where that fails.
  abbrev pub allocate_and_register : World → ℕ → CreateUeOpts → Request CreateGnbUeResponse
  allocate_and_register w g req =
      let (gnb, n) = Gnb.allocate_ran_ue_ngap_id (w.gnb_at g) in
      register_ue w g gnb (new_ue_context lib (format_int n) n (length (gnb.mnc)) req)

  abbrev pub create_on : World → ℕ → CreateUeOpts → Request CreateGnbUeResponse
  create_on w g req =
      if is_empty req.supi
      then refuse w 400 supi_missing
      else if is_empty req.k
      then refuse w 400 k_missing
      else if is_empty req.opc
      then refuse w 400 opc_missing
      else allocate_and_register w g req

  unfoldable pub create_gnb_ue :
      World → GoString → Option CreateUeOpts → Request CreateGnbUeResponse
  create_gnb_ue w gnb_id body =
      with_gnb w (Registry.get_gnb w gnb_id) (λ g. with_body w body (λ req. create_on w g req))

pub record PatchGnbUeRequest : Type 0 where
  pub k : Option GoString
  pub opc : Option GoString
  pub amf : Option GoString
  pub sqn : Option GoString
  pub amf_ue_ngap_id : Option ℕ
  pub dnn : Option GoString
  pub sst : Option ℕ
  pub sd : Option GoString
  pub imeisv : Option GoString

unfoldable pub patch_ue : PatchGnbUeRequest → UeContext → UeContext
patch_ue req ue = record ue {
  k = or_keep req.k ue.k;
  opc = or_keep req.opc ue.opc;
  amf = or_keep req.amf ue.amf;
  sqn = or_keep req.sqn ue.sqn;
  amf_ue_ngap_id = or_keep req.amf_ue_ngap_id ue.amf_ue_ngap_id;
  dnn = or_keep req.dnn ue.dnn;
  sst = or_keep req.sst ue.sst;
  sd = or_keep req.sd ue.sd;
  imeisv = or_keep req.imeisv ue.imeisv;
}

unfoldable pub patch_gnb_ue :
    World → GoString → GoString → Option PatchGnbUeRequest → Request (Unit {0})
patch_gnb_ue w gnb_id ue_id body = with_gnb w (Registry.get_gnb w gnb_id) (λ g.
    with_ue w (Gnb.get_ue (w.gnb_at g) ue_id) (λ u.
      with_body w body
        (λ req. (record w { ue_at = update w.ue_at u (patch_ue req (w.ue_at u)) }, ok tt))))

-- The answer to a deletion: whether there was such a UE.
abbrev pub deleted : World → ℕ → GnbContext × Bool → Request (Unit {0})
deleted w g (gnb, true) = (record w { gnb_at = update w.gnb_at g gnb }, ok tt)
deleted w g (gnb, false) = refuse w 404 ue_not_found

unfoldable pub delete_gnb_ue : World → GoString → GoString → Request (Unit {0})
delete_gnb_ue w gnb_id ue_id =
    with_gnb w (Registry.get_gnb w gnb_id) (λ g. deleted w g (Gnb.delete_ue (w.gnb_at g) ue_id))

pub record MigrateGnbUeRequest : Type 0 where
  pub target_gnb_id : GoString
  pub ran_ue_ngap_id : Option ℕ
  pub amf_ue_ngap_id : Option ℕ

pub record MigrateGnbUeResponse : Type 0 where
  pub ue_id : GoString
  pub gnb_id : GoString
  pub ran_ue_ngap_id : ℕ
  pub amf_ue_ngap_id : ℕ

abbrev pub migrated : World → ℕ → MigrateGnbUeRequest → Request MigrateGnbUeResponse
migrated w u req =
    let ue = w.ue_at u in
    (
      w,
      ok (record {
        ue_id = ue.id;
        gnb_id = req.target_gnb_id;
        ran_ue_ngap_id = ue.ran_ue_ngap_id;
        amf_ue_ngap_id = ue.amf_ue_ngap_id;
      }),
    )

unfoldable pub migrate_gnb_ue :
    World → GoString → GoString → Option MigrateGnbUeRequest → Request MigrateGnbUeResponse
migrate_gnb_ue w gnb_id ue_id body = with_gnb w (Registry.get_gnb w gnb_id) (λ source.
    with_ue w (Gnb.get_ue (w.gnb_at source) ue_id) (λ u. with_body w body (λ req.
      with_gnb w (Registry.get_gnb w (req.target_gnb_id)) (λ target.
        migrated (Gnb.migrate_ue w source target u (req.ran_ue_ngap_id) (req.amf_ue_ngap_id)) u
          req))))
