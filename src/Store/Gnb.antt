-- ===== src/Store/Gnb.antt =====
-- internal/store/gnb_context.go and gnb_ue_context.go: the UEs of a gNB. `migrate_ue` works on
-- `World`, since its source and its target may be one gNB. Each lock is held for a whole map
-- access, which is one step.
use gpp_server.Common.{ℕ, ◌+◌, Option, Bool, true, false}
use gpp_server.Common.{if◌then◌else◌}
use gpp_server.Common.Text.{GoString}
use gpp_server.Common.Maps.{bytes_key, lookup, insert, delete}
use gpp_server.Store.Counts.{next_ul_count, next_dl_count}
use gpp_server.Store.Contexts.{World, GnbContext, UeContext, update}
use gpp_server.Store.Registry.{u64}
use gpp_server.Store.Pointers.{or_keep, is_some}

unfoldable pub allocate_ran_ue_ngap_id : GnbContext → GnbContext × ℕ
allocate_ran_ue_ngap_id g =
    let n = u64 (g.next_ran_ue_id + 1) in (record g { next_ran_ue_id = n }, n)

-- The UE's id and its address.
unfoldable pub create_ue : GnbContext → GoString → ℕ → GnbContext
create_ue g id ue = record g { ues = insert id ue g.ues }

unfoldable pub get_ue : GnbContext → GoString → Option ℕ
get_ue g id = lookup id g.ues

unfoldable pub delete_ue : GnbContext → GoString → GnbContext × Bool
delete_ue g id =
    if is_some (lookup id g.ues) then (record g { ues = delete id g.ues }, true) else (g, false)

-- `source.MigrateUE(target, ue, ranUeNgapID, amfUeNgapID)`.
unfoldable pub migrate_ue : World → ℕ → ℕ → ℕ → Option ℕ → Option ℕ → World
unfolding update create_ue delete_ue
migrate_ue w source target ue ran amf =
    let id = (w.ue_at ue).id in
    let gnbs1 = update w.gnb_at source (delete_ue (w.gnb_at source) id).0 in
    let u = w.ue_at ue in
    let u1 = record u {
      ran_ue_ngap_id = or_keep ran u.ran_ue_ngap_id;
      amf_ue_ngap_id = or_keep amf u.amf_ue_ngap_id;
    } in
    record w {
      gnb_at = update gnbs1 target (create_ue (gnbs1 target) id ue);
      ue_at = update w.ue_at ue u1;
    }

unfoldable pub next_ul : UeContext → UeContext × ℕ
next_ul u = (record u { ul_count = next_ul_count u.ul_count }, u.ul_count)

unfoldable pub next_dl : UeContext → ℕ → UeContext × ℕ
next_dl u sequence_number =
    let c = next_dl_count u.dl_count sequence_number in (record u { dl_count = c }, c)
