-- ===== src/Store/Migration.antt =====
-- internal/store: what `MigrateUE` does to the two base stations and to the UE.
use gpp_server.Common.{ℕ, ◌≡◌, ◌≢◌, arith, Option, none, some, ◌&&◌, ◌==◌}
use gpp_server.Common.{if◌then◌else◌}
use gpp_server.Common.Text.{GoString}
use gpp_server.Common.Maps.{bytes_key, bytes_beq, bytes_beq_iff, lookup-insert, lookup-delete}
use gpp_server.Store.Contexts.{World, GnbContext, EnbContext, update}
use gpp_server.Store.Gnb
use gpp_server.Store.Enb

gnb_delete_ue-get_ue :
    (g : GnbContext) (id j : GoString)
    → Gnb.get_ue (Gnb.delete_ue g id).0 j ≡ (if bytes_beq id j then none else Gnb.get_ue g j)
unfolding Gnb.get_ue Gnb.delete_ue
gnb_delete_ue-get_ue g id j = ground (arith, lookup-delete id j g.ues, bytes_beq_iff id j)

gnb_create_ue-get_ue :
    (g : GnbContext) (id j : GoString) (ue : ℕ)
    → Gnb.get_ue (Gnb.create_ue g id ue) j ≡ (if bytes_beq id j then some ue else Gnb.get_ue g j)
unfolding Gnb.get_ue Gnb.create_ue
gnb_create_ue-get_ue g id j ue = ground (arith, lookup-insert id j ue g.ues)

-- After a UE is migrated between two gNBs, which may be one, exactly the registrations under its
-- id have changed: at the target the id stands for that UE, at another source it stands for
-- nothing, and every other gNB and every other id is as before.
pub gnb_migrate_ue-get_ue :
    (w : World) (source target ue : ℕ) (ran amf : Option ℕ) (g : ℕ) (j : GoString)
    → let id = (w.ue_at ue).id in
      Gnb.get_ue ((Gnb.migrate_ue w source target ue ran amf).gnb_at g) j ≡ (
        if bytes_beq id j && target == g
        then some ue
        else if bytes_beq id j && source == g
        then none
        else Gnb.get_ue (w.gnb_at g) j)
unfolding Gnb.migrate_ue update
gnb_migrate_ue-get_ue w source target ue ran amf g j =
    let id = (w.ue_at ue).id in
    let without = (Gnb.delete_ue (w.gnb_at source) id).0 in
    ground (
      arith,
      gnb_create_ue-get_ue (update w.gnb_at source without target) id j ue,
      gnb_delete_ue-get_ue (w.gnb_at source) id j,
    )

-- UE ids are made by a counter of each gNB, so two gNBs use the same ones. If the target has
-- another UE under the id of the migrated one, and under no other id, then after the migration it
-- is registered at the target under no id at all.
pub gnb_migrate_ue_evicts :
    (w : World) (source target ue other : ℕ) (ran amf : Option ℕ)
    → other ≢ ue
    → Gnb.get_ue (w.gnb_at target) (w.ue_at ue).id ≡ some other
    → ((j : GoString) → Gnb.get_ue (w.gnb_at target) j ≡ some other → j ≡ (w.ue_at ue).id)
    → (j : GoString)
    → Gnb.get_ue ((Gnb.migrate_ue w source target ue ran amf).gnb_at target) j ≢ some other
gnb_migrate_ue_evicts w source target ue other ran amf differ had only j = ground (
  arith,
  gnb_migrate_ue-get_ue w source target ue ran amf target j,
  bytes_beq_iff (w.ue_at ue).id j,
  only j,
)

enb_delete_ue-get_ue :
    (e : EnbContext) (id j : GoString)
    → Enb.get_ue (Enb.delete_ue e id).0 j ≡ (if bytes_beq id j then none else Enb.get_ue e j)
unfolding Enb.get_ue Enb.delete_ue
enb_delete_ue-get_ue e id j = ground (arith, lookup-delete id j e.ues, bytes_beq_iff id j)

enb_create_ue-get_ue :
    (e : EnbContext) (id j : GoString) (ue : ℕ)
    → Enb.get_ue (Enb.create_ue e id ue) j ≡ (if bytes_beq id j then some ue else Enb.get_ue e j)
unfolding Enb.get_ue Enb.create_ue
enb_create_ue-get_ue e id j ue = ground (arith, lookup-insert id j ue e.ues)

-- The same for two eNBs.
pub enb_migrate_ue-get_ue :
    (w : World) (source target ue : ℕ) (mme enb : Option ℕ) (e : ℕ) (j : GoString)
    → let id = (w.eps_ue_at ue).id in
      Enb.get_ue ((Enb.migrate_ue w source target ue mme enb).enb_at e) j ≡ (
        if bytes_beq id j && target == e
        then some ue
        else if bytes_beq id j && source == e
        then none
        else Enb.get_ue (w.enb_at e) j)
unfolding Enb.migrate_ue update
enb_migrate_ue-get_ue w source target ue mme enb e j =
    let id = (w.eps_ue_at ue).id in
    let without = (Enb.delete_ue (w.enb_at source) id).0 in
    ground (
      arith,
      enb_create_ue-get_ue (update w.enb_at source without target) id j ue,
      enb_delete_ue-get_ue (w.enb_at source) id j,
    )
