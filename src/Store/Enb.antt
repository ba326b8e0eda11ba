-- ===== src/Store/Enb.antt =====
-- internal/store/enb_context.go and enb_ue_context.go: the UEs of an eNB, as in `Store.Gnb`.
use gpp_server.Common.{ℕ, ◌+◌, List, [], Option, none, Bool, true, false}
use gpp_server.Common.{◌∷◌, if◌then◌else◌}
use gpp_server.Common.Bytes.{u32}
use gpp_server.Common.Text.{GoString}
use gpp_server.Common.Maps.{bytes_key, lookup, insert, delete}
use gpp_server.Store.Counts.{next_ul_count, next_dl_count}
use gpp_server.Store.Contexts.{World, EnbContext, UeEpsContext, update}
use gpp_server.Store.Pointers.{or_keep, is_some}

unfoldable pub allocate_enb_ue_s1ap_id : EnbContext → EnbContext × ℕ
allocate_enb_ue_s1ap_id e =
    let n = u32 (e.next_enb_ue_id + 1) in (record e { next_enb_ue_id = n }, n)

unfoldable pub create_ue : EnbContext → GoString → ℕ → EnbContext
create_ue e id ue = record e { ues = insert id ue e.ues }

unfoldable pub get_ue : EnbContext → GoString → Option ℕ
get_ue e id = lookup id e.ues

unfoldable pub delete_ue : EnbContext → GoString → EnbContext × Bool
delete_ue e id =
    if is_some (lookup id e.ues) then (record e { ues = delete id e.ues }, true) else (e, false)

-- `source.MigrateUE(target, ue, mmeUES1APID, enbUES1APID)`.
unfoldable pub migrate_ue : World → ℕ → ℕ → ℕ → Option ℕ → Option ℕ → World
unfolding update create_ue delete_ue
migrate_ue w source target ue mme enb =
    let id = (w.eps_ue_at ue).id in
    let enbs1 = update w.enb_at source (delete_ue (w.enb_at source) id).0 in
    let u = w.eps_ue_at ue in
    let u1 = record u {
      mme_ue_s1ap_id = or_keep mme u.mme_ue_s1ap_id;
      enb_ue_s1ap_id = or_keep enb u.enb_ue_s1ap_id;
    } in
    record w {
      enb_at = update enbs1 target (create_ue (enbs1 target) id ue);
      eps_ue_at = update w.eps_ue_at ue u1;
    }

unfoldable pub next_ul : UeEpsContext → UeEpsContext × ℕ
next_ul u = (record u { ul_count = next_ul_count u.ul_count }, u.ul_count)

unfoldable pub next_dl : UeEpsContext → ℕ → UeEpsContext × ℕ
next_dl u sequence_number =
    let c = next_dl_count u.dl_count sequence_number in (record u { dl_count = c }, c)

-- The arguments of `NewUEEPSContext`.
pub record CreateUeEpsOpts : Type 0 where
  pub imsi : GoString
  pub imeisv : GoString
  pub k : GoString
  pub opc : GoString
  pub amf : GoString
  pub sqn : GoString

-- A new array of sixteen zero octets.
abbrev pub zero_key : List ℕ
zero_key = 0 ∷ 0 ∷ 0 ∷ 0 ∷ 0 ∷ 0 ∷ 0 ∷ 0 ∷ 0 ∷ 0 ∷ 0 ∷ 0 ∷ 0 ∷ 0 ∷ 0 ∷ 0 ∷ []

unfoldable pub new_ue_eps_context : GoString → ℕ → CreateUeEpsOpts → UeEpsContext
new_ue_eps_context id enb_ue_s1ap_id o = record {
  id = id;
  imsi = o.imsi;
  imeisv = o.imeisv;
  k = o.k;
  opc = o.opc;
  amf = o.amf;
  sqn = o.sqn;
  enb_ue_s1ap_id = enb_ue_s1ap_id;
  mme_ue_s1ap_id = 0;
  ue_network_capability = none;
  rand = [];
  autn = [];
  kasme = [];
  knas_enc = zero_key;
  knas_int = zero_key;
  ciphering_alg = 0;
  integrity_alg = 0;
  ul_count = 0;
  dl_count = 0;
  security_active = false;
  last_uplink_nas = [];
  eps_bearer_id = 0;
  pti = 0;
  erab_id = 0;
  ksi = 0;
  ul_teid = 0;
  sgw_ip = [];
  dl_teid = 0;
  ue_ip = [];
  bearers = [];
  guti_mcc = [];
  guti_mnc = [];
  guti_group_id = 0;
  guti_code = 0;
  guti_m_tmsi = 0;
}
