-- ===== src/Store/Tests.antt =====
-- The theorems on internal/store at concrete inputs.
use gpp_server.Common.{ℕ, ◌+◌, ◌%◌, ◌≤◌, ◌<◌, ◌≡◌, ◌≢◌, refl, arith, none, some}
use gpp_server.Common.{List, [], ◌∷◌, ok, err, ◌⊎◌}
use gpp_server.Common.Text.{GoString, text, format_int}
use gpp_server.Common.Maps.{bytes_beq_iff, lookup, insert, bytes_key}
use gpp_server.Store.Counts.{next_dl_count, next_dl_count_least}
use gpp_server.Store.Contexts.{World}
use gpp_server.Store.Registry.{GnbConfig, EnbConfig, new_gnb_context, new_enb_context, create_gnb}
use gpp_server.Store.Registry.{get_gnb, get_enb, delete_gnb, gnb_not_found, enb_not_found}
use gpp_server.Store.Valid.{IsValid, create_gnb_fresh, delete_gnb_lem}
use gpp_server.Store.Traces.{Call, make_gnb, make_enb, drop_gnb, ids_made, Distinct}
use gpp_server.Store.Traces.{ids_made-Distinct}
use gpp_server.Store.Gnb
use gpp_server.Store.Enb
use gpp_server.Store.Enb.{new_ue_eps_context}
use gpp_server.Store.Fixtures.{plain_ue, eps_opts}
use gpp_server.Store.Migration.{gnb_migrate_ue-get_ue, gnb_migrate_ue_evicts, enb_migrate_ue-get_ue}

abbrev config : GnbConfig
config = record {
  mcc = text "001";
  mnc = text "01";
  tac = text "000001";
  gnb_id = text "000008";
  gnb_id_bit_length = 24;
  name = text "gnb";
  sst = 1;
  sd = [];
  slices = [];
}

abbrev enb_config : EnbConfig
enb_config = record {
  mcc = text "001";
  mnc = text "01";
  tac = text "0001";
  enb_id = text "00001";
  enb_id_bit_length = 20;
  name = text "enb";
}

-- `New()`, and a heap in which nothing is used yet.
abbrev start : World
start = record {
  gnbs = [];
  enbs = [];
  next_id = 0;
  gnb_at = λ p. new_gnb_context [] config;
  enb_at = λ p. new_enb_context [] enb_config;
  ue_at = λ p. plain_ue (text "1");
  eps_ue_at = λ p. new_ue_eps_context (text "1") 1 eps_opts;
  fresh = 0;
}

start-IsValid : IsValid start
start-IsValid = record { gnb_ids = tt; enb_ids = tt }

-- Two gNBs, at addresses 0 and 1, each with a UE under the id "1": those at addresses 7 and 8.
abbrev two_gnbs : World
two_gnbs = record start {
  gnb_at = λ p. Gnb.create_ue (new_gnb_context [] config) (text "1") (7 + p);
}

next_dl_count_least_example :
    (300 ≤ next_dl_count 300 5)
    × (next_dl_count 300 5 % 256 ≡ 5)
    × ((other : ℕ) → 300 ≤ other → other % 256 ≡ 5 → next_dl_count 300 5 ≤ other)
next_dl_count_least_example = next_dl_count_least 300 5 (omega arith) (omega arith)

create_gnb_fresh_example :
    let (w', gnb) = create_gnb start config in
    let id = format_int 1 in
    (get_gnb start id ≡ err (gnb_not_found id))
    × (get_enb start id ≡ err (enb_not_found id))
    × (get_gnb w' id ≡ ok gnb)
    × (w'.gnb_at gnb ≡ new_gnb_context id config)
    × ((j : GoString) → j ≢ id → get_gnb w' j ≡ get_gnb start j)
    × ((p : ℕ) → p < 0 → w'.gnb_at p ≡ start.gnb_at p)
create_gnb_fresh_example = create_gnb_fresh start start-IsValid (omega arith) config

abbrev calls : List Call
calls = make_gnb config ∷ make_enb enb_config ∷ drop_gnb (text "1") ∷ make_gnb config ∷ []

ids_made-Distinct_example : Distinct (ids_made start calls)
ids_made-Distinct_example = ids_made-Distinct calls start (omega arith)

delete_gnb_lem_example :
    let w = (create_gnb start config).0 in
    let id = text "1" in
    let (w', e) = delete_gnb w id in
    (get_gnb w' id ≡ err (gnb_not_found id))
    × ((j : GoString) → j ≢ id → get_gnb w' j ≡ get_gnb w j)
    × (w'.enbs ≡ w.enbs)
    × ((e ≡ none) × ((p : ℕ) × (get_gnb w id ≡ ok p))
        ⊎ (e ≡ some (gnb_not_found id)) × (get_gnb w id ≡ err (gnb_not_found id)) × (w' ≡ w))
delete_gnb_lem_example = delete_gnb_lem (create_gnb start config).0 (text "1")

gnb_migrate_ue-get_ue_example :
    Gnb.get_ue ((Gnb.migrate_ue two_gnbs 0 1 7 none (some 9)).gnb_at 1) (text "1") ≡ some 7
gnb_migrate_ue-get_ue_example = gnb_migrate_ue-get_ue two_gnbs 0 1 7 none (some 9) 1 (text "1")

only_one : (j : GoString) → Gnb.get_ue (two_gnbs.gnb_at 1) j ≡ some 8 → j ≡ text "1"
unfolding Gnb.get_ue Gnb.create_ue lookup insert new_gnb_context
only_one j e = ground (arith, bytes_beq_iff (text "1") j)

-- The UE at address 8 was registered at the second gNB, and is gone.
gnb_migrate_ue_evicts_example :
    Gnb.get_ue ((Gnb.migrate_ue two_gnbs 0 1 7 none none).gnb_at 1) (text "1") ≢ some 8
unfolding Gnb.get_ue Gnb.create_ue lookup insert new_gnb_context
gnb_migrate_ue_evicts_example =
    gnb_migrate_ue_evicts two_gnbs 0 1 7 8 none none (omega arith) refl only_one (text "1")

enb_migrate_ue-get_ue_example :
    Enb.get_ue
      ((Enb.migrate_ue start 0 1 7 none none).enb_at 1)
      ((new_ue_eps_context (text "1") 1 eps_opts).id)
    ≡ some 7
unfolding new_ue_eps_context
enb_migrate_ue-get_ue_example = enb_migrate_ue-get_ue start 0 1 7 none none 1 (text "1")
