-- ===== src/Store/Registry.antt =====
-- internal/store/store.go, and the constructors of gnb_context.go and enb_context.go. Each method
-- holds the store's lock for its whole map access, so it is one step.
use gpp_server.Common.{ℕ, suc, ◌+◌, ◌%◌, List, [], Option, none, some, Outcome, ok, err}
use gpp_server.Common.Text.{GoString, format_int}
use gpp_server.Common.Maps.{bytes_key, lookup, insert, delete}
use gpp_server.Store.Contexts.{World, GnbContext, EnbContext, SliceConfig, update}

abbrev pub u64 : ℕ → ℕ
u64 n = n % 18446744073709551616

-- The two "not found" errors.
pub data StoreError : Type 0 where
  gnb_not_found enb_not_found : GoString → StoreError

-- The arguments of `CreateGNB` and `CreateENB`.
pub record GnbConfig : Type 0 where
  pub mcc : GoString
  pub mnc : GoString
  pub tac : GoString
  pub gnb_id : GoString
  pub gnb_id_bit_length : ℕ
  pub name : GoString
  pub sst : ℕ
  pub sd : GoString
  pub slices : List SliceConfig

pub record EnbConfig : Type 0 where
  pub mcc : GoString
  pub mnc : GoString
  pub tac : GoString
  pub enb_id : GoString
  pub enb_id_bit_length : ℕ
  pub name : GoString

unfoldable pub new_gnb_context : GoString → GnbConfig → GnbContext
new_gnb_context id c = record {
  id = id;
  mcc = c.mcc;
  mnc = c.mnc;
  sst = c.sst;
  sd = c.sd;
  tac = c.tac;
  gnb_id = c.gnb_id;
  gnb_id_bit_length = c.gnb_id_bit_length;
  name = c.name;
  n3_addr = [];
  slices = c.slices;
  ues = [];
  next_ran_ue_id = 0;
}

unfoldable pub new_enb_context : GoString → EnbConfig → EnbContext
new_enb_context id c = record {
  id = id;
  mcc = c.mcc;
  mnc = c.mnc;
  tac = c.tac;
  enb_id = c.enb_id;
  enb_id_bit_length = c.enb_id_bit_length;
  name = c.name;
  n3_addr = [];
  ues = [];
  next_enb_ue_id = 0;
}

-- `nextID.Add(1)` gives the number of the new id. The result is the new context's address.
unfoldable pub create_gnb : World → GnbConfig → World × ℕ
create_gnb w c =
    let n = u64 (w.next_id + 1) in
    let id = format_int n in
    (
      record w {
        next_id = n;
        gnb_at = update w.gnb_at w.fresh (new_gnb_context id c);
        gnbs = insert id w.fresh w.gnbs;
        fresh = suc w.fresh;
      },
      w.fresh,
    )

unfoldable pub get_gnb : World → GoString → Outcome StoreError ℕ
get_gnb w id = elim (lookup id w.gnbs) [ some gnb ↦ ok gnb | none ↦ err (gnb_not_found id) ]

unfoldable pub delete_gnb : World → GoString → World × Option StoreError
delete_gnb w id = elim (lookup id w.gnbs) [
  | some gnb ↦ (record w { gnbs = delete id w.gnbs }, none)
  | none ↦ (w, some (gnb_not_found id))
]

unfoldable pub create_enb : World → EnbConfig → World × ℕ
create_enb w c =
    let n = u64 (w.next_id + 1) in
    let id = format_int n in
    (
      record w {
        next_id = n;
        enb_at = update w.enb_at w.fresh (new_enb_context id c);
        enbs = insert id w.fresh w.enbs;
        fresh = suc w.fresh;
      },
      w.fresh,
    )

unfoldable pub get_enb : World → GoString → Outcome StoreError ℕ
get_enb w id = elim (lookup id w.enbs) [ some enb ↦ ok enb | none ↦ err (enb_not_found id) ]

unfoldable pub delete_enb : World → GoString → World × Option StoreError
delete_enb w id = elim (lookup id w.enbs) [
  | some enb ↦ (record w { enbs = delete id w.enbs }, none)
  | none ↦ (w, some (enb_not_found id))
]
