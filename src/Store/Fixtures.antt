-- ===== src/Store/Fixtures.antt =====
-- UEs with nothing set, as test data.
use gpp_server.Common.{[], false, none}
use gpp_server.Common.Text.{GoString}
use gpp_server.Store.Contexts.{UeContext}
use gpp_server.Store.Enb
use gpp_server.Store.Enb.{zero_key}

abbrev pub plain_ue : GoString → UeContext
plain_ue id = record {
  id = id;
  supi = [];
  msin = [];
  mcc = [];
  mnc = [];
  routing_indicator = [];
  k = [];
  opc = [];
  amf = [];
  sqn = [];
  protection_scheme = [];
  public_key_id = [];
  public_key_hex = [];
  suci = [];
  suci_string = [];
  ran_ue_ngap_id = 1;
  amf_ue_ngap_id = 0;
  ue_security_capability = [];
  ciphering_alg = 0;
  integrity_alg = 0;
  knas_enc = zero_key;
  knas_int = zero_key;
  kamf = [];
  ng_ksi = 0;
  ul_count = 0;
  dl_count = 0;
  security_active = false;
  last_uplink_nas = [];
  rand = [];
  autn = [];
  dnn = [];
  pdu_session_id = 1;
  pdu_session_type = 1;
  sst = 1;
  sd = [];
  pdu_sessions = [];
  guti = none;
  imeisv = [];
}

abbrev pub eps_opts : Enb.CreateUeEpsOpts
eps_opts = record { imsi = []; imeisv = []; k = []; opc = []; amf = []; sqn = [] }
