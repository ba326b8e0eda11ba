-- ===== src/Gtpu/Decode.antt =====
-- internal/gtpu/message.go: `Decode` and the functions below it. Every index and slice expression
-- is checked, and a failed check is a panic.
use gpp_server.Common.{ℕ, zero, suc, ◌+◌, ◌-◌, ◌*◌, ◌/◌, bit_and, true, false, not, ◌||◌}
use gpp_server.Common.{Option, none, some, List, [], length, ltb, leb, ◌==◌, if◌then◌else◌}
use gpp_server.Common.{Outcome, ok, err, stuck, ◌>>=◌}
use gpp_server.Common.Bytes.{index, slice, be_uint16, be_uint32}
use gpp_server.Common.Text.{GoString}
use gpp_server.Gtpu.Addr.{Addr, addr_from_slice, unmap}
use gpp_server.Gtpu.Message.{Message, PduSessionContainer, msg_gpdu, ext_pdu_session_container}
use gpp_server.Gtpu.Message.{pdu_type_dl, ie_recovery, ie_teid_data_i, ie_peer_address}

pub data DecodeError : Type 0 where
  too_short : ℕ → DecodeError
  bad_version : ℕ → DecodeError
  truncated : ℕ → DecodeError

unfoldable pub decode_pdu_session_container :
    List ℕ → Outcome DecodeError (Option PduSessionContainer)
decode_pdu_session_container b = if ltb (length b) 2 then ok none else do
  b0 ← index b 0
  b1 ← index b 1
  let pdu_type = b0 / 16
  ok (
      some (record {
        pdu_type = pdu_type;
        qfi = bit_and b1 0x3f;
        rqi = if pdu_type == pdu_type_dl then some (not (bit_and b1 0x40 == 0)) else none;
      }))

-- The `for nextExt != 0` loop; each round passes `extLen` octets, four at least.
unfoldable pub ext_loop :
    ℕ
    → List ℕ
    → ℕ
    → ℕ
    → Option PduSessionContainer
    → Outcome DecodeError (Option PduSessionContainer × ℕ)
ext_loop zero b next_ext start session = stuck
ext_loop (suc fuel) b next_ext start session =
    if next_ext == 0
    then ok (session, start)
    else if leb (length b) start
    then ok (session, start)
    else do
      units ← index b start
      let ext_len = units * 4
      if ext_len == 0 || ltb (length b) (start + ext_len) then ok (session, start) else do
        session' ←
            if next_ext == ext_pdu_session_container
            then slice b (start + 1) (start + ext_len - 1) >>= decode_pdu_session_container
            else ok session
        next_ext' ← index b (start + ext_len - 1)
        ext_loop fuel b next_ext' (start + ext_len) session'

abbrev pub tv_value_length : ℕ → Option ℕ
tv_value_length t =
    if t == ie_recovery then some 1 else if t == ie_teid_data_i then some 4 else none

abbrev pub message : ℕ → ℕ → Message
message type teid = record {
  type = type;
  teid = teid;
  seq = 0;
  has_seq = false;
  payload = [];
  pdu_session = none;
  recovery = none;
  teid_data_i = none;
  peer_address = [];
}

-- The payload runs to the length field's end, or to the buffer's if that comes first.
abbrev pub payload_end : List ℕ → ℕ → ℕ
payload_end b len = if ltb (length b) (8 + len) then length b else 8 + len

-- The optional part of the header: the message with its sequence number and container, and where
-- the payload starts.
unfoldable pub decode_optional : List ℕ → ℕ → Message → Outcome DecodeError (Message × ℕ)
decode_optional b flags m =
    if bit_and flags 0x07 == 0
    then ok (m, 8)
    else if ltb (length b) 12
    then err (truncated (length b))
    else do
      m1 ← if bit_and flags 0x02 == 0 then ok m else do
        octets ← slice b 8 10
        seq ← be_uint16 octets
        ok (record m { seq = seq; has_seq = true })
      next_ext ← index b 11
      found ← ext_loop (suc (length b)) b next_ext 12 m1.pdu_session
      ok (record m1 { pdu_session = found.0 }, found.1)

-- One element of `decodeIEs`: its value and the position behind it, or `none` where the loop
-- returns.
unfoldable pub read_ie : List ℕ → ℕ → ℕ → Outcome DecodeError (Option (List ℕ × ℕ))
read_ie b i ie_type =
    if bit_and ie_type 0x80 == 0
    then elim (tv_value_length ie_type) [
      | none ↦ ok none
      | some n ↦
          if ltb (length b) (i + 1 + n)
          then ok none
          else do value ← slice b (i + 1) (i + 1 + n); ok (some (value, i + (1 + n)))
    ]
    else if ltb (length b) (i + 3)
    then ok none
    else do
      octets ← slice b (i + 1) (i + 3)
      n ← be_uint16 octets
      if ltb (length b) (i + 3 + n)
          then ok none
          else do value ← slice b (i + 3) (i + 3 + n); ok (some (value, i + (3 + n)))

module _ (addr_string : Addr → GoString) where
  abbrev pub peer_text : Option Addr → GoString → GoString
  peer_text none old = old
  peer_text (some a) old = addr_string (unmap a)

  unfoldable pub set_ie : Message → ℕ → List ℕ → Outcome DecodeError Message
  set_ie m ie_type value =
      if ie_type == ie_recovery
      then (index value 0 >>= λ restart_counter. ok (record m { recovery = some restart_counter }))
      else if ie_type == ie_teid_data_i
      then (be_uint32 value >>= λ teid. ok (record m { teid_data_i = some teid }))
      else if ie_type == ie_peer_address
      then ok (record m { peer_address = peer_text (addr_from_slice value) m.peer_address })
      else ok m

  -- The `for i < len(b)` loop of `decodeIEs`; each round passes two octets at least.
  unfoldable pub ie_loop : ℕ → List ℕ → ℕ → Message → Outcome DecodeError Message
  ie_loop zero b i m = stuck
  ie_loop (suc fuel) b i m = if leb (length b) i then ok m else do
    ie_type ← index b i
    found ← read_ie b i ie_type
    elim found [
      | none ↦ ok m
      | some (value, i') ↦ set_ie m ie_type value >>= λ m'. ie_loop fuel b i' m'
    ]

  unfoldable pub decode_ies : Message → List ℕ → Outcome DecodeError Message
  decode_ies m b = ie_loop (suc (length b)) b 0 m

  unfoldable pub decode : List ℕ → Outcome DecodeError Message
  decode b = if ltb (length b) 8 then err (too_short (length b)) else do
    flags ← index b 0
    if not (flags / 32 == 1) then err (bad_version (flags / 32)) else do
      type ← index b 1
      teid_octets ← slice b 4 8
      teid ← be_uint32 teid_octets
      len_octets ← slice b 2 4
      len ← be_uint16 len_octets
      (m, start) ← decode_optional b flags (message type teid)
      let stop = payload_end b len
      payload ← slice b (if ltb stop start then stop else start) stop
      let m' = record m { payload = payload }
      if m'.type == msg_gpdu then ok m' else decode_ies m' payload
