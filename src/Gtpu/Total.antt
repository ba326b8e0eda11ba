-- ===== src/Gtpu/Total.antt =====
-- internal/gtpu/message.go: decoding ends, with no panic, on every input.
use gpp_server.Common.{ℕ, zero, suc, ◌+◌, ◌-◌, ◌≤◌, ◌<◌, ◌≡◌, arith, bit_and}
use gpp_server.Common.{false, Option, none, some, List, length, ◌==◌}
use gpp_server.Common.{ok, Returns}
use gpp_server.Common.Bytes.{sub_list, uint16_of, length-sub_list}
use gpp_server.Common.Text.{GoString}
use gpp_server.Gtpu.Addr.{Addr}
use gpp_server.Gtpu.Message.{Message, PduSessionContainer, ie_recovery, ie_teid_data_i}
use gpp_server.Gtpu.Decode.{decode_pdu_session_container, ext_loop, set_ie, read_ie, ie_loop}
use gpp_server.Gtpu.Decode.{tv_value_length, decode_ies, decode_optional, decode}

decode_pdu_session_container-Returns : (b : List ℕ) → Returns (decode_pdu_session_container b)
unfolding decode_pdu_session_container
decode_pdu_session_container-Returns b = ground arith

ext_loop-Returns :
    (fuel : ℕ) (b : List ℕ) (next_ext start : ℕ) (session : Option PduSessionContainer)
    → length b - start < fuel
    → Returns (ext_loop fuel b next_ext start session)
unfolding ext_loop
ext_loop-Returns zero b next_ext start session h = absurd (omega arith)
ext_loop-Returns (suc fuel) b next_ext start session h =
    grind (arith, ext_loop-Returns fuel b, decode_pdu_session_container-Returns)

tv_of_high_bit : (t : ℕ) → (bit_and t 0x80 == 0) ≡ false → tv_value_length t ≡ none
tv_of_high_bit t h = ground arith

-- What `setIE` relies on: the elements that it reads without a check have their fixed length.
IsReadable : ℕ → ℕ → Type 0
IsReadable t n = (t ≡ ie_recovery → n ≡ 1) × (t ≡ ie_teid_data_i → n ≡ 4)

read_ie-Returns : (b : List ℕ) (i t : ℕ) → i < length b → Returns (read_ie b i t)
unfolding read_ie
read_ie-Returns b i t h = ground (arith, length-sub_list b (i + 1) (i + 3))

read_ie_fits :
    (b : List ℕ) (i t : ℕ) (r : List ℕ × ℕ)
    → read_ie b i t ≡ ok (some r)
    → (i < r.1) × (r.1 ≤ length b) × IsReadable t (length r.0)
unfolding read_ie IsReadable
read_ie_fits b i t r h = ground (
  arith,
  length-sub_list b (i + 1) (i + 1 + 1),
  length-sub_list b (i + 1) (i + 1 + 4),
  length-sub_list b (i + 3) (i + 3 + uint16_of (sub_list b (i + 1) (i + 3))),
)

module _ (addr_string : Addr → GoString) where
  set_ie-Returns :
      (m : Message) (t : ℕ) (v : List ℕ)
      → IsReadable t (length v)
      → Returns (set_ie addr_string m t v)
  unfolding set_ie IsReadable
  set_ie-Returns m t v e = ground arith

  ie_loop-Returns :
      (fuel : ℕ) (b : List ℕ) (i : ℕ) (m : Message)
      → length b - i < fuel
      → Returns (ie_loop addr_string fuel b i m)
  unfolding ie_loop
  ie_loop-Returns zero b i m h = absurd (omega arith)
  ie_loop-Returns (suc fuel) b i m h =
      grind (arith, ie_loop-Returns fuel b, set_ie-Returns, read_ie-Returns, read_ie_fits)

  decode_ies-Returns : (m : Message) (b : List ℕ) → Returns (decode_ies addr_string m b)
  unfolding decode_ies
  decode_ies-Returns m b = ie_loop-Returns (suc (length b)) b 0 m (omega arith)

decode_optional-Returns :
    (b : List ℕ) (flags : ℕ) (m : Message) → 8 ≤ length b → Returns (decode_optional b flags m)
unfolding decode_optional
decode_optional-Returns b flags m h = grind (arith, ext_loop-Returns, length-sub_list)

-- Decoding any octet sequence at all ends with a message or an error value: no index or slice
-- expression is out of range, and no loop goes on for ever.
pub decode-Returns : (addr_string : Addr → GoString) (b : List ℕ) → Returns (decode addr_string b)
unfolding decode
decode-Returns addr_string b =
    grind (arith, decode_optional-Returns, decode_ies-Returns, length-sub_list)
