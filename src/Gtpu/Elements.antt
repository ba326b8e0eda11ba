-- ===== src/Gtpu/Elements.antt =====
-- internal/gtpu/message.go: `decodeIEs` against the element format of TS 29.281 §8.1.
use gpp_server.Common.{ℕ, zero, suc, ◌+◌, ◌-◌, ◌≤◌, ◌<◌, ◌≡◌, refl, arith, bit_and, ap, sym}
use gpp_server.Common.{Option, true, some, List, [], ◌∷◌, ◌++◌, length, take, drop, ltb, ◌==◌}
use gpp_server.Common.{ok, ◌>>=◌, if◌then◌else◌, ◌∙◌, ◌⊎◌, inl, inr, length-append, length-drop}
use gpp_server.Common.{drop_add, get_or-drop, take-append, drop-append}
use gpp_server.Common.Bytes.{uint16-put, put_uint16, byte_at, uint32_of}
use gpp_server.Common.Bytes.{checked, checked_at}
use gpp_server.Common.Text.{GoString}
use native.Mathlib.Nat.{add-zero, add_comm}
use native.Mathlib.Numerals.{add-one}
use gpp_server.Gtpu.Addr.{Addr, v4, v6, unmap}
use gpp_server.Gtpu.Message.{Message}
use gpp_server.Gtpu.Decode.{tv_value_length, read_ie, set_ie, ie_loop, decode_ies}

-- An information element: its type and its value.
abbrev pub Element : Type 0
Element = ℕ × List ℕ

-- Below 0x80 the value follows its type and has the length that the type fixes; from 0x80 on a
-- 16-bit length stands between.
abbrev pub IsElement : Element → Type 0
IsElement (t, v) =
    (tv_value_length t ≡ some (length v)) ⊎ ((128 ≤ t) × (t < 256) × (length v < 65536))

pub encode_element : Element → List ℕ → List ℕ
encode_element (t, v) rest =
    if ltb t 128 then t ∷ (v ++ rest) else t ∷ (put_uint16 (length v) ++ (v ++ rest))

pub encode_elements : List Element → List ℕ
unfolding encode_element
encode_elements [] = []
encode_elements (e ∷ es) = encode_element e (encode_elements es)

abbrev pub AllElements : List Element → Type 0
AllElements [] = Unit {0}
AllElements (e ∷ es) = IsElement e × AllElements es

high_bit_table : checked (λ t. if ltb t 128 then true else bit_and t 0x80 == 128) 256 ≡ true
unfolding checked
high_bit_table = refl

high_bit : (t : ℕ) → 128 ≤ t → t < 256 → bit_and t 0x80 ≡ 128
high_bit t above inside = ground (
  arith,
  checked_at (λ (t : ℕ). if ltb t 128 then true else bit_and t 0x80 == 128) 256 t inside
      high_bit_table,
)

module _ (b : List ℕ) (i t : ℕ) (v rest : List ℕ) (inside : i ≤ length b) where
  -- The value that lies `k` octets behind position `i`.
  value_at :
      (k : ℕ)
      → drop k (drop i b) ≡ v ++ rest
      → take (i + k + length v - (i + k)) (drop (i + k) b) ≡ v
  value_at k e =
      ap (λ (n : ℕ). take n (drop (i + k) b)) n_eq
      ∙ ap (λ (s : List ℕ). take (length v) s) (drop_add i k b ∙ e)
      ∙ take-append v rest
    where
      n_eq : i + k + length v - (i + k) ≡ length v
      n_eq = omega arith

  read_ie_tv :
      tv_value_length t ≡ some (length v)
      → drop i b ≡ t ∷ (v ++ rest)
      → read_ie b i t ≡ ok (some (v, i + (1 + length v)))
  unfolding read_ie
  read_ie_tv e at_i = ground (
    arith,
    value_at 1 (ap (λ (s : List ℕ). drop 1 s) at_i),
    ap (λ (s : List ℕ). length s) at_i,
    length-append v rest,
    length-drop i b,
  )

  read_ie_tlv :
      128 ≤ t
      → t < 256
      → length v < 65536
      → drop i b ≡ t ∷ (put_uint16 (length v) ++ (v ++ rest))
      → read_ie b i t ≡ ok (some (v, i + (3 + length v)))
  unfolding read_ie
  read_ie_tlv lo hi short at_i = ground (
    arith,
    high_bit t lo hi,
    value_at 3 (ap (λ (s : List ℕ). drop 3 s) at_i),
    ap (λ (s : List ℕ). length s) at_i,
    length-append v rest,
    length-drop i b,
    drop_add i 1 b,
    ap (λ (s : List ℕ). drop 1 s) at_i,
    uint16-put (length v) short,
  )

-- Where `t` and `front` stand at position `i`, the first octet is `t` and `rest` lies behind them.
placed :
    (b front rest : List ℕ) (i j t : ℕ)
    → i ≤ length b
    → j ≡ 1 + length front
    → drop i b ≡ (t ∷ front) ++ rest
    → (i + j ≤ length b) × (byte_at b i ≡ t) × (drop (i + j) b ≡ rest)
placed b front rest i j t h n e = (room, first, behind)
  where
    room : i + j ≤ length b
    room =
        omega (
          arith,
          length-drop {0} i b,
          ap (λ (s : List ℕ). length s) e,
          length-append {0} front rest,
        )

    first : byte_at b i ≡ t
    first =
        ap (λ (k : ℕ). byte_at b k) (sym (add-zero i))
        ∙ sym (get_or-drop i 0 b 0)
        ∙ ap (λ (s : List ℕ). byte_at s 0) e

    behind : drop (i + j) b ≡ rest
    behind =
        drop_add i j b
        ∙ ap (λ (s : List ℕ). drop j s) e
        ∙ ap (λ (k : ℕ). drop k ((t ∷ front) ++ rest)) (n ∙ add_comm 1 (length front) ∙ add-one _)
        ∙ drop-append (t ∷ front) rest

-- Where an encoded element stands at `i`, it is read, and what follows it stands behind it.
element_found :
    (b : List ℕ) (i t : ℕ) (v rest : List ℕ)
    → IsElement (t, v)
    → i ≤ length b
    → drop i b ≡ encode_element (t, v) rest
    → (i' : ℕ) × (i < i')
      × (i' ≤ length b)
      × (byte_at b i ≡ t)
      × (read_ie b i t ≡ ok (some (v, i')))
      × (drop i' b ≡ rest)
unfolding encode_element
element_found b i t v rest (inl e) h d =
    let (room, first, behind) = placed b v rest i (1 + length v) t h refl shape in
    (i + (1 + length v), omega arith, room, first, read_ie_tv b i t v rest h e shape, behind)
  where
    shape : drop i b ≡ t ∷ (v ++ rest)
    shape = ground arith
element_found b i t v rest (inr (lo, hi, short)) h d =
    let (room, first, behind) =
      placed b (put_uint16 (length v) ++ v) rest i (3 + length v) t h (omega arith) shape in
    (
      i + (3 + length v),
      omega arith,
      room,
      first,
      read_ie_tlv b i t v rest h lo hi short shape,
      behind,
    )
  where
    shape : drop i b ≡ t ∷ (put_uint16 (length v) ++ (v ++ rest))
    shape = ground arith

module _ (addr_string : Addr → GoString) where
  -- The text of a Peer Address of four or sixteen octets; another length gives none.
  abbrev pub peer_address_of : List ℕ → GoString → GoString
  peer_address_of v old =
      if length v == 4
      then addr_string (v4 v)
      else if length v == 16
      then addr_string (unmap (v6 v))
      else old

  -- TS 29.281 table 8.1-1: Recovery is 14, Tunnel Endpoint Identifier Data I is 16 and GSN Address
  -- is 133. Of several elements of a type the last counts.
  abbrev pub last_recovery : Option ℕ → List Element → Option ℕ
  last_recovery old [] = old
  last_recovery old ((t, v) ∷ es) = last_recovery (if t == 14 then some (byte_at v 0) else old) es

  abbrev pub last_teid_data_i : Option ℕ → List Element → Option ℕ
  last_teid_data_i old [] = old
  last_teid_data_i old ((t, v) ∷ es) =
      last_teid_data_i (if t == 16 then some (uint32_of v) else old) es

  abbrev pub last_peer_address : GoString → List Element → GoString
  last_peer_address old [] = old
  last_peer_address old ((t, v) ∷ es) =
      last_peer_address (if t == 133 then peer_address_of v old else old) es

  -- What the elements say of a message.
  abbrev pub with_elements : Message → List Element → Message
  with_elements m es = record m {
    recovery = last_recovery m.recovery es;
    teid_data_i = last_teid_data_i m.teid_data_i es;
    peer_address = last_peer_address m.peer_address es;
  }

  set_ie_lem :
      (m : Message) (t : ℕ) (v : List ℕ)
      → IsElement (t, v)
      → set_ie addr_string m t v ≡ ok (with_elements m ((t, v) ∷ []))
  unfolding set_ie
  set_ie_lem m t v (inl e) = ground (arith, e)
  set_ie_lem m t v (inr (lo, hi, short)) = ground (arith, lo)

  ie_loop_step :
      (fuel : ℕ) (b : List ℕ) (i t i' : ℕ) (v : List ℕ) (m : Message)
      → i < length b
      → byte_at b i ≡ t
      → read_ie b i t ≡ ok (some (v, i'))
      → ie_loop addr_string (suc fuel) b i m
        ≡ (set_ie addr_string m t v >>= λ m'. ie_loop addr_string fuel b i' m')
  unfolding ie_loop
  ie_loop_step fuel b i t i' v m h e r = ground arith

  ie_loop-elements :
      (es : List Element) (fuel : ℕ) (b : List ℕ) (i : ℕ) (m : Message)
      → AllElements es
      → i ≤ length b
      → length b - i < fuel
      → drop i b ≡ encode_elements es
      → ie_loop addr_string fuel b i m ≡ ok (with_elements m es)
  unfolding encode_elements
  ie_loop-elements es zero b i m a h k e = absurd (omega arith)
  ie_loop-elements [] (suc fuel) b i m a h k e =
      unfold ie_loop in ground (arith, length-drop i b, ap (λ (s : List ℕ). length s) e)
  ie_loop-elements ((t, v) ∷ es) (suc fuel) b i m (here, later) h k e =
      let (i', ahead, inside, first, found, behind) =
        element_found b i t v (encode_elements es) here h e in
      ie_loop_step fuel b i t i' v m (omega arith) first found
      ∙ ap (λ o. o >>= λ m'. ie_loop addr_string fuel b i' m') (set_ie_lem m t v here)
      ∙ ie_loop-elements es fuel b i' _ later inside (omega arith) behind

  -- A well-formed sequence of information elements is read as what it stands for: the restart counter
  -- of the message is that of the last Recovery, its TEID Data I and its peer address are those of
  -- the last elements of these types, a field without an element stays as it was, and so do all
  -- other fields, whatever other elements there are.
  pub decode_ies-encode_elements :
      (m : Message) (es : List Element)
      → AllElements es
      → decode_ies addr_string m (encode_elements es) ≡ ok (with_elements m es)
  unfolding decode_ies
  decode_ies-encode_elements m es a = ie_loop-elements es _ _ 0 m a (omega arith) (omega arith) refl
