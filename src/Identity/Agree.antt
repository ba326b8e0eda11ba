-- ===== src/Identity/Agree.antt =====
-- The PLMN encoders agree, and what they write can be read back (TS 24.008, section 10.5.1.3).
use gpp_server.Common.{
  ℕ, ◌+◌, ◌-◌, ◌*◌, ◌/◌, ◌%◌, ◌≤◌, ◌<◌, ◌≡◌, refl, arith, bit_or, ap, sym, ◌∙◌, ◌⊎◌,
}
use gpp_server.Common.{true, some, List, [], ◌∷◌, length, All, ok, if◌then◌else◌, ◌==◌, ==_iff}
use gpp_server.Common.Bytes.{u8, checked, checked_at}
use gpp_server.Common.Text.{GoString, hex_value, hex_decode}
use gpp_server.Identity.Plmn.{
  nibbles, ngap_encode_plmn, s1ap_encode_plmn, tbcd_plmn, get_mcc_and_mnc_in_octets,
}

abbrev pub IsDecimal : ℕ → Type 0
IsDecimal c = (b'0' ≤ c) × (c ≤ b'9')

-- A PLMN identity read from its octets: the filler stands for a missing third MNC digit.
abbrev pub read_plmn : List ℕ → GoString × GoString
read_plmn (x ∷ y ∷ z ∷ rest) = (
  (b'0' + x % 16) ∷ (b'0' + x / 16) ∷ (b'0' + y % 16) ∷ [],
  if y / 16 == 0xf
      then (b'0' + z % 16) ∷ (b'0' + z / 16) ∷ []
      else (b'0' + z % 16) ∷ (b'0' + z / 16) ∷ (b'0' + y / 16) ∷ [],
)
read_plmn _ = ([], [])

or_table : checked (λ n. bit_or (n / 16 * 16) (n % 16) == n) 256 ≡ true
unfolding checked
or_table = refl

nibbles_lem : (hi lo : ℕ) → hi < 16 → lo < 16 → nibbles hi lo ≡ hi * 16 + lo
nibbles_lem hi lo h k =
    let n : ℕ = hi * 16 + lo in
    let e : bit_or (n / 16 * 16) (n % 16) ≡ n =
      (==_iff _ _).0
        (checked_at (λ n. bit_or (n / 16 * 16) (n % 16) == n) 256 n (omega arith) or_table) in
    let eh : n / 16 ≡ hi = omega arith in
    let el : n % 16 ≡ lo = omega arith in
    let both : bit_or (hi * 16) lo ≡ n =
      ap (λ x. bit_or (x * 16) lo) (sym eh) ∙ ap (λ x. bit_or (n / 16 * 16) x) (sym el) ∙ e in
    ap u8 both ∙ omega arith

hex_value-decimal : (c : ℕ) → IsDecimal c → hex_value c ≡ some (c - b'0')
unfolding hex_value
hex_value-decimal c h = ground arith

hex_value-f : hex_value b'f' ≡ some 15
unfolding hex_value
hex_value-f = refl

-- The four encoders give the same octets.
abbrev pub Agree : GoString → GoString → List ℕ → Type 0
Agree mcc mnc octets =
    (ngap_encode_plmn mcc mnc ≡ ok octets)
    × (s1ap_encode_plmn mcc mnc ≡ ok octets)
    × (tbcd_plmn mcc mnc ≡ ok octets)
    × (get_mcc_and_mnc_in_octets mcc mnc ≡ ok octets)
    × (read_plmn octets ≡ (mcc, mnc))

module _ (a b c d e : ℕ) (ha : IsDecimal a) (hb : IsDecimal b) (hc : IsDecimal c) (hd : IsDecimal d)
    (he : IsDecimal e) where
  two_digits_lem : Agree (a ∷ b ∷ c ∷ []) (d ∷ e ∷ []) (
      ((b - b'0') * 16 + (a - b'0')) ∷ (15 * 16 + (c - b'0')) ∷ ((e - b'0') * 16 + (d - b'0')) ∷ [])
  unfolding ngap_encode_plmn s1ap_encode_plmn tbcd_plmn get_mcc_and_mnc_in_octets hex_decode
  two_digits_lem =
      let written : ngap_encode_plmn (a ∷ b ∷ c ∷ []) (d ∷ e ∷ [])
          ≡ ok (
              ((b - b'0') * 16 + (a - b'0'))
              ∷ (15 * 16 + (c - b'0'))
              ∷ ((e - b'0') * 16 + (d - b'0'))
              ∷ []) =
        ground (
          arith,
          nibbles_lem (b - b'0') (a - b'0'),
          nibbles_lem 15 (c - b'0'),
          nibbles_lem (e - b'0') (d - b'0'),
        ) in
      (
        written,
        written,
        written,
        ground (
          arith,
          hex_value-decimal a,
          hex_value-decimal b,
          hex_value-decimal c,
          hex_value-decimal d,
          hex_value-decimal e,
          hex_value-f,
        ),
        ground arith,
      )

  three_digits_lem :
      (f : ℕ)
      → IsDecimal f
      → Agree (a ∷ b ∷ c ∷ []) (d ∷ e ∷ f ∷ []) (
          ((b - b'0') * 16 + (a - b'0'))
          ∷ ((f - b'0') * 16 + (c - b'0'))
          ∷ ((e - b'0') * 16 + (d - b'0'))
          ∷ [])
  unfolding ngap_encode_plmn s1ap_encode_plmn tbcd_plmn get_mcc_and_mnc_in_octets hex_decode
  three_digits_lem f hf =
      let written : ngap_encode_plmn (a ∷ b ∷ c ∷ []) (d ∷ e ∷ f ∷ [])
          ≡ ok (
              ((b - b'0') * 16 + (a - b'0'))
              ∷ ((f - b'0') * 16 + (c - b'0'))
              ∷ ((e - b'0') * 16 + (d - b'0'))
              ∷ []) =
        ground (
          arith,
          nibbles_lem (b - b'0') (a - b'0'),
          nibbles_lem (f - b'0') (c - b'0'),
          nibbles_lem (e - b'0') (d - b'0'),
        ) in
      (
        written,
        written,
        written,
        ground (
          arith,
          hex_value-decimal a,
          hex_value-decimal b,
          hex_value-decimal c,
          hex_value-decimal d,
          hex_value-decimal e,
          hex_value-decimal f,
        ),
        ground arith,
      )

-- On an MCC of three decimal digits and an MNC of two or three, the four PLMN encoders, of NGAP,
-- S1AP, the EPS key derivation and the SUCI, all succeed with the same octets, from which the
-- reader of TS 24.008 gets back the MCC and the MNC.
pub encode_plmn-Agree :
    (mcc mnc : GoString)
    → All IsDecimal mcc
    → All IsDecimal mnc
    → length mcc ≡ 3
    → (length mnc ≡ 2) ⊎ (length mnc ≡ 3)
    → (octets : List ℕ) × Agree mcc mnc octets
encode_plmn-Agree [] mnc p q h k = absurd (omega arith)
encode_plmn-Agree (a ∷ []) mnc p q h k = absurd (omega arith)
encode_plmn-Agree (a ∷ b ∷ []) mnc p q h k = absurd (omega arith)
encode_plmn-Agree (a ∷ b ∷ c ∷ x ∷ s) mnc p q h k = absurd (omega arith)
encode_plmn-Agree (a ∷ b ∷ c ∷ []) [] p q h k = absurd (ground arith)
encode_plmn-Agree (a ∷ b ∷ c ∷ []) (d ∷ []) p q h k = absurd (ground arith)
encode_plmn-Agree (a ∷ b ∷ c ∷ []) (d ∷ e ∷ f ∷ x ∷ s) p q h k = absurd (ground arith)
encode_plmn-Agree (a ∷ b ∷ c ∷ []) (d ∷ e ∷ []) (ha, (hb, (hc, _))) (hd, (he, _)) h k =
    (_, two_digits_lem a b c d e ha hb hc hd he)
encode_plmn-Agree (a ∷ b ∷ c ∷ []) (d ∷ e ∷ f ∷ []) (ha, (hb, (hc, _))) (hd, (he, (hf, _))) h k =
    (_, three_digits_lem a b c d e ha hb hc hd he f hf)
