-- ===== src/Identity/Plmn.antt =====
-- The four encoders of a PLMN identity: `encodePLMN` of internal/ngap/helpers.go and of
-- internal/s1ap/helpers.go, `tbcdPLMN` of internal/crypto/aka_eps.go and `getMccAndMncInOctets` of
-- internal/crypto/suci_encode.go. A byte that is not ASCII is an error in each of them.
use gpp_server.Common.{ℕ, ◌-◌, ◌*◌, bit_or, not, ◌&&◌, ◌||◌, Option, none, some}
use gpp_server.Common.{List, [], ◌∷◌, ◌++◌, Outcome, ok, err, ◌>>=◌}
use gpp_server.Common.{ltb, ◌==◌, if◌then◌else◌, length, get_or}
use gpp_server.Common.Bytes.{u8, index}
use gpp_server.Common.Text.{GoString, hex_decode}

pub data PlmnError : Type 0 where
  bad_mcc bad_mnc non_digit bad_hex : PlmnError

-- `byte(hi<<4 | lo)`
abbrev pub nibbles : ℕ → ℕ → ℕ
nibbles hi lo = u8 (bit_or (hi * 16) lo)

-- The loop that appends `int(r - '0')`.
unfoldable pub digits : GoString → Outcome PlmnError (List ℕ)
digits [] = ok []
digits (c ∷ s) =
    if ltb c b'0' || ltb b'9' c then err non_digit else (digits s >>= λ ds. ok ((c - b'0') ∷ ds))

-- The slice has as many elements as the two strings have bytes, so no index is out of range.
abbrev pub octets_of : ℕ → List ℕ → List ℕ
octets_of mnc_length d =
    nibbles (get_or d 1 0) (get_or d 0 0)
    ∷ (if mnc_length == 2
        then nibbles 0xf (get_or d 2 0)
        else nibbles (get_or d 5 0) (get_or d 2 0))
    ∷ nibbles (get_or d 4 0) (get_or d 3 0)
    ∷ []

unfoldable pub ngap_encode_plmn : GoString → GoString → Outcome PlmnError (List ℕ)
unfolding digits
ngap_encode_plmn mcc mnc =
    if not (length mcc == 3)
    then err bad_mcc
    else if not (length mnc == 2) && not (length mnc == 3)
    then err bad_mnc
    else do d1 ← digits mcc; d2 ← digits mnc; ok (octets_of (length mnc) (d1 ++ d2))

unfoldable pub s1ap_encode_plmn : GoString → GoString → Outcome PlmnError (List ℕ)
unfolding digits
s1ap_encode_plmn mcc mnc =
    if not (length mcc == 3)
    then err bad_mcc
    else if not (length mnc == 2) && not (length mnc == 3)
    then err bad_mnc
    else do d1 ← digits mcc; d2 ← digits mnc; ok (octets_of (length mnc) (d1 ++ d2))

unfoldable pub tbcd_plmn : GoString → GoString → Outcome PlmnError (List ℕ)
unfolding digits
tbcd_plmn mcc mnc =
    if not (length mcc == 3) || (not (length mnc == 2) && not (length mnc == 3))
    then err bad_mcc
    else do d1 ← digits mcc; d2 ← digits mnc; ok (octets_of (length mnc) (d1 ++ d2))

-- The runes in the opposite order.
unfoldable pub reverse_str : GoString → GoString
reverse_str [] = []
reverse_str (c ∷ s) = reverse_str s ++ (c ∷ [])

abbrev pub or_bad_hex : Option (List ℕ) → Outcome PlmnError (List ℕ)
or_bad_hex none = err bad_hex
or_bad_hex (some b) = ok b

-- The six hex digits that `Sprintf` prints.
unfoldable pub plmn_hex : GoString → GoString → Outcome PlmnError GoString
plmn_hex mcc mnc = do
  m1 ← index mcc 1
  m2 ← index mcc 2
  m0 ← index mcc 0
  n0 ← index mnc 0
  n1 ← index mnc 1
  if length mnc == 2
      then ok (m1 ∷ m2 ∷ b'f' ∷ m0 ∷ n0 ∷ n1 ∷ [])
      else do n2 ← index mnc 2; ok (m1 ∷ m2 ∷ n0 ∷ m0 ∷ n1 ∷ n2 ∷ [])

unfoldable pub get_mcc_and_mnc_in_octets : GoString → GoString → Outcome PlmnError (List ℕ)
unfolding reverse_str plmn_hex
get_mcc_and_mnc_in_octets mcc mnc = do
  res ← plmn_hex (reverse_str mcc) (reverse_str mnc)
  or_bad_hex (hex_decode res)
