-- ===== src/Common/Text.antt =====
-- Go strings as byte sequences: literals, `encoding/hex`, decimal numbers.
use Prim.Native.Nat.{ℕ, ◌+◌, ◌-◌, ◌*◌, ◌/◌, ◌%◌, ◌<◌}
use Prim.Native.Char.{code}
use Prim.Native.String.{String}
use mathlib.Core.Path.{◌≡◌, refl, sym, ap, ◌∙◌}
use mathlib.Core.Logic.{dite}
use mathlib.Core.WellFounded.{Acc}
use native.Mathlib.Decide.{dec_lt}
use gpp_server.Common.Wf.{lt_wf}
use mathlib.Core.Bool.{◌&&◌}
use mathlib.Core.Option.{Option, none, some}
use mathlib.Core.List.{List, [], ◌∷◌, ◌++◌}
use native.Mathlib.Omega.{arith}
use gpp_server.Common.Tests.{ltb, leb, if◌then◌else◌}
use gpp_server.Common.Lists.{All}
use gpp_server.Common.Bytes.{IsByte}

abbrev pub GoString : Type 0
GoString = List ℕ

-- A string literal (ASCII).
abbrev pub text : String → GoString
text String.[] = []
text (String.◌∷◌ c s) = code c ∷ text s

unfoldable pub hex_digit : ℕ → ℕ
hex_digit n = if ltb n 10 then b'0' + n else b'a' + (n - 10)

unfoldable pub hex_value : ℕ → Option ℕ
hex_value c =
    if leb b'0' c && leb c b'9'
    then some (c - b'0')
    else if leb b'a' c && leb c b'f'
    then some (c - b'a' + 10)
    else if leb b'A' c && leb c b'F'
    then some (c - b'A' + 10)
    else none

-- `hex.EncodeToString`.
unfoldable pub hex_encode : List ℕ → GoString
unfolding hex_digit
hex_encode [] = []
hex_encode (b ∷ bs) = hex_digit (b / 16) ∷ hex_digit (b % 16) ∷ hex_encode bs

abbrev hex_pair : Option ℕ → Option ℕ → Option (List ℕ) → Option (List ℕ)
hex_pair (some hi) (some lo) (some rest) = some ((hi * 16 + lo) ∷ rest)
hex_pair (some hi) (some lo) none = none
hex_pair (some hi) none _ = none
hex_pair none _ _ = none

-- `hex.DecodeString`; `none` is its error (a bad digit or an odd length).
unfoldable pub hex_decode : GoString → Option (List ℕ)
unfolding hex_value
hex_decode [] = some []
hex_decode (c ∷ []) = none
hex_decode (c ∷ d ∷ s) = hex_pair (hex_value c) (hex_value d) (hex_decode s)

hex_value-digit : (n : ℕ) → n < 16 → hex_value (hex_digit n) ≡ some n
unfolding hex_value hex_digit
hex_value-digit n h = ground arith

-- Decoding reads back what encoding wrote.
pub hex_decode-encode : (bs : List ℕ) → All IsByte bs → hex_decode (hex_encode bs) ≡ some bs
unfolding hex_encode hex_decode
hex_decode-encode [] h = refl
hex_decode-encode (b ∷ bs) (hb, hbs) = ground (
  arith,
  hex_value-digit (b / 16) (omega arith),
  hex_value-digit (b % 16) (omega arith),
  hex_decode-encode bs hbs,
)

-- `strconv.FormatUint(n, 10)`, the last digit behind the others.
shorter : (n : ℕ) → 0 < n / 10 → n / 10 < n
shorter n h = omega arith

decimal_acc : (n : ℕ) → Acc ◌<◌ n → GoString
decimal_acc n (Acc.intro _ smaller) =
    dite (dec_lt 0 (n / 10))
      (λ h. decimal_acc (n / 10) (smaller _ (shorter n h)) ++ ((b'0' + n % 10) ∷ []))
      (λ _. (b'0' + n % 10) ∷ [])

unfoldable pub format_uint : ℕ → GoString
unfolding shorter decimal_acc lt_wf dec_lt
format_uint n = decimal_acc n (lt_wf.apply n)

-- `strconv.FormatInt(n, 10)` of the int64 whose two's complement is `n`.
unfoldable pub format_int : ℕ → GoString
unfolding format_uint
format_int n =
    if ltb n 9223372036854775808
    then format_uint n
    else b'-' ∷ format_uint (18446744073709551616 - n)

decimal_value : ℕ → GoString → ℕ
decimal_value acc [] = acc
decimal_value acc (c ∷ s) = decimal_value (acc * 10 + (c - b'0')) s

decimal_value-append :
    (acc : ℕ) (s t : GoString) → decimal_value acc (s ++ t) ≡ decimal_value (decimal_value acc s) t
unfolding decimal_value
decimal_value-append acc [] t = refl
decimal_value-append acc (c ∷ s) t = decimal_value-append (acc * 10 + (c - b'0')) s t

decimal_value-acc : (n : ℕ) (w : Acc ◌<◌ n) → decimal_value 0 (decimal_acc n w) ≡ n
unfolding decimal_acc decimal_value
decimal_value-acc n (Acc.intro _ smaller) = grind (
  arith,
  λ (h : n / 10 < n). decimal_value-acc (n / 10) (smaller _ h),
  λ (h : n / 10 < n).
      decimal_value-append 0 (decimal_acc (n / 10) (smaller _ h)) ((b'0' + n % 10) ∷ []),
)

-- Different numbers have different texts.
pub format_uint-injective : (n m : ℕ) → format_uint n ≡ format_uint m → n ≡ m
unfolding format_uint
format_uint-injective n m e =
    sym (decimal_value-acc n (lt_wf.apply n))
    ∙ ap (decimal_value 0) e
    ∙ decimal_value-acc m (lt_wf.apply m)
