-- ===== src/Common/Bytes.antt =====
-- Byte slices as lists of numbers: indexing, slicing, big-endian integers, masks.
use Prim.Native.Nat.{ℕ, zero, suc, ◌+◌, ◌-◌, ◌*◌, ◌/◌, ◌%◌, ◌≤◌, ◌<◌}
use Prim.Native.Nat.{bit_and}
use mathlib.Core.Path.{◌≡◌, refl}
use mathlib.Core.Bool.{Bool, true, false, ◌&&◌}
use mathlib.Core.List.{List, [], ◌∷◌}
use native.Mathlib.Omega.{arith}
use gpp_server.Common.Tests.{ltb, leb, ◌==◌, if◌then◌else◌, ==_iff}
use gpp_server.Common.Lists.{length, get_or, take, drop, length-take, length-drop}
use gpp_server.Common.Outcomes.{Outcome, ok, panic}

abbrev pub IsByte : ℕ → Type 0
IsByte b = b < 256

abbrev pub u8 : ℕ → ℕ
u8 n = n % 256

abbrev pub u16 : ℕ → ℕ
u16 n = n % 65536

abbrev pub u32 : ℕ → ℕ
u32 n = n % 4294967296

-- `b[i]`, where the index is in range.
abbrev pub byte_at : List ℕ → ℕ → ℕ
byte_at b i = get_or b i 0

-- `b[i]` and `b[i:j]`. A bound past the length is a panic (a slice with spare capacity would
-- admit more; the code never relies on that).
abbrev pub index {ℓ} : {E : Type ℓ} → List ℕ → ℕ → Outcome E ℕ
index b i = if ltb i (length b) then ok (byte_at b i) else panic

abbrev pub sub_list : List ℕ → ℕ → ℕ → List ℕ
sub_list b i j = take (j - i) (drop i b)

abbrev pub slice {ℓ} : {E : Type ℓ} → List ℕ → ℕ → ℕ → Outcome E (List ℕ)
slice b i j = if leb i j && leb j (length b) then ok (sub_list b i j) else panic

pub length-sub_list :
    (b : List ℕ) (i j : ℕ) → i ≤ j → j ≤ length b → length (sub_list b i j) ≡ j - i
length-sub_list b i j h k = omega (arith, length-take {0} (j - i) (drop i b), length-drop {0} i b)

-- `binary.BigEndian.Uint16` and `Uint32` panic on a slice that is too short.
abbrev pub uint16_of : List ℕ → ℕ
uint16_of b = byte_at b 0 * 256 + byte_at b 1

abbrev pub uint32_of : List ℕ → ℕ
uint32_of b = ((byte_at b 0 * 256 + byte_at b 1) * 256 + byte_at b 2) * 256 + byte_at b 3

abbrev pub be_uint16 {ℓ} : {E : Type ℓ} → List ℕ → Outcome E ℕ
be_uint16 b = if ltb (length b) 2 then panic else ok (uint16_of b)

abbrev pub be_uint32 {ℓ} : {E : Type ℓ} → List ℕ → Outcome E ℕ
be_uint32 b = if ltb (length b) 4 then panic else ok (uint32_of b)

-- The bytes that `PutUint16` and `PutUint32` write.
abbrev pub put_uint16 : ℕ → List ℕ
put_uint16 v = u8 (v / 256) ∷ u8 v ∷ []

abbrev pub put_uint32 : ℕ → List ℕ
put_uint32 v = u8 (v / 16777216) ∷ u8 (v / 65536) ∷ u8 (v / 256) ∷ u8 v ∷ []

pub uint16-put : (v : ℕ) → v < 65536 → uint16_of (put_uint16 v) ≡ v
uint16-put v h = omega arith

pub uint32-put : (v : ℕ) → v < 4294967296 → uint32_of (put_uint32 v) ≡ v
uint32-put v h = omega arith

-- A law of the octets is checked at all 256 of them.
unfoldable pub checked : (ℕ → Bool) → ℕ → Bool
checked test zero = true
checked test (suc bound) = if test bound then checked test bound else false

pub checked_at :
    (test : ℕ → Bool) (bound value : ℕ)
    → value < bound
    → checked test bound ≡ true
    → test value ≡ true
unfolding checked
checked_at test zero value inside passed = elim inside [ ]
checked_at test (suc bound) value inside passed = ground (arith, checked_at test bound value)

low_six_table : checked (λ octet. bit_and octet 0x3f == octet % 64) 256 ≡ true
unfolding checked
low_six_table = refl

pub low_six : (octet : ℕ) → octet < 256 → bit_and octet 0x3f ≡ octet % 64
low_six octet inside = (==_iff _ _).0 (checked_at _ 256 octet inside low_six_table)
