-- ===== src/Gtpu/Checksum.antt =====
-- internal/gtpu/ip.go: `onesComplementSum`, the Internet checksum of RFC 1071.
use gpp_server.Common.{ℕ, ◌+◌, ◌-◌, ◌*◌, ◌/◌, ◌%◌, ◌≤◌, ◌<◌, ◌≡◌, refl, arith, ◌∙◌, ◌⊎◌}
use gpp_server.Common.{List, [], ◌∷◌, ◌++◌, length, All}
use gpp_server.Common.Bytes.{IsByte, u16, u32, put_uint16}
use gpp_server.Common.Wf.{lt_wf}
use mathlib.Core.Logic.{dite}
use mathlib.Core.WellFounded.{Acc}
use native.Mathlib.Decide.{dec_lt}
use native.Mathlib.Nat.{zero-add}

-- The loop over the 16-bit words, and the odd octet behind them. `sum` is a uint32.
unfoldable pub sum_words : ℕ → List ℕ → ℕ
sum_words sum [] = sum
sum_words sum (x ∷ []) = u32 (sum + x * 256)
sum_words sum (x ∷ y ∷ b) = sum_words (u32 (sum + (x * 256 + y))) b

pub fold_smaller : (sum : ℕ) → 0 < sum / 65536 → sum % 65536 + sum / 65536 < sum
fold_smaller sum h = omega arith

-- `for sum>>16 != 0 { sum = (sum & 0xffff) + (sum >> 16) }`
pub fold_carry : (sum : ℕ) → Acc ◌<◌ sum → ℕ
fold_carry sum (Acc.intro _ smaller) =
    dite (dec_lt 0 (sum / 65536))
      (λ carry. fold_carry (sum % 65536 + sum / 65536) (smaller _ (fold_smaller sum carry)))
      (λ _. sum)

-- The loop from its start; the carry is gone at the end.
unfoldable pub folded : ℕ → ℕ
unfolding fold_carry lt_wf dec_lt
folded sum = fold_carry sum (lt_wf.apply sum)

unfoldable pub ones_complement_sum : List ℕ → ℕ
ones_complement_sum b = 65535 - u16 (folded (sum_words 0 b))

rfc1071_example :
    ones_complement_sum (0x00 ∷ 0x01 ∷ 0xf2 ∷ 0x03 ∷ 0xf4 ∷ 0xf5 ∷ 0xf6 ∷ 0xf7 ∷ []) ≡ 0x220d
unfolding ones_complement_sum folded sum_words
rfc1071_example = refl

-- What folding keeps: the value modulo 65535, and whether it is zero.
abbrev IsFold : ℕ → ℕ → Type 0
IsFold sum r = (r < 65536) × (r % 65535 ≡ sum % 65535) × (r ≤ sum) × ((sum ≡ 0) ⊎ (0 < r))

fold_carry-IsFold : (sum : ℕ) (w : Acc ◌<◌ sum) → IsFold sum (fold_carry sum w)
unfolding fold_carry
fold_carry-IsFold sum (Acc.intro _ smaller) = grind (
  arith,
  λ (h : sum % 65536 + sum / 65536 < sum).
      fold_carry-IsFold (sum % 65536 + sum / 65536) (smaller _ h),
)

folded-IsFold : (sum : ℕ) → IsFold sum (folded sum)
unfolding folded
folded-IsFold sum = fold_carry-IsFold sum (lt_wf.apply sum)

-- The sum of the words with no bound on its size.
pub word_sum : List ℕ → ℕ
word_sum [] = 0
word_sum (x ∷ []) = x * 256
word_sum (x ∷ y ∷ b) = x * 256 + y + word_sum b

sum_words-word_sum :
    (sum : ℕ) (b : List ℕ) → sum + word_sum b < 4294967296 → sum_words sum b ≡ sum + word_sum b
unfolding sum_words word_sum
sum_words-word_sum sum [] h = omega arith
sum_words-word_sum sum (x ∷ []) h = omega arith
sum_words-word_sum sum (x ∷ y ∷ b) h =
    ground (arith, sum_words-word_sum (u32 (sum + (x * 256 + y))) b (omega arith))

pub word_sum_bound : (b : List ℕ) → All IsByte b → word_sum b ≤ 65535 * ((length b + 1) / 2)
unfolding word_sum
word_sum_bound [] h = omega arith
word_sum_bound (x ∷ []) h = omega arith
word_sum_bound (x ∷ y ∷ b) (hx, (hy, hb)) = omega (arith, word_sum_bound b hb)

pub word_sum-append :
    (a b : List ℕ) → length a % 2 ≡ 0 → word_sum (a ++ b) ≡ word_sum a + word_sum b
unfolding word_sum
word_sum-append [] b h = omega arith
word_sum-append (x ∷ []) b h = absurd (omega arith)
word_sum-append (x ∷ y ∷ a) b h = omega (arith, word_sum-append a b (omega arith))

-- The checksum in terms of that sum.
pub ones_complement_sum-folded :
    (b : List ℕ) → word_sum b < 4294967296 → ones_complement_sum b ≡ 65535 - folded (word_sum b)
unfolding ones_complement_sum
ones_complement_sum-folded b h =
    let total : sum_words 0 b ≡ word_sum b = sum_words-word_sum 0 b (omega arith) ∙ zero-add _ in
    rw total (omega (arith, folded-IsFold (word_sum b)))

-- What a receiver asks of octets with a checksum (RFC 1071): their 16-bit words, the last filled up
-- with a zero octet, add up to minus zero in one's complement, a positive multiple of 65535.
abbrev pub Accepted : List ℕ → Type 0
Accepted b = (0 < word_sum b) × (word_sum b % 65535 ≡ 0)

word_sum-field :
    (a b : List ℕ) (c : ℕ)
    → length a % 2 ≡ 0
    → c < 65536
    → word_sum (a ++ (put_uint16 c ++ b)) ≡ word_sum (a ++ (0 ∷ 0 ∷ b)) + c
unfolding word_sum
word_sum-field a b c even h =
    omega (arith, word_sum-append a (put_uint16 c ++ b) even, word_sum-append a (0 ∷ 0 ∷ b) even)

-- What makes a checksum field right: written over the two zero octets behind an even number of
-- octets, it makes a receiver accept the whole buffer.
pub checksum_field :
    (a b : List ℕ) (c : ℕ)
    → length a % 2 ≡ 0
    → word_sum (a ++ (0 ∷ 0 ∷ b)) < 4294901760
    → (c ≡ ones_complement_sum (a ++ (0 ∷ 0 ∷ b)))
      ⊎ ((c ≡ 65535) × (ones_complement_sum (a ++ (0 ∷ 0 ∷ b)) ≡ 0))
    → Accepted (a ++ (put_uint16 c ++ b))
checksum_field a b c even h is =
    let zeroed = a ++ (0 ∷ 0 ∷ b) in
    let eq = ones_complement_sum-folded zeroed (omega arith) in
    let fold = folded-IsFold (word_sum zeroed) in
    let sum = word_sum-field a b c even (omega arith) in (omega arith, omega arith)

pub ones_complement_sum_bound : (b : List ℕ) → ones_complement_sum b < 65536
unfolding ones_complement_sum
ones_complement_sum_bound b = omega arith
