-- ===== src/Gtpu/Addr.antt =====
-- What internal/gtpu uses of the standard library's `netip.Addr`: its kinds, its bytes, and how it
-- is made from a slice. Its text form, `String`, is a parameter of the code that uses it.
use gpp_server.Common.{ℕ, ◌≡◌, Bool, true, Option, none, some, List, ◌&&◌, if◌then◌else◌}
use gpp_server.Common.{length, take, drop, ◌==◌, [], ◌∷◌}
use gpp_server.Common.Bytes.{byte_at}

-- The zero `Addr` is neither IPv4 nor IPv6.
pub data Addr : Type 0 where
  invalid : Addr
  v4 v6 : List ℕ → Addr

abbrev pub IsAddr : Addr → Type 0
IsAddr invalid = Unit {0}
IsAddr (v4 b) = length b ≡ 4
IsAddr (v6 b) = length b ≡ 16

-- `AddrFromSlice`: `none` is its `false`, which comes with the zero `Addr`.
abbrev pub addr_from_slice : List ℕ → Option Addr
addr_from_slice b =
    if length b == 4 then some (v4 b) else if length b == 16 then some (v6 b) else none

abbrev all_zero : List ℕ → Bool
all_zero [] = true
all_zero (x ∷ xs) = x == 0 && all_zero xs

-- `Unmap` turns an IPv4-mapped IPv6 address, `::ffff:a.b.c.d`, into the IPv4 address.
abbrev pub unmap : Addr → Addr
unmap invalid = invalid
unmap (v4 b) = v4 b
unmap (v6 b) =
    if all_zero (take 10 b) && byte_at b 10 == 0xff && byte_at b 11 == 0xff
    then v4 (drop 12 b)
    else v6 b
