-- ===== src/Store/Pointers.antt =====
-- Optional pointers, as the UE methods of internal/store use them.
use gpp_server.Common.{ℕ, Option, none, some, Bool, true, false}

-- `*p` where `p` is not nil, and the old value where it is.
abbrev pub or_keep {ℓ} : {A : Type ℓ} → Option A → A → A
or_keep none old = old
or_keep (some x) old = x

abbrev pub is_some : Option ℕ → Bool
is_some none = false
is_some (some x) = true
