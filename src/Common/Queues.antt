-- ===== src/Common/Queues.antt =====
-- Go maps from keys to slices that serve as queues: a missing key reads as the nil slice.
use mathlib.Core.Path.{◌≡◌}
use mathlib.Core.Option.{Option, none, some}
use mathlib.Core.List.{List, [], ◌∷◌, ◌++◌}
use native.Mathlib.Omega.{arith}
use gpp_server.Common.Tests.{if◌then◌else◌}
use gpp_server.Common.Maps.{MapKey, lookup, insert, delete, lookup-insert, lookup-delete}

abbrev pub or_nil {ℓ} : {A : Type ℓ} → Option (List A) → List A
or_nil none = []
or_nil (some l) = l

module _ {ℓ κ} {K : Type ℓ} {V : Type κ} ⦃e : MapKey K⦄ where
  unfoldable pub queue : K → List (K × List V) → List V
  queue k m = or_nil (lookup k m)

  -- `m[k] = append(m[k], v)`
  unfoldable pub push : K → V → List (K × List V) → List (K × List V)
  unfolding queue
  push k v m = insert k (queue k m ++ (v ∷ [])) m

  -- `m[k] = q`, and the key goes if nothing is left.
  unfoldable pub set_queue : K → List V → List (K × List V) → List (K × List V)
  set_queue k [] m = delete k (insert k [] m)
  set_queue k (v ∷ q) m = insert k (v ∷ q) m

  pub queue-push :
      (k j : K) (v : V) (m : List (K × List V))
      → queue j (push k v m) ≡ (if e.same k j then queue k m ++ (v ∷ []) else queue j m)
  unfolding queue push
  queue-push k j v m = ground (arith, lookup-insert k j (queue k m ++ (v ∷ [])) m)

  pub queue-set_queue :
      (k j : K) (q : List V) (m : List (K × List V))
      → queue j (set_queue k q m) ≡ (if e.same k j then q else queue j m)
  unfolding queue set_queue
  queue-set_queue k j [] m =
      ground (arith, lookup-delete k j (insert k [] m), lookup-insert k j [] m)
  queue-set_queue k j (v ∷ q) m = ground (arith, lookup-insert k j (v ∷ q) m)
