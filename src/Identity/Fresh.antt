-- ===== src/Identity/Fresh.antt =====
-- What an AKA computation that succeeds has checked of AUTN.
use gpp_server.Common.{ℕ, ◌+◌, ◌*◌, ◌≤◌, ◌<◌, ◌≡◌, arith, sym, ap, ◌∙◌, false, Option, none, some}
use gpp_server.Common.{
  List, [], ◌∷◌, ◌++◌, Outcome, ok, ◌>>=◌, >>=-ok, ok-injective, length, All, take, else_taken,
  if_true, if_false, ◌==◌, ltb, ltb→ge, ==_iff, Bool-cases, inl, inr,
}
use gpp_server.Common.Bytes.{IsByte}
use gpp_server.Common.Text.{GoString, hex_decode}
use gpp_server.Identity.Suci.{derive_snn}
use gpp_server.Identity.Plmn.{tbcd_plmn}
use gpp_server.Identity.Aka.{
  AkaLibrary, MilenageKeys, AkaError, Aka5GResult, AkaEpsResult, or_aka_error, plmn_or_error, after,
  check_autn, derive_kamf, compute_res_star, compute_5g_aka, compute_eps_aka, invalid_supi, bad_opc,
  bad_k, bad_sqn, mac_failure,
}

-- A sequence number as a number.
abbrev pub big_endian : ℕ → List ℕ → ℕ
big_endian acc [] = acc
big_endian acc (x ∷ xs) = big_endian (acc * 256 + x) xs

big_endian_mono :
    (i j : ℕ) (a b : List ℕ)
    → length a ≡ length b
    → All IsByte a
    → All IsByte b
    → i < j
    → big_endian i a < big_endian j b
big_endian_mono i j [] [] e p q h = h
big_endian_mono i j [] (y ∷ b) e p q h = absurd (omega arith)
big_endian_mono i j (x ∷ a) [] e p q h = absurd (omega arith)
big_endian_mono i j (x ∷ a) (y ∷ b) e p q h =
    big_endian_mono (i * 256 + x) (j * 256 + y) a b (omega arith) p.1 q.1 (omega (arith, p.0, q.0))

-- `bytes.Compare` of two sequence numbers of one length compares the numbers.
after_lem :
    (acc : ℕ) (a b : List ℕ)
    → length a ≡ length b
    → All IsByte a
    → All IsByte b
    → after a b ≡ false
    → big_endian acc a ≤ big_endian acc b
unfolding after
after_lem acc [] [] e p q h = omega arith
after_lem acc [] (y ∷ b) e p q h = absurd (omega arith)
after_lem acc (x ∷ a) [] e p q h = absurd (omega arith)
after_lem acc (x ∷ a) (y ∷ b) e p q h = elim (Bool-cases (x == y)) [
  | inl same ↦
      let xy = (==_iff x y).0 same in
      let rest : after a b ≡ false = sym (if_true _ _ same) ∙ h in
      let below = after_lem (acc * 256 + x) a b (omega arith) p.1 q.1 rest in rw (← xy) below
  | inr other ↦
      let rest : ltb y x ≡ false = sym (if_false _ _ other) ∙ h in
      let le = ltb→ge y x rest in
      let x_lt_y : x < y = ground (arith, other, rest) in
      omega (
        arith,
        big_endian_mono (acc * 256 + x) (acc * 256 + y) a b (omega arith) p.1 q.1
            (omega (arith, p.0, q.0, x_lt_y)),
      )
]

or_aka_error-ok {ℓ} :
    {A : Type ℓ} (x : AkaError) (o : Option A) (a : A) → or_aka_error x o ≡ ok a → o ≡ some a
or_aka_error-ok x none a h = absurd cc
or_aka_error-ok x (some b) a h = cc

res_kept :
    (m : Outcome AkaError (List ℕ)) (res : List ℕ) (result : AkaEpsResult)
    → (m >>= λ kasme. ok (record { res = res; kasme = kasme })) ≡ ok result
    → result.res ≡ res
res_kept m res result h =
    let (kasme, _, made) = >>=-ok m (λ k. ok (record { res = res; kasme = k })) result h in
    ap (λ r. r.res) (sym (ok-injective made))

module _ (lib : AkaLibrary) where
  -- The network's sequence number is the AUTN's, and not below the UE's own.
  abbrev pub Accepted : GoString → GoString → GoString → List ℕ → List ℕ → MilenageKeys → Type 0
  Accepted k opc sqn rand autn keys =
      (opc_bytes : List ℕ) × (k_bytes : List ℕ) × (sqn_bytes : List ℕ) × (hex_decode opc
        ≡ some opc_bytes)
      × (hex_decode k ≡ some k_bytes)
      × (hex_decode sqn ≡ some sqn_bytes)
      × (6 ≤ length autn)
      × (lib.generate_keys_with_autn opc_bytes k_bytes rand autn ≡ some keys)
      × (length sqn_bytes ≡ length keys.sqn_hn
          → All IsByte sqn_bytes
          → All IsByte keys.sqn_hn
          → big_endian 0 sqn_bytes ≤ big_endian 0 keys.sqn_hn)

  check_autn-Accepted :
      (k opc sqn : GoString) (rand autn : List ℕ) (keys : MilenageKeys)
      → check_autn lib k opc sqn rand autn ≡ ok keys
      → Accepted k opc sqn rand autn keys
  unfolding check_autn
  check_autn-Accepted k opc sqn rand autn keys h =
      let (opc_bytes, e1, h1) = >>=-ok (or_aka_error bad_opc (hex_decode opc)) _ keys h in
      let (k_bytes, e2, h2) = >>=-ok (or_aka_error bad_k (hex_decode k)) _ keys h1 in
      let (sqn_bytes, e3, h3) = >>=-ok (or_aka_error bad_sqn (hex_decode sqn)) _ keys h2 in
      let (long, h4) = else_taken (ltb (length autn) 6) h3 (λ e. cc) in
      let (made, e5, h5) =
        >>=-ok (or_aka_error mac_failure (lib.generate_keys_with_autn opc_bytes k_bytes rand autn))
          _ keys h4 in
      let (fresh, h6) = else_taken (after sqn_bytes made.sqn_hn) h5 (λ e. cc) in
      let made_keys = ok-injective h6 in
      let generated = or_aka_error-ok _ _ _ e5 in
      (
        opc_bytes,
        k_bytes,
        sqn_bytes,
        or_aka_error-ok _ _ _ e1,
        or_aka_error-ok _ _ _ e2,
        or_aka_error-ok _ _ _ e3,
        ltb→ge _ _ long,
        generated ∙ ap some made_keys,
        λ same bytes bytes'.
            after_lem 0 sqn_bytes keys.sqn_hn same bytes bytes'
              (ap (λ m. after sqn_bytes (m.sqn_hn)) (sym made_keys) ∙ fresh),
      )

  -- A 5G AKA computation that succeeds has decoded the UE's keys, has taken the session keys that
  -- the library derives from them, RAND and AUTN, and, where the sequence numbers are octets of one
  -- length, accepts none below the UE's. Its RES* is that of the session keys and RAND.
  pub compute_5g_aka-Accepted :
      (k opc sqn supi mcc mnc : GoString) (rand autn : List ℕ) (result : Aka5GResult)
      → compute_5g_aka lib k opc sqn supi mcc mnc rand autn ≡ ok result
      → (keys : MilenageKeys) × (Accepted k opc sqn rand autn keys)
        × (compute_res_star lib (keys.ck ++ keys.ik) (derive_snn mcc mnc) rand keys.res
            ≡ ok result.res_star)
  unfolding compute_5g_aka
  compute_5g_aka-Accepted k opc sqn supi mcc mnc rand autn result h =
      let (keys, e, h1) = >>=-ok (check_autn lib k opc sqn rand autn) _ result h in
      let (imsi, e1, h2) = >>=-ok (or_aka_error invalid_supi (lib.supi_digits supi)) _ result h1 in
      let (kamf, e2, h3) =
        >>=-ok (derive_kamf lib (keys.ck ++ keys.ik) (derive_snn mcc mnc) imsi (take 6 autn)) _
          result h2 in
      let (res_star, e3, made) =
        >>=-ok (compute_res_star lib (keys.ck ++ keys.ik) (derive_snn mcc mnc) rand keys.res) _
          result h3 in
      (
        keys,
        check_autn-Accepted k opc sqn rand autn keys e,
        e3 ∙ ap (λ r. ok (r.res_star)) (ok-injective made),
      )

  -- An EPS AKA computation that succeeds has done the same, and its RES is that of the session keys.
  pub compute_eps_aka-Accepted :
      (k opc sqn mcc mnc : GoString) (rand autn : List ℕ) (result : AkaEpsResult)
      → compute_eps_aka lib k opc sqn mcc mnc rand autn ≡ ok result
      → (keys : MilenageKeys) × Accepted k opc sqn rand autn keys × (result.res ≡ keys.res)
  unfolding compute_eps_aka
  compute_eps_aka-Accepted k opc sqn mcc mnc rand autn result h =
      let (keys, e, h1) = >>=-ok (check_autn lib k opc sqn rand autn) _ result h in
      let (snid, e1, h2) = >>=-ok (plmn_or_error (tbcd_plmn mcc mnc)) _ result h1 in
      (keys, check_autn-Accepted k opc sqn rand autn keys e, res_kept _ keys.res result h2)
