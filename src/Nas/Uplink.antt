-- ===== src/Nas/Uplink.antt =====
-- The uplink side of the 5GS security context: counts, and what a network's check sees.
use gpp_server.Common.{
  ℕ, ◌+◌, ◌≡◌, ◌≢◌, refl, arith, bit_xor, sym, ap, ◌∙◌, Bool, true, false, not, ◌&&◌, Option, none,
  some,
}
use gpp_server.Common.{
  List, [], ◌∷◌, ◌++◌, drop, length, Outcome, ok, err, panic, stuck, >>=-ok, ok-injective, ◌==◌,
  if◌then◌else◌, ==_iff,
}
use gpp_server.Common.Bytes.{u8, u32, byte_at, sub_list, checked, checked_at, IsByte}
use gpp_server.Store.Contexts.{UeContext}
use gpp_server.Store.Counts.{next_ul_count}
use gpp_server.Store.Gnb
use gpp_server.Nas.Library.{NasLibrary}
use gpp_server.Nas.Security.{
  NasError, plain_decode_failed, plain_encode_failed, encrypt_failed, mac_failed, protect, ciphered,
  or_error, or_error-ok,
}
use gpp_server.Nas.GnbContext.{
  UplinkOverrides, UplinkError, encode_gnb_uplink_nas, is_new_context, corrupted, corrupt, count_of,
  restart, finish_uplink, no_security_context,
}

flip_table : checked (λ octet. not (bit_xor octet 0xff == octet)) 256 ≡ true
unfolding checked
flip_table = refl

flip : (octet : ℕ) → IsByte octet → bit_xor octet 0xff ≢ octet
flip octet h e = absurd (
    grind (
      arith,
      checked_at (λ octet. not (bit_xor octet 0xff == octet)) 256 octet h flip_table,
      (==_iff (bit_xor octet 0xff) octet).1 e,
    ))

-- A wrapper around a four-octet MAC, taken apart where the receiver does.
wrapper_parts :
    (epd sht : ℕ) (mac : List ℕ) (first : ℕ) (rest : List ℕ)
    → length mac ≡ 4
    → (byte_at (epd ∷ sht ∷ (mac ++ (first ∷ rest))) 6 ≡ first)
      × (sub_list (epd ∷ sht ∷ (mac ++ (first ∷ rest))) 2 6 ≡ mac)
      × (drop 6 (epd ∷ sht ∷ (mac ++ (first ∷ rest))) ≡ first ∷ rest)
wrapper_parts epd sht (a ∷ b ∷ c ∷ d ∷ []) first rest h = (refl, refl, refl)
wrapper_parts epd sht [] first rest h = absurd (omega arith)
wrapper_parts epd sht (a ∷ []) first rest h = absurd (omega arith)
wrapper_parts epd sht (a ∷ b ∷ []) first rest h = absurd (omega arith)
wrapper_parts epd sht (a ∷ b ∷ c ∷ []) first rest h = absurd (omega arith)
wrapper_parts epd sht (a ∷ b ∷ c ∷ d ∷ e ∷ l) first rest h = absurd (omega arith)

-- The same wrapper with its first MAC octet flipped.
corrupt_parts :
    (epd sht : ℕ) (mac : List ℕ) (first : ℕ) (rest : List ℕ) (r : UplinkOverrides)
    → r.corrupt_mac ≡ true
    → length mac ≡ 4
    → IsByte (byte_at mac 0)
    → (sub_list (corrupted (some r) (epd ∷ sht ∷ (mac ++ (first ∷ rest)))) 2 6 ≢ mac)
      × (drop 6 (corrupted (some r) (epd ∷ sht ∷ (mac ++ (first ∷ rest)))) ≡ first ∷ rest)
corrupt_parts epd sht (a ∷ b ∷ c ∷ d ∷ []) first rest r on h k =
    let whole = epd ∷ sht ∷ a ∷ b ∷ c ∷ d ∷ first ∷ rest in
    let flipped : corrupted (some r) whole ≡ corrupt whole = ground arith in
    (
      λ e. flip a k (ap (λ l. byte_at l 0) (sym (ap (λ l. sub_list l 2 6) flipped) ∙ e)),
      ap (drop 6) flipped,
    )
corrupt_parts epd sht [] first rest r on h k = absurd (omega arith)
corrupt_parts epd sht (a ∷ []) first rest r on h k = absurd (omega arith)
corrupt_parts epd sht (a ∷ b ∷ []) first rest r on h k = absurd (omega arith)
corrupt_parts epd sht (a ∷ b ∷ c ∷ []) first rest r on h k = absurd (omega arith)
corrupt_parts epd sht (a ∷ b ∷ c ∷ d ∷ e ∷ l) first rest r on h k = absurd (omega arith)

some-injective : {a b : List ℕ} → some a ≡ some b → a ≡ b
some-injective h = cc

abbrev pub corrupts : Option UplinkOverrides → Bool
corrupts none = false
corrupts (some r) = r.corrupt_mac

finish_uplink-ok :
    (ue ue' : UeContext) (req : Option UplinkOverrides) (o : Outcome NasError (List ℕ)) (p : List ℕ)
    → finish_uplink ue req o ≡ (ue', ok p)
    → (q : List ℕ) × (o ≡ ok q) × (p ≡ corrupted req q) × (ue' ≡ record ue { last_uplink_nas = p })
finish_uplink-ok ue ue' req (ok q) p h =
    let same = ok-injective (ap (λ r. r.1) h) in
    (q, refl, sym same, sym (ap (λ r. r.0) h) ∙ ap (λ x. record ue { last_uplink_nas = x }) same)
finish_uplink-ok ue ue' req (err e) p h = absurd (let g = ap (λ r. r.1) h in cc)
finish_uplink-ok ue ue' req panic p h = absurd (let g = ap (λ r. r.1) h in cc)
finish_uplink-ok ue ue' req stuck p h = absurd (let g = ap (λ r. r.1) h in cc)

uncorrupted :
    (req : Option UplinkOverrides) (q : List ℕ) → corrupts req ≡ false → corrupted req q ≡ q
uncorrupted none q h = refl
uncorrupted (some r) q h = ground arith

past_guard :
    (refused : Bool) (ue ue' : UeContext) (r : UeContext × Outcome UplinkError (List ℕ))
    (p : List ℕ)
    → (if refused then (ue, err no_security_context) else r) ≡ (ue', ok p)
    → r ≡ (ue', ok p)
past_guard true ue ue' r p h = absurd (let g = ap (λ r. r.1) h in cc)
past_guard false ue ue' r p h = h

restart_lem :
    (new : Bool) (ue : UeContext)
    → ((restart new ue).ul_count ≡ (if new then 0 else ue.ul_count))
      × ((restart new ue).ciphering_alg ≡ ue.ciphering_alg)
      × ((restart new ue).integrity_alg ≡ ue.integrity_alg)
      × ((restart new ue).knas_enc ≡ ue.knas_enc)
      × ((restart new ue).knas_int ≡ ue.knas_int)
restart_lem true ue = (refl, refl, refl, refl, refl)
restart_lem false ue = (refl, refl, refl, refl, refl)

module _ (lib : NasLibrary) where
  -- A NAS MAC is four octets.
  abbrev pub MacOctets : Type 0
  MacOctets =
      (alg : ℕ) (key : List ℕ) (count bearer direction : ℕ) (payload mac : List ℕ)
      → lib.nas_mac alg key count bearer direction payload ≡ some mac
      → (length mac ≡ 4) × IsByte (byte_at mac 0)

  -- What `protect` returns: the wrapper around a body that begins with the sequence number, and the
  -- MAC over that body.
  protect_shape :
      (plain : List ℕ) (sht count calg ialg : ℕ) (kenc kint p : List ℕ)
      → protect lib plain sht count calg ialg kenc kint ≡ ok p
      → (mac : List ℕ) × (secret : List ℕ) × (p
          ≡ lib.epd_mobility_management ∷ sht ∷ (mac ++ (u8 count ∷ secret)))
        × (lib.nas_mac ialg kint count lib.bearer_3gpp lib.direction_uplink (u8 count ∷ secret)
            ≡ some mac)
  unfolding protect
  protect_shape plain sht count calg ialg kenc kint p e =
      let (encode, e1, h1) =
        >>=-ok (or_error plain_decode_failed (lib.plain_nas_decode plain)) _ p e in
      let (payload, e2, h2) = >>=-ok (or_error plain_encode_failed (encode sht)) _ p h1 in
      let (secret, e3, h3) =
        >>=-ok
          (if ciphered lib sht
            then or_error encrypt_failed
                (lib.nas_encrypt calg kenc count lib.bearer_3gpp lib.direction_uplink payload)
            else ok payload)
          _ p h2 in
      let (mac, e4, h4) =
        >>=-ok
          (or_error mac_failed
            (lib.nas_mac ialg kint count lib.bearer_3gpp lib.direction_uplink (u8 count ∷ secret)))
          _ p h3 in
      (mac, secret, sym (ok-injective h4), or_error-ok _ _ mac e4)

  -- The count of the next uplink: a new context starts again from zero.
  abbrev pub sent_count : UeContext → ℕ → ℕ
  sent_count ue sht = if is_new_context lib sht then 0 else ue.ul_count

  abbrev mac_of : UeContext → ℕ → List ℕ → Option (List ℕ)
  mac_of ue count body =
      lib.nas_mac ue.integrity_alg ue.knas_int count lib.bearer_3gpp lib.direction_uplink body

  -- What a successful call protected.
  encode_gnb_uplink_nas_shape :
      (ue ue' : UeContext) (plain p : List ℕ) (sht : ℕ) (req : Option UplinkOverrides)
      → encode_gnb_uplink_nas lib ue plain sht req ≡ (ue', ok p)
      → (q : List ℕ) × (protect lib plain sht
            (count_of req (sent_count ue sht))
            ue.ciphering_alg
            ue.integrity_alg
            ue.knas_enc
            ue.knas_int
          ≡ ok q)
        × (p ≡ corrupted req q)
        × (ue'.ul_count ≡ u32 (sent_count ue sht + 1))
        × (ue'.last_uplink_nas ≡ p)
  unfolding encode_gnb_uplink_nas Gnb.next_ul next_ul_count
  encode_gnb_uplink_nas_shape ue ue' plain p sht req e =
      let next = Gnb.next_ul (restart (is_new_context lib sht) ue) in
      let ue2 = next.0 in
      let (q, e1, e2, e3) =
        finish_uplink-ok ue2 ue' req
          (protect lib plain sht (count_of req next.1) ue2.ciphering_alg ue2.integrity_alg
            ue2.knas_enc ue2.knas_int)
          p (past_guard (not ue.security_active && length ue.kamf == 0) ue ue' _ p e) in
      let (r1, r2, r3, r4, r5) = restart_lem (is_new_context lib sht) ue in
      (
        q,
        cc,
        e2,
        ap (λ u. u.ul_count) e3 ∙ ap (λ n. u32 (n + 1)) r1,
        ap (λ u. u.last_uplink_nas) e3,
      )

  -- If the library's MACs are four octets, an uplink that is sent without a corrupted MAC passes
  -- the network's check: its sequence number is the low octet of the count that it was protected
  -- at, which is the override or else the context's uplink count (zero under a new-context
  -- header), octets 2 to 6 are the MAC over all that follows at that count and under the
  -- integrity key, the octets are kept as the last uplink, and the context's count is one more.
  pub encode_gnb_uplink_nas_verifies :
      MacOctets
      → (ue ue' : UeContext) (plain p : List ℕ) (sht : ℕ) (req : Option UplinkOverrides)
      → corrupts req ≡ false
      → encode_gnb_uplink_nas lib ue plain sht req ≡ (ue', ok p)
      → (byte_at p 6 ≡ u8 (count_of req (sent_count ue sht)))
        × (lib.nas_mac ue.integrity_alg ue.knas_int
              (count_of req (sent_count ue sht))
              lib.bearer_3gpp
              lib.direction_uplink
              (drop 6 p)
            ≡ some (sub_list p 2 6))
        × (ue'.last_uplink_nas ≡ p)
        × (ue'.ul_count ≡ u32 (sent_count ue sht + 1))
  encode_gnb_uplink_nas_verifies octets ue ue' plain p sht req clean e =
      let (q, e1, e2, e3, e4) = encode_gnb_uplink_nas_shape ue ue' plain p sht req e in
      let (mac, secret, s1, s2) = protect_shape plain sht _ _ _ _ _ q e1 in
      let (w0, w1, w2) =
        wrapper_parts lib.epd_mobility_management sht mac _ secret (octets _ _ _ _ _ _ mac s2).0 in
      let same = e2 ∙ uncorrupted req q clean ∙ s1 in
      (
        ap (λ l. byte_at l 6) same ∙ w0,
        ap (λ l. mac_of ue (count_of req (sent_count ue sht)) l) (ap (drop 6) same ∙ w2)
            ∙ s2
            ∙ ap some (sym (ap (λ l. sub_list l 2 6) same ∙ w1)),
        e4,
        e3,
      )

  -- With the corrupted MAC that a test asks for, the network's check fails: octets 2 to 6 are not
  -- the MAC that it computes over the same octets at the same count.
  pub encode_gnb_uplink_nas_fails :
      MacOctets
      → (ue ue' : UeContext) (plain p : List ℕ) (sht : ℕ) (r : UplinkOverrides)
      → r.corrupt_mac ≡ true
      → encode_gnb_uplink_nas lib ue plain sht (some r) ≡ (ue', ok p)
      → lib.nas_mac ue.integrity_alg ue.knas_int
          (count_of (some r) (sent_count ue sht))
          lib.bearer_3gpp
          lib.direction_uplink
          (drop 6 p)
        ≢ some (sub_list p 2 6)
  encode_gnb_uplink_nas_fails octets ue ue' plain p sht r on e bad =
      let (q, e1, e2, e3, e4) = encode_gnb_uplink_nas_shape ue ue' plain p sht (some r) e in
      let (mac, secret, s1, s2) = protect_shape plain sht _ _ _ _ _ q e1 in
      let (four, byte) = octets _ _ _ _ _ _ mac s2 in
      let (c1, c2) =
        corrupt_parts lib.epd_mobility_management sht mac
          (u8 (count_of (some r) (sent_count ue sht))) secret r on four byte in
      let same = e2 ∙ ap (corrupted (some r)) s1 in
      let found =
        ap (λ l. mac_of ue (count_of (some r) (sent_count ue sht)) l) (ap (drop 6) same ∙ c2)
        ∙ s2 in
      c1 (sym (ap (λ l. sub_list l 2 6) same) ∙ some-injective (sym bad ∙ found))
