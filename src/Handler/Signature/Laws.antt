-- ===== src/Handler/Signature/Laws.antt =====
-- Which requests the two signature checks let through.
use omashiki.Common.{
  ℕ, ◌*◌, ◌≤◌, ◌≡◌, ◌↔◌, refl, ap, sym, ◌∙◌, subst, ◌⊎◌, inl, inr, Bool, true, false, not, ◌&&◌,
  Option, none, some, List, [], ◌∷◌, ◌++◌, length, all, any, ltb, ◌==◌, if◌then◌else◌,
  and-eq-true_iff, Bool-cases, Result, ok, guard, >>=-eq-ok, or_raise, or_raise-eq-ok, guard-eq-ok,
  arith,
}
use omashiki.Common.Int.{ℤ, ◌-ℤ◌, abs}
use omashiki.Common.Text.{
  Text, txt, text_eq, text_eq_sound, text_eq_refl, strip_prefix, strip_prefix_sound,
  strip_prefix-append,
}
use omashiki.Json.{Json, null, str, get_attr}
use omashiki.Json.Canonical.{canonical}
use omashiki.Handler.Base.{uncaught}
use omashiki.Handler.Signature.{
  Instant, aware, naive, compare_digest, encode, utf8, is_surrogate, digest_of, is_hex, as_digest,
  v1_of, replace_z, is_stale, verify_github_signature, any_secret, timestamp_of,
  verify_omashiki_signature,
}

pub all_ascii_of_hex : (t : Text) → all is_hex t ≡ true → all (λ c. ltb c 128) t ≡ true
unfolding is_hex
all_ascii_of_hex [] h = refl
all_ascii_of_hex (c ∷ t) h = ground (arith, all_ascii_of_hex t)

digest_of-some :
    (header : Option Text) (given : Text)
    → digest_of header ≡ some given
    → header ≡ some (txt "sha256=" ++ given)
unfolding digest_of
digest_of-some none given h = cc
digest_of-some (some t) given h = ap some (strip_prefix_sound (txt "sha256=") t given h)

compare_digest-ascii :
    (a b : Text)
    → all (λ c. ltb c 128) a ≡ true
    → all (λ c. ltb c 128) b ≡ true
    → compare_digest a b ≡ ok (text_eq a b)
unfolding compare_digest
compare_digest-ascii a b p q = rw (p, q)

compare_digest-true : (a b : Text) → compare_digest a b ≡ ok true → a ≡ b
unfolding compare_digest
compare_digest-true a b h = ground (arith, text_eq_sound a b)

as_digest-some :
    (o : Option Text) (given : Text)
    → as_digest o ≡ some given
    → (o ≡ some given) × (all is_hex given ≡ true)
unfolding as_digest
as_digest-some none given h = cc
as_digest-some (some t) given h = elim (Bool-cases (length t == 64 && all is_hex t)) [
  | inl e ↦
      let same : t ≡ given = ground arith in
      (ap some same, subst (λ s. all is_hex s ≡ true) same ((and-eq-true_iff _ _).0 e).1)
  | inr e ↦ cc (rw e at h)
]

v1_of-some :
    (header : Option Text) (given : Text)
    → v1_of header ≡ some given
    → (header ≡ some (txt "v1=" ++ given)) × (all is_hex given ≡ true)
unfolding v1_of
v1_of-some none given h = cc
v1_of-some (some t) given h =
    let (found, hex) = as_digest-some (strip_prefix (txt "v1=") t) given h in
    (ap some (strip_prefix_sound (txt "v1=") t given found), hex)

if-same {κ} : {E : Type κ} {A : Type 0} {r : Result E A} (b : Bool) → (if b then r else r) ≡ r
if-same true = refl
if-same false = refl

encode-plain :
    (t : Text) (bytes : List ℕ)
    → encode t ≡ ok bytes
    → (any is_surrogate t ≡ false) × (utf8 t ≡ bytes)
unfolding encode
encode-plain t bytes h = ground arith

encode-bytes : (t : Text) → any is_surrogate t ≡ false → encode t ≡ ok (utf8 t)
unfolding encode
encode-bytes t h = rw h refl

module _ (hmac : List ℕ → List ℕ → Text) where
  -- What the code relies on of `hmac.new(…).hexdigest()`: 64 hexadecimal digits.
  abbrev pub IsHexDigest : Type 0
  IsHexDigest =
      (key body : List ℕ) → (length (hmac key body) ≡ 64) × (all is_hex (hmac key body) ≡ true)

  -- If every digest is 64 hexadecimal digits, a GitHub delivery passes exactly if the secret has no
  -- surrogate and its header is "sha256=" and the digest of the raw body under the secret's UTF-8 bytes.
  pub verify_github_iff :
      (digest : IsHexDigest) (secret : Text) (body : List ℕ) (header : Option Text)
      → (verify_github_signature hmac secret body header ≡ ok tt) ↔ (
          (any is_surrogate secret ≡ false)
          × (header ≡ some (txt "sha256=" ++ hmac (utf8 secret) body)))
  unfolding verify_github_signature
  verify_github_iff digest secret body header = (sound, complete)
    where
      sound :
          verify_github_signature hmac secret body header ≡ ok tt
          → (any is_surrogate secret ≡ false)
            × (header ≡ some (txt "sha256=" ++ hmac (utf8 secret) body))
      sound h =
          let (given, found, h1) = >>=-eq-ok (or_raise (digest_of header) _) _ h in
          let (key, encoded, h2) = >>=-eq-ok (encode secret) _ h1 in
          let (same, compared, h3) = >>=-eq-ok (compare_digest (hmac key body) given) _ h2 in
          let right = guard-eq-ok same _ h3 in
          let (plain, bytes) = encode-plain secret key encoded in
          let equal : hmac (utf8 secret) body ≡ given =
            ap (λ k. hmac k body) bytes
            ∙ compare_digest-true (hmac key body) given (rw right at compared) in
          (
            plain,
            rw equal (digest_of-some header given (or_raise-eq-ok (digest_of header) _ found)),
          )

      complete :
          (any is_surrogate secret ≡ false)
            × (header ≡ some (txt "sha256=" ++ hmac (utf8 secret) body))
          → verify_github_signature hmac secret body header ≡ ok tt
      complete (plain, e) =
          let own = hmac (utf8 secret) body in
          let ascii = all_ascii_of_hex own (digest (utf8 secret) body).1 in
          rw (
            e,
            digest_of,
            strip_prefix-append,
            encode-bytes secret plain,
            compare_digest-ascii own own ascii ascii,
            text_eq_refl,
          )

  -- One of the secrets gives the digest; it and the ones before have no surrogate.
  abbrev pub Signs : List Text → List ℕ → Text → Type 0
  Signs [] input given = ⊥
  Signs (secret ∷ secrets) input given =
      (any is_surrogate secret ≡ false)
      × ((given ≡ hmac (utf8 secret) input) ⊎ Signs secrets input given)

  any_secret_sound :
      (secrets : List Text) (input : List ℕ) (given : Text)
      → any_secret hmac secrets input given ≡ ok tt
      → Signs secrets input given
  unfolding any_secret
  any_secret_sound [] input given h = cc
  any_secret_sound (secret ∷ secrets) input given h =
      let (key, encoded, h0) = >>=-eq-ok (encode secret) _ h in
      let (same, compared, h1) = >>=-eq-ok (compare_digest (hmac key input) given) _ h0 in
      let (plain, bytes) = encode-plain secret key encoded in
      (
        plain,
        elim (Bool-cases same) [
          | inl e ↦ inl (
              sym (
                ap (λ k. hmac k input) bytes
                ∙ compare_digest-true (hmac key input) given (rw e at compared)))
          | inr e ↦ inr (any_secret_sound secrets input given (rw e at h1))
        ],
      )

  pub any_secret_complete :
      (digest : IsHexDigest) (secrets : List Text) (input : List ℕ) (given : Text)
      → all (λ c. ltb c 128) given ≡ true
      → Signs secrets input given
      → any_secret hmac secrets input given ≡ ok tt
  unfolding any_secret
  any_secret_complete digest [] input given ascii h = absurd h
  any_secret_complete digest (secret ∷ secrets) input given ascii (plain, inl e) =
      let own = all_ascii_of_hex (hmac (utf8 secret) input) (digest (utf8 secret) input).1 in
      rw (
        encode-bytes secret plain,
        compare_digest-ascii (hmac (utf8 secret) input) given own ascii,
        e,
        text_eq_refl,
      )
  any_secret_complete digest (secret ∷ secrets) input given ascii (plain, inr k) =
      let own = all_ascii_of_hex (hmac (utf8 secret) input) (digest (utf8 secret) input).1 in
      rw
        (
          encode-bytes secret plain,
          compare_digest-ascii (hmac (utf8 secret) input) given own ascii,
          any_secret_complete digest secrets input given ascii k,
        )
        (if-same (text_eq (hmac (utf8 secret) input) given))

  -- A terminal webhook that is genuine and fresh.
  pub record Verified (from_iso : Text → Option Instant) (secrets : List Text) (payload : Json)
      (header : Option Text) (now : ℤ) (max_age : ℕ) : Type 0 where
    pub given : Text
    pub sent : header ≡ some (txt "v1=" ++ given)
    pub timestamp : Text
    pub stamped : get_attr uncaught payload (txt "timestamp") null ≡ ok (str timestamp)
    pub at : ℤ
    pub read : from_iso (replace_z timestamp) ≡ some (aware at)
    pub fresh : abs (now -ℤ at) ≤ max_age * 1000000
    pub plain : any is_surrogate (timestamp ++ (txt "." ++ canonical payload)) ≡ false
    pub signed : Signs secrets (utf8 (timestamp ++ (txt "." ++ canonical payload))) given

  is_stale-fresh :
      (now : ℤ) (max_age : ℕ) (i : Instant)
      → is_stale now max_age i ≡ ok false
      → (at : ℤ) × (i ≡ aware at) × (abs (now -ℤ at) ≤ max_age * 1000000)
  unfolding is_stale
  is_stale-fresh now max_age (aware at) h = (at, refl, ground arith)
  is_stale-fresh now max_age (naive at) h = cc

  timestamp_of-str : (v : Json) (t : Text) → timestamp_of v ≡ ok t → v ≡ str t
  unfolding timestamp_of
  timestamp_of-str (str s) t h = cc
  timestamp_of-str _ t h = cc

  not-true : (b : Bool) → not b ≡ true → b ≡ false
  not-true true h = cc
  not-true false h = refl

  module _ (from_iso : Text → Option Instant) (secrets : List Text) (payload : Json)
      (header : Option Text) (now : ℤ) (max_age : ℕ) where
    pub verify_omashiki_sound :
        verify_omashiki_signature hmac from_iso secrets payload header now max_age ≡ ok tt
        → Verified from_iso secrets payload header now max_age
    unfolding verify_omashiki_signature
    verify_omashiki_sound h =
        let (given, found, h1) = >>=-eq-ok (or_raise (v1_of header) _) _ h in
        let (value, got, h2) = >>=-eq-ok (get_attr uncaught payload (txt "timestamp") null) _ h1 in
        let (timestamp, text, h3) = >>=-eq-ok (timestamp_of value) _ h2 in
        let (at, parsed, h4) = >>=-eq-ok (or_raise (from_iso (replace_z timestamp)) _) _ h3 in
        let (stale, age, h5) = >>=-eq-ok (is_stale now max_age at) _ h4 in
        let (_, passed, h6) = >>=-eq-ok (guard (not stale) _) _ h5 in
        let (bytes, encoded, h7) = >>=-eq-ok (encode _) _ h6 in
        let young = not-true stale (guard-eq-ok (not stale) _ passed) in
        let (when, same, fresh) = is_stale-fresh now max_age at (rw young at age) in
        let (plain, bytes_eq) = encode-plain _ bytes encoded in
        record {
          given = given;
          sent = (v1_of-some header given (or_raise-eq-ok (v1_of header) _ found)).0;
          timestamp = timestamp;
          stamped = got ∙ ap ok (timestamp_of-str value timestamp text);
          at = when;
          read = or_raise-eq-ok (from_iso (replace_z timestamp)) _ parsed ∙ ap some same;
          fresh = fresh;
          plain = plain;
          signed = rw bytes_eq (any_secret_sound secrets bytes given h7);
        }
