-- ===== src/Handler/Signature/Exact.antt =====
-- The converse of the terminal webhook's check.
use omashiki.Common.{
  ℕ, ◌*◌, ◌≤◌, ◌≡◌, ◌↔◌, inl, inr, true, false, Option, some, List, [], ◌∷◌, ◌++◌, length, all, ltb,
  ok, arith,
}
use omashiki.Common.Int.{ℤ, ◌-ℤ◌, abs}
use omashiki.Common.Text.{Text, txt, strip_prefix-append}
use omashiki.Json.{Json}
use omashiki.Handler.Signature.{
  Instant, utf8, is_hex, as_digest, v1_of, timestamp_of, verify_omashiki_signature,
}
use omashiki.Handler.Signature.Laws.{
  IsHexDigest, Signs, Verified, all_ascii_of_hex, any_secret_complete, verify_omashiki_sound,
}

abbrev IsDigest : Text → Type 0
IsDigest t = (length t ≡ 64) × (all is_hex t ≡ true)

v1_of-append : (given : Text) → IsDigest given → v1_of (some (txt "v1=" ++ given)) ≡ some given
unfolding v1_of as_digest
v1_of-append given h = rw (strip_prefix-append (txt "v1=") given, h.0, h.1)

not_late : (limit age : ℕ) → age ≤ limit → ltb limit age ≡ false
not_late limit age h = ground arith

module _ (hmac : List ℕ → List ℕ → Text) (digest : IsHexDigest hmac) where
  Signs-IsDigest :
      (secrets : List Text) (input : List ℕ) (given : Text)
      → Signs hmac secrets input given
      → IsDigest given
  Signs-IsDigest [] input given h = absurd h
  Signs-IsDigest (s ∷ ss) input given (plain, inl e) = rw e (digest (utf8 s) input)
  Signs-IsDigest (s ∷ ss) input given (plain, inr k) = Signs-IsDigest ss input given k

  module _ (from_iso : Text → Option Instant) (secrets : List Text) (payload : Json)
      (header : Option Text) (now : ℤ) (max_age : ℕ) where
    verify_omashiki_complete :
        Verified hmac from_iso secrets payload header now max_age
        → verify_omashiki_signature hmac from_iso secrets payload header now max_age ≡ ok tt
    unfolding verify_omashiki_signature timestamp_of
    verify_omashiki_complete v =
        let hex = Signs-IsDigest secrets _ v.given v.signed in
        simp (
          v.sent,
          v1_of-append v.given hex,
          v.stamped,
          v.read,
          not_late (max_age * 1000000) (abs (now -ℤ v.at)) v.fresh,
          v.plain,
          any_secret_complete hmac digest secrets _ v.given (all_ascii_of_hex v.given hex.1)
              v.signed,
        )

    -- If every digest is 64 hexadecimal digits, a terminal webhook passes exactly if its header is "v1="
    -- and a digest that one of the secrets gives for the timestamp, a dot and the canonical payload, the
    -- timestamp reads as a time with an offset no further than the maximal age from now, and neither the
    -- text nor the secrets up to that one have a surrogate.
    pub verify_omashiki_iff :
        (verify_omashiki_signature hmac from_iso secrets payload header now max_age ≡ ok tt)
        ↔ Verified hmac from_iso secrets payload header now max_age
    verify_omashiki_iff = (
      verify_omashiki_sound hmac from_iso secrets payload header now max_age,
      verify_omashiki_complete,
    )
