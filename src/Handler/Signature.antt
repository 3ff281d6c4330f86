-- ===== src/Handler/Signature.antt =====
-- `verify_github_signature` and `verify_omashiki_signature`. The digest is a parameter: `hmac key
-- bytes` is the hexadecimal HMAC-SHA256 of the bytes. So is `datetime.fromisoformat`.
mod Examples
pub mod Laws
pub mod Exact
use omashiki.Common.{
  ℕ, ◌+◌, ◌*◌, ◌/◌, ◌%◌, Bool, true, false, not, ◌&&◌, ◌||◌, Option, none, some, List, [], ◌∷◌,
  ◌++◌, leb, ltb, ◌==◌, if◌then◌else◌, length, take, drop, all, any, Result, ok, err, ◌>>=◌, ◌>>◌,
  guard, or_raise,
}
use omashiki.Common.Int.{ℤ, ◌-ℤ◌, abs}
use omashiki.Common.Text.{Text, txt, text_eq, strip_prefix}
use omashiki.Json.{Json, null, str, get_attr, Exception, type_error, unicode_error}
use omashiki.Json.Canonical.{canonical}
use omashiki.Handler.Base.{Error, handler_error, uncaught}

-- `hmac.compare_digest` of two texts, which must be ASCII
pub compare_digest : Text → Text → Result Error Bool
compare_digest a b =
    if all (λ c. ltb c 128) a && all (λ c. ltb c 128) b
    then ok (text_eq a b)
    else err (uncaught type_error)

-- The UTF-8 bytes of a character.
utf8_char : ℕ → List ℕ
utf8_char c =
    if ltb c 128
    then c ∷ []
    else if ltb c 2048
    then (192 + c / 64) ∷ (128 + c % 64) ∷ []
    else if ltb c 65536
    then (224 + c / 4096) ∷ (128 + c / 64 % 64) ∷ (128 + c % 64) ∷ []
    else (240 + c / 262144) ∷ (128 + c / 4096 % 64) ∷ (128 + c / 64 % 64) ∷ (128 + c % 64) ∷ []

pub utf8 : Text → List ℕ
unfolding utf8_char
utf8 [] = []
utf8 (c ∷ t) = utf8_char c ++ utf8 t

pub is_surrogate : ℕ → Bool
is_surrogate c = leb 55296 c && leb c 57343

-- `t.encode()`: a surrogate has no UTF-8 form.
pub encode : Text → Result Error (List ℕ)
encode t = if any is_surrogate t then err (uncaught unicode_error) else ok (utf8 t)

-- `header[len("sha256="):]`, if the header starts so
pub digest_of : Option Text → Option Text
digest_of none = none
digest_of (some header) = strip_prefix (txt "sha256=") header

-- A digit of [0-9a-f]
pub is_hex : ℕ → Bool
is_hex c = (leb b'0' c && leb c b'9') || (leb b'a' c && leb c b'f')

-- `[0-9a-f]{64}`
pub as_digest : Option Text → Option Text
unfolding is_hex
as_digest none = none
as_digest (some t) = if length t == 64 && all is_hex t then some t else none

-- `re.fullmatch(r"v1=([0-9a-f]{64})", header or "")`: the group
pub v1_of : Option Text → Option Text
unfolding as_digest
v1_of none = none
v1_of (some header) = as_digest (strip_prefix (txt "v1=") header)

-- What `datetime.fromisoformat` reads: a time with an offset, in microseconds since the epoch, or
-- one without.
pub data Instant : Type 0 where
  aware : ℤ → Instant
  naive : ℤ → Instant

-- `timestamp.replace("Z", "+00:00")`
pub replace_z : Text → Text
replace_z [] = []
replace_z (c ∷ t) = let rest = replace_z t in if c == b'Z' then txt "+00:00" ++ rest else c ∷ rest

-- `abs((now - at).total_seconds()) > max_age_seconds`; the subtraction of a time without an offset
-- raises.
pub is_stale : ℤ → ℕ → Instant → Result Error Bool
is_stale now max_age (aware at) = ok (ltb (max_age * 1000000) (abs (now -ℤ at)))
is_stale now max_age (naive at) = err (uncaught type_error)

-- `isinstance(timestamp, str)`, or the error
pub timestamp_of : Json → Result Error Text
timestamp_of (str t) = ok t
timestamp_of _ = err (handler_error 401 (txt "payload.timestamp missing"))

module _ (hmac : List ℕ → List ℕ → Text) where
  pub verify_github_signature : Text → List ℕ → Option Text → Result Error (Unit {0})
  unfolding compare_digest digest_of encode
  verify_github_signature secret body header = do
    given ← or_raise (digest_of header) (handler_error 401 (txt "missing X-Hub-Signature-256"))
    key ← encode secret
    same ← compare_digest (hmac key body) given
    guard same (handler_error 401 (txt "invalid X-Hub-Signature-256"))

  -- The loop over the secrets.
  pub any_secret : List Text → List ℕ → Text → Result Error (Unit {0})
  unfolding compare_digest encode
  any_secret [] input given = err (handler_error 401 (txt "invalid x-webhook-signature"))
  any_secret (secret ∷ secrets) input given = do
    key ← encode secret
    same ← compare_digest (hmac key input) given
    let rest = any_secret secrets input given
    if same then ok tt else rest

  pub verify_omashiki_signature :
      (Text → Option Instant) → List Text → Json → Option Text → ℤ → ℕ → Result Error (Unit {0})
  unfolding timestamp_of v1_of replace_z any_secret is_stale encode
  verify_omashiki_signature from_iso secrets payload header now max_age = do
    given ←
        or_raise (v1_of header) (handler_error 401 (txt "missing or malformed x-webhook-signature"))
    found ← get_attr uncaught payload (txt "timestamp") null
    timestamp ← timestamp_of found
    at ←
        or_raise (from_iso (replace_z timestamp))
          (handler_error 401 (txt "payload.timestamp invalid"))
    stale ← is_stale now max_age at
    guard (not stale) (handler_error 401 (txt "replay or expired"))
    input ← encode (timestamp ++ (txt "." ++ canonical payload))
    any_secret secrets input given
