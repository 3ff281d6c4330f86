-- ===== src/Handler/Signature/Examples.antt =====
-- Signatures under a digest that is always the same.
use omashiki.Common.{ℕ, any, false, ◌≡◌, ◌↔◌, refl, Option, some, List, [], ◌∷◌, ◌++◌, ok}
use omashiki.Common.Int.{pos}
use omashiki.Common.Text.{Text, txt}
use omashiki.Json.{Json, str, obj, end, field}
use omashiki.Handler.Signature.{
  Instant, aware, is_hex, utf8, is_surrogate, verify_github_signature, verify_omashiki_signature,
}
use omashiki.Handler.Signature.Laws.{IsHexDigest, Verified, verify_github_iff}
use omashiki.Handler.Signature.Exact.{verify_omashiki_iff}

abbrev digest : Text
digest = txt "0123456789abcdef0123456789abcdef0123456789abcdef0123456789abcdef"

abbrev hmac : List ℕ → List ℕ → Text
hmac key body = digest

digest_of_hmac : IsHexDigest hmac
unfolding is_hex txt
digest_of_hmac = λ key body. (refl, refl)

abbrev header : Option Text
header = some (txt "sha256=" ++ digest)

verify_github_iff_example : (verify_github_signature hmac (txt "s") (1 ∷ []) header ≡ ok tt) ↔ (
    (any is_surrogate (txt "s") ≡ false)
    × (header ≡ some (txt "sha256=" ++ hmac (utf8 (txt "s")) (1 ∷ []))))
verify_github_iff_example = verify_github_iff hmac digest_of_hmac (txt "s") (1 ∷ []) header

abbrev stamp : Text
stamp = txt "2026-01-01T00:00:00"

abbrev payload : Json
payload = obj (field (txt "timestamp") (str stamp) end)

abbrev webhook : Option Text
webhook = some (txt "v1=" ++ digest)

abbrev reads_aware : Text → Option Instant
reads_aware t = some (aware (pos 1000))

verify_omashiki_iff_example :
    (verify_omashiki_signature hmac reads_aware (txt "s" ∷ []) payload webhook (pos 2000) 300
      ≡ ok tt)
    ↔ Verified hmac reads_aware (txt "s" ∷ []) payload webhook (pos 2000) 300
verify_omashiki_iff_example =
    verify_omashiki_iff hmac digest_of_hmac reads_aware (txt "s" ∷ []) payload webhook (pos 2000)
      300
