-- ===== src/Handler/Slug.antt =====
-- `slug` of the handler. `lower` stands for `str.lower`, whose Unicode tables are Python's.
mod Examples
pub mod Laws
use omashiki.Common.{
  ℕ, Bool, true, false, ◌&&◌, ◌||◌, List, [], ◌∷◌, leb, ◌==◌, take, if◌then◌else◌,
}
use omashiki.Common.Text.{Text, txt, strip, rstrip, or_else}

-- [a-z0-9]
pub slug_char : ℕ → Bool
slug_char c = (leb b'a' c && leb c b'z') || (leb b'0' c && leb c b'9')

pub is_dash : ℕ → Bool
is_dash c = c == b'-'

-- `re.sub(r"[^a-z0-9]+", "-", t)`; the flag says that the run has its dash already.
pub collapse : Bool → Text → Text
collapse in_run [] = []
collapse in_run (c ∷ t) =
    let kept = c ∷ collapse false t in
    let more = collapse true t in if slug_char c then kept else if in_run then more else b'-' ∷ more

pub slug : (Text → Text) → Text → ℕ → Text
slug lower text limit =
    let dashed = strip is_dash (collapse false (lower text)) in
    or_else (rstrip is_dash (take limit dashed)) (txt "issue")
