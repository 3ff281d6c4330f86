-- ===== src/Vm/Frame.antt =====
-- vm/prepared.py: the frames that `preparation_fingerprint` puts its inputs in before it hashes them.
pub mod Laws
use omashiki.Common.{
  ℕ, zero, suc, ◌/◌, ◌%◌, Option, none, some, List, [], ◌∷◌, ◌++◌, ◌==◌, if◌then◌else◌, length,
  and_then,
}
use omashiki.Common.Text.{Text}

-- `n.to_bytes(width, "big")`; a number that needs more bytes is an OverflowError.
unfoldable pub to_bytes : ℕ → ℕ → Option (List ℕ)
to_bytes zero n = if n == 0 then some [] else none
to_bytes (suc w) n = and_then (to_bytes w (n / 256)) (λ front. some (front ++ (n % 256) ∷ []))

-- The length of a block in so many bytes, and the block
unfoldable pub block : ℕ → List ℕ → Option (List ℕ)
unfolding to_bytes
block width content = and_then (to_bytes width (length content)) (λ size. some (size ++ content))

-- What the digest is updated with for one input
unfoldable pub frame : Text × List ℕ → Option (List ℕ)
unfolding block
frame (label, content) =
    and_then (block 4 label) (λ head. and_then (block 8 content) (λ body. some (head ++ body)))

-- What it is updated with for all of them
unfoldable pub frames : List (Text × List ℕ) → Option (List ℕ)
unfolding frame
frames [] = some []
frames (input ∷ inputs) =
    and_then (frame input) (λ first. and_then (frames inputs) (λ rest. some (first ++ rest)))
