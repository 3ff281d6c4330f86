-- ===== src/Vm/Pattern.antt =====
-- The regular expressions of the virtual machine tools, each as a test of the whole text.
use omashiki.Common.{ℕ, Bool, false, ◌&&◌, ◌||◌, [], ◌∷◌, leb, ◌==◌, length, all}
use omashiki.Common.Text.{Text}

-- A character class by the characters that it has beside letters and digits
abbrev pub is_lower : ℕ → Bool
is_lower c = leb 97 c && leb c 122

abbrev pub is_upper : ℕ → Bool
is_upper c = leb 65 c && leb c 90

abbrev pub is_digit : ℕ → Bool
is_digit c = leb 48 c && leb c 57

abbrev pub is_alphanumeric : ℕ → Bool
is_alphanumeric c = is_lower c || is_upper c || is_digit c

-- `^[0-9a-f]{64}$`
abbrev pub is_hex : ℕ → Bool
is_hex c = is_digit c || (leb 97 c && leb c 102)

unfoldable pub is_sha256 : Text → Bool
is_sha256 t = (length t == 64) && all is_hex t

-- A first character, and at most so many others.
unfoldable pub starts_with_rest : (ℕ → Bool) → (ℕ → Bool) → ℕ → Text → Bool
starts_with_rest first later limit [] = false
starts_with_rest first later limit (c ∷ t) = first c && (all later t && leb (length t) limit)

-- `^[a-z0-9][a-z0-9-]{0,62}$`
unfoldable pub is_safe_name : Text → Bool
unfolding starts_with_rest
is_safe_name t =
    starts_with_rest (λ c. is_lower c || is_digit c) (λ c. is_lower c || is_digit c || c == 45) 62 t

-- `^[a-z0-9][a-z0-9._/-]{0,127}$`
unfoldable pub is_safe_image : Text → Bool
unfolding starts_with_rest
is_safe_image t =
    starts_with_rest (λ c. is_lower c || is_digit c)
      (λ c. is_lower c || is_digit c || c == 46 || c == 95 || c == 47 || c == 45) 127 t

-- `[A-Za-z0-9][A-Za-z0-9_.-]{0,126}`
unfoldable pub is_volume_prefix : Text → Bool
unfolding starts_with_rest
is_volume_prefix t =
    starts_with_rest is_alphanumeric (λ c. is_alphanumeric c || c == 95 || c == 46 || c == 45) 126 t
