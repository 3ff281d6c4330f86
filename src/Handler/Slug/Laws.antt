-- ===== src/Handler/Slug/Laws.antt =====
-- What a slug looks like, and that a slug is its own slug.
use omashiki.Common.{
  ℕ, zero, suc, ◌≤◌, ◌≡◌, ◌≢◌, refl, ap, ◌⊎◌, inl, inr, Bool, true, false, [], ◌∷◌, max, take,
  length, length-take, take-length_le, arith, Bool-cases,
}
use omashiki.Common.Text.{Text, txt, lstrip, rstrip, strip, or_else}
use omashiki.Common.Strip.{
  Starts, Ends, rstrip-Ends, rstrip-eq-take, strip_of, rstrip_of_Ends, length-rstrip,
}
use omashiki.Handler.Slug.{slug_char, is_dash, collapse, slug}

-- Only [a-z0-9] and single dashes; after a dash (`true`) there is no second one.
abbrev pub Dashed : Bool → Text → Type 0
Dashed after [] = Unit
Dashed after (c ∷ t) =
    ((slug_char c ≡ true) × Dashed false t) ⊎ ((is_dash c ≡ true) × (after ≡ false) × Dashed true t)

slug_char-not_dash : (c : ℕ) → slug_char c ≡ true → is_dash c ≡ false
unfolding slug_char is_dash
slug_char-not_dash c h = ground arith

dash-not_slug_char : (c : ℕ) → is_dash c ≡ true → slug_char c ≡ false
unfolding slug_char is_dash
dash-not_slug_char c h = ground arith

is_dash-eq : (c : ℕ) → is_dash c ≡ true → c ≡ b'-'
unfolding is_dash
is_dash-eq c h = ground arith

collapse-Dashed : (b : Bool) (t : Text) → Dashed b (collapse b t)
unfolding collapse
collapse-Dashed b [] = tt
collapse-Dashed true (c ∷ t) = elim (Bool-cases (slug_char c)) [
  | inl h ↦ rw h (inl (h, collapse-Dashed false t))
  | inr h ↦ rw h (collapse-Dashed true t)
]
collapse-Dashed false (c ∷ t) = elim (Bool-cases (slug_char c)) [
  | inl h ↦ rw h (inl (h, collapse-Dashed false t))
  | inr h ↦ rw h (inr (unfold is_dash in refl, refl, collapse-Dashed true t))
]

Dashed-weaken : (t : Text) → Dashed true t → Dashed false t
Dashed-weaken [] h = tt
Dashed-weaken (c ∷ t) h = ground arith

Dashed-lstrip : (t : Text) → Dashed false t → Dashed true (lstrip is_dash t)
unfolding lstrip
Dashed-lstrip [] h = tt
Dashed-lstrip (c ∷ t) (inl (h, k)) =
    let other : is_dash c ≡ false = slug_char-not_dash c h in rw other (inl (h, k))
Dashed-lstrip (c ∷ t) (inr (h, e, k)) = rw h (Dashed-lstrip t (Dashed-weaken t k))

Dashed-take : (b : Bool) (n : ℕ) (t : Text) → Dashed b t → Dashed b (take n t)
Dashed-take b zero t h = tt
Dashed-take b (suc n) [] h = tt
Dashed-take b (suc n) (c ∷ t) (inl (h, k)) = inl (h, Dashed-take false n t k)
Dashed-take b (suc n) (c ∷ t) (inr (h, e, k)) = inr (h, e, Dashed-take true n t k)

Dashed-rstrip : (b : Bool) (t : Text) → Dashed b t → Dashed b (rstrip is_dash t)
Dashed-rstrip b t h = let (n, e) = rstrip-eq-take is_dash t in rw e (Dashed-take b n t h)

-- The form of a slug: not empty, only [a-z0-9] and single dashes, none of them at either end.
pub record IsSlug (t : Text) : Type 0 where
  pub dashed : Dashed true t
  pub ends : Ends is_dash t
  pub full : t ≢ []

issue-IsSlug : IsSlug (txt "issue")
unfolding txt slug_char is_dash
issue-IsSlug = record {
  dashed = inl (refl, inl (refl, inl (refl, inl (refl, inl (refl, tt)))));
  ends = refl;
  full = cc;
}

or_else-IsSlug : (t : Text) → Dashed true t → Ends is_dash t → IsSlug (or_else t (txt "issue"))
or_else-IsSlug [] d e = issue-IsSlug
or_else-IsSlug (c ∷ t) d e = record { dashed = d; ends = e; full = cc }

-- The dashed text before it is cut: no dash at either end, no two in a row.
strip-Dashed : (t : Text) → Dashed true (strip is_dash (collapse false t))
unfolding strip
strip-Dashed t =
    Dashed-rstrip true (lstrip is_dash (collapse false t))
      (Dashed-lstrip (collapse false t) (collapse-Dashed false t))

length-or_else : (t : Text) (n : ℕ) → length t ≤ n → length (or_else t (txt "issue")) ≤ max n 5
unfolding txt
length-or_else [] n h = omega arith
length-or_else (c ∷ t) n h = omega arith

-- Whatever the text, its slug is not empty, has only [a-z0-9] and single dashes, none at either
-- end, and is no longer than the limit, or than "issue" where the limit is shorter.
pub slug-IsSlug :
    (lower : Text → Text) (text : Text) (limit : ℕ)
    → IsSlug (slug lower text limit) × (length (slug lower text limit) ≤ max limit 5)
unfolding slug
slug-IsSlug lower text limit =
    let whole = strip is_dash (collapse false (lower text)) in
    let cut = take limit whole in
    (
      or_else-IsSlug (rstrip is_dash cut)
          (Dashed-rstrip true cut (Dashed-take true limit whole (strip-Dashed (lower text))))
          (rstrip-Ends is_dash cut),
      length-or_else (rstrip is_dash cut) limit
          (omega (arith, length-rstrip is_dash cut, length-take limit whole)),
    )

collapse_of_Dashed : (b : Bool) (t : Text) → Dashed b t → collapse b t ≡ t
unfolding collapse
collapse_of_Dashed b [] h = refl
collapse_of_Dashed b (c ∷ t) (inl (h, k)) = rw h (ap (λ r. c ∷ r) (collapse_of_Dashed false t k))
collapse_of_Dashed b (c ∷ t) (inr (h, e, k)) =
    rw (dash-not_slug_char c h, e, is_dash-eq c h)
      (ap (λ r. b'-' ∷ r) (collapse_of_Dashed true t k))

Dashed-Starts : (t : Text) → Dashed true t → Starts is_dash t
Dashed-Starts [] h = tt
Dashed-Starts (c ∷ t) (inl (h, k)) = slug_char-not_dash c h
Dashed-Starts (c ∷ t) (inr (h, e, k)) = cc

or_else_full : (t d : Text) → t ≢ [] → or_else t d ≡ t
or_else_full [] d h = absurd (h refl)
or_else_full (c ∷ t) d h = refl

-- A slug within the limit is its own slug, where lowering leaves it alone.
slug_of_IsSlug :
    (lower : Text → Text) (t : Text) (limit : ℕ)
    → lower t ≡ t
    → IsSlug t
    → length t ≤ limit
    → slug lower t limit ≡ t
unfolding slug
slug_of_IsSlug lower t limit low s short =
    rw
      (
        low,
        collapse_of_Dashed false t (Dashed-weaken t s.dashed),
        strip_of is_dash t (Dashed-Starts t s.dashed) s.ends,
        take-length_le limit t short,
        rstrip_of_Ends is_dash t s.ends,
      )
      (or_else_full t (txt "issue") s.full)

-- For a limit of five or more a slug is its own slug, if `str.lower` leaves texts alone that have
-- only [a-z0-9] and dashes.
pub slug_idempotent :
    (lower : Text → Text) (text : Text) (limit : ℕ)
    → ((t : Text) → Dashed true t → lower t ≡ t)
    → 5 ≤ limit
    → slug lower (slug lower text limit) limit ≡ slug lower text limit
slug_idempotent lower text limit low long =
    let (s, short) = slug-IsSlug lower text limit in
    slug_of_IsSlug lower (slug lower text limit) limit (low _ s.dashed) s (omega arith)
