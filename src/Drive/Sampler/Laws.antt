-- ===== src/Drive/Sampler/Laws.antt =====
-- The peak against the samples.
use omashiki.Common.{
  ℕ, suc, ◌+◌, ◌*◌, ◌≤◌, ◌≡◌, refl, sym, ap, ◌∙◌, subst, Option, none, some, List, [], ◌∷◌, ◌++◌,
  length, ltb, if◌then◌else◌, Result, ok, err, All, All-append, arith, ok_some_injective,
}
use omashiki.Common.Text.{Text, txt, text_eq}
use omashiki.Json.{
  Json, null, arr, obj, Items, nil, cons, end, field, elements, py_or, truthy, get_attr, get_or,
  find,
}
use omashiki.Drive.Client.{Failure, api, json_decode_error, uncaught}
use omashiki.Drive.Sampler.{
  Sample, Sampler, list_from, list_status, list_path, iterate, counts, record_counts, after_counts,
  sample_once, run,
}

-- The greatest number of the samples, 0 without one.
unfoldable pub greatest : List Sample → ℕ
greatest [] = 0
greatest (x ∷ xs) = let rest = greatest xs in if ltb rest x.active then x.active else rest

greatest-append :
    (xs : List Sample) (x : Sample)
    → greatest (xs ++ x ∷ []) ≡ (if ltb (greatest xs) x.active then x.active else greatest xs)
unfolding greatest
greatest-append [] x = refl
greatest-append (y ∷ ys) x = ground (arith, greatest-append ys x)

-- The peak is the greatest number of a sample, and each sample's number is the sum of its two parts.
pub record IsPeak (s : Sampler) : Type 0 where
  pub greatest_eq : s.peak_active ≡ greatest s.samples
  pub sums : All (λ (x : Sample). x.active ≡ x.provisioning + x.running) s.samples

record_counts-IsPeak : (p r : ℕ) (s : Sampler) → IsPeak s → IsPeak (record_counts p r s)
unfolding record_counts
record_counts-IsPeak p r s h = record {
  greatest_eq =
      ap (λ (q : ℕ). if ltb q (p + r) then p + r else q) h.greatest_eq
      ∙ sym (greatest-append s.samples _);
  sums = All-append _ s.samples _ h.sums (refl, tt);
}

after_counts-IsPeak :
    (o : Result Failure (Option (ℕ × ℕ))) (s s' : Sampler)
    → IsPeak s
    → after_counts o s ≡ ok (some s')
    → IsPeak s'
unfolding after_counts
after_counts-IsPeak (ok none) s s' h e = cc
after_counts-IsPeak (ok (some (p, r))) s s' h e =
    subst IsPeak (ok_some_injective e) (record_counts-IsPeak p r s h)
after_counts-IsPeak (err (api x)) s s' h e =
    subst IsPeak (ok_some_injective e) (record { greatest_eq = h.greatest_eq; sums = h.sums })
after_counts-IsPeak (err json_decode_error) s s' h e = cc
after_counts-IsPeak (err (uncaught x)) s s' h e = cc

module _ (repr : Json → Text) where
  next-IsPeak :
      (fuel : ℕ) (later : List (Text → Result Failure Json)) (o : Result Failure (Option Sampler))
      (s' : Sampler)
      → ((s : Sampler) → o ≡ ok (some s) → IsPeak s)
      → ((s : Sampler) → IsPeak s → run repr fuel later s ≡ ok (some s') → IsPeak s')
      → elim o [ err e ↦ err e | ok q ↦ elim q [ none ↦ ok none | some s ↦ run repr fuel later s ] ]
        ≡ ok (some s')
      → IsPeak s'
  next-IsPeak fuel later (err e) s' now ih h = cc
  next-IsPeak fuel later (ok none) s' now ih h = cc
  next-IsPeak fuel later (ok (some s)) s' now ih h = ih s (now s refl) h

  -- Whatever the house answers over time: if the peak is the greatest number of the samples, and
  -- each sample's number the sum of its parts, this stays so.
  pub run-IsPeak :
      (fuel : ℕ) (times : List (Text → Result Failure Json)) (s s' : Sampler)
      → IsPeak s
      → run repr fuel times s ≡ ok (some s')
      → IsPeak s'
  unfolding run sample_once
  run-IsPeak fuel [] s s' h e = subst IsPeak (ok_some_injective e) h
  run-IsPeak fuel (fetch ∷ later) s s' h e =
      next-IsPeak fuel later (after_counts (counts repr fetch fuel) s) s'
        (λ t k. after_counts-IsPeak (counts repr fetch fuel) s t h k)
        (λ t k q. run-IsPeak fuel later t s' k q) e

abbrev page : Items → Json
page rows = obj (field (txt "data") (arr rows) end)

py_or-arr : (rows : Items) → py_or (arr rows) (arr nil) ≡ arr rows
unfolding py_or truthy
py_or-arr nil = refl
py_or-arr (cons v vs) = refl

module _ (repr : Json → Text) (fetch : Text → Result Failure Json) where
  list_status-page :
      (fuel : ℕ) (status : Text) (rows : Items)
      → fetch (list_path repr status null) ≡ ok (page rows)
      → list_status repr fetch (suc fuel) status ≡ ok (some (elements rows))
  unfolding list_status list_from py_or truthy get_attr get_or find txt text_eq iterate
  list_status-page fuel status rows e = rw (e, py_or-arr rows) refl

  -- Jobs that go from provisioning to running between the two queries of a snapshot count twice: if
  -- the house lists the same jobs first as the one and then as the other, the peak is at least
  -- twice their number.
  pub sample_once_doubles :
      (fuel : ℕ) (rows : Items) (s : Sampler)
      → fetch (list_path repr (txt "provisioning") null) ≡ ok (page rows)
      → fetch (list_path repr (txt "running") null) ≡ ok (page rows)
      → (s' : Sampler) × (sample_once repr fetch (suc fuel) s ≡ ok (some s'))
        × (2 * length (elements rows) ≤ s'.peak_active)
  unfolding sample_once counts
  sample_once_doubles fuel rows s p r =
      let n = length (elements rows) in
      (
        record_counts n n s,
        rw
            (
              list_status-page fuel (txt "provisioning") rows p,
              list_status-page fuel (txt "running") rows r,
            )
            (unfold after_counts in refl),
        unfold record_counts in ground arith,
      )
