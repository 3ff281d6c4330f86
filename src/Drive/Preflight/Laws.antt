-- ===== src/Drive/Preflight/Laws.antt =====
-- What a preflight that passes has found.
use omashiki.Common.{
  ◌≡◌, refl, ◌⊎◌, inl, inr, Bool, true, List, [], ◌∷◌, Result, ok, err, >>=-eq-ok, Bool-cases,
}
use omashiki.Common.Int.{ℤ}
use omashiki.Common.Text.{Text, txt}
use omashiki.Json.{Json}
use omashiki.Drive.Client.{ApiError, Failure, api, json_decode_error, uncaught}
use omashiki.Drive.Preflight.{
  Exit, unhealthy, no_environments, unknown_environment, unknown_repository, from_failure, rows_of,
  names_of, listed, known, must_list, may_list, check_repository, with_repositories, preflight,
}

must_list-listed :
    (exit : List Text → Exit) (t : Text) (names : List Json) {u : Unit {0}}
    → must_list exit t names ≡ ok u
    → listed t names ≡ true
unfolding must_list
must_list-listed exit t names h = elim (Bool-cases (listed t names)) [
  | inl e ↦ e
  | inr e ↦ let (ts, _, bad) = >>=-eq-ok (known names) _ (rw e at h) in cc bad
]

-- A list of the house, by the names of its rows, that is empty or has the name.
pub record HasName (t : Text) (body : Json) : Type 0 where
  pub rows : List Json
  pub rows_got : rows_of body ≡ ok rows
  pub names : List Json
  pub names_got : names_of rows ≡ ok names
  pub has : (names ≡ []) ⊎ (listed t names ≡ true)

may_list-has :
    (exit : List Text → Exit) (t : Text) (names : List Json) {u : Unit {0}}
    → may_list exit t names ≡ ok u
    → (names ≡ []) ⊎ (listed t names ≡ true)
unfolding may_list
may_list-has exit t [] h = inl refl
may_list-has exit t (v ∷ vs) h = inr (must_list-listed exit t (v ∷ vs) h)

-- The repository is known, or the house does not list its repositories.
pub data RepositoryFits (repo : Text) : Result Failure Json → Type 0 where
  not_listed : (e : ApiError) → RepositoryFits repo (err (api e))
  listed_there : (body : Json) → HasName repo body → RepositoryFits repo (ok body)

pub record Passed (fetch : Text → Result Failure Json) (environment repo : Text) : Type 0 where
  pub health : Json
  pub healthy : fetch (txt "/api/v1/health") ≡ ok health
  pub body : Json
  pub answered : fetch (txt "/api/v1/environments") ≡ ok body
  pub environments : List Json
  pub environments_got : rows_of body ≡ ok environments
  pub names : List Json
  pub names_got : names_of environments ≡ ok names
  pub registered : listed environment names ≡ true
  pub repository : RepositoryFits repo (fetch (txt "/api/v1/repositories"))

from_failure-eq-ok :
    {A : Type 0} (f : ApiError → Exit) (r : Result Failure A) {a : A}
    → from_failure f r ≡ ok a
    → r ≡ ok a
unfolding from_failure
from_failure-eq-ok f (ok a) h = cc
from_failure-eq-ok f (err (api e)) h = cc
from_failure-eq-ok f (err json_decode_error) h = cc
from_failure-eq-ok f (err (uncaught e)) h = cc

with_repositories-RepositoryFits :
    (environment repo : Text) (limit : ℤ) (rows : List Json) (r : Result Failure Json) {note : Bool}
    → with_repositories environment repo limit rows r ≡ ok note
    → RepositoryFits repo r
unfolding with_repositories check_repository
with_repositories-RepositoryFits environment repo limit rows (ok body) h =
    let (found, got, h1) = >>=-eq-ok (rows_of body) _ h in
    let (names, named, h2) = >>=-eq-ok (names_of found) _ h1 in
    let (_, checked, h3) = >>=-eq-ok (may_list unknown_repository repo names) _ h2 in
    listed_there body (record {
      rows = found;
      rows_got = got;
      names = names;
      names_got = named;
      has = may_list-has unknown_repository repo names checked;
    })
with_repositories-RepositoryFits environment repo limit rows (err (api e)) h = not_listed e
with_repositories-RepositoryFits environment repo limit rows (err json_decode_error) h = cc
with_repositories-RepositoryFits environment repo limit rows (err (uncaught e)) h = cc

-- `preflight` returns only if the house is healthy, it lists the environment, and it lists the
-- repository, or no repository, or the question for repositories ends in an `ApiError`, whether the
-- house has answered it or not.
pub preflight-Passed :
    (fetch : Text → Result Failure Json) (environment repo : Text) (limit : ℤ) (note : Bool)
    → preflight fetch environment repo limit ≡ ok note
    → Passed fetch environment repo
unfolding preflight
preflight-Passed fetch environment repo limit note h =
    let (health, healthy, h1) =
      >>=-eq-ok (from_failure unhealthy (fetch (txt "/api/v1/health"))) _ h in
    let (body, answered, h2) =
      >>=-eq-ok (from_failure no_environments (fetch (txt "/api/v1/environments"))) _ h1 in
    let (environments, got, h3) = >>=-eq-ok (rows_of body) _ h2 in
    let (names, named, h4) = >>=-eq-ok (names_of environments) _ h3 in
    let (_, checked, h5) = >>=-eq-ok (must_list unknown_environment environment names) _ h4 in
    record {
      health = health;
      healthy = from_failure-eq-ok unhealthy _ healthy;
      body = body;
      answered = from_failure-eq-ok no_environments _ answered;
      environments = environments;
      environments_got = got;
      names = names;
      names_got = named;
      registered = must_list-listed unknown_environment environment names checked;
      repository = with_repositories-RepositoryFits environment repo limit environments _ h5;
    }
