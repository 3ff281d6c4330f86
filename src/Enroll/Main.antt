-- ===== src/Enroll/Main.antt =====
-- `require_setting` and `main`, once the command line is read.
mod Examples
pub mod Laws
use omashiki.Common.{
  ℕ, Bool, true, false, not, ◌&&◌, Option, none, some, List, ◌++◌, if◌then◌else◌, Result, ok, err,
  ◌>>=◌, ◌>>◌, guard,
}
use omashiki.Common.Int.{ℤ}
use omashiki.Common.Text.{Text, txt, is_space, strip, is_empty}
use omashiki.Json.{Json, Exception, Loaded}
use omashiki.Enroll.{
  Error, value_error, undecodable, enroll_error, url_error, uncaught, Names,
  is_loopback_manager_url, Request, Wire, enroll,
}
use omashiki.Enroll.Health.{Turn, wait_for_health}

-- The options, each the flag or the variable of the environment.
pub record Args : Type 0 where
  pub worker_url : Option Text
  pub manager_url : Option Text
  pub worker_token : Option Text
  pub enroll_secret : Option Text
  pub manager_id : Option Text
  pub skip_health : Bool
  pub allow_localhost : Bool

-- What `main` needs from outside; `deadline` is the time at which the wait for health ends.
pub record World : Type 0 where
  pub names : Names
  pub repr : Json → Text
  pub loads : List ℕ → Loaded
  pub decode : List ℕ → Text
  pub post : Request → Wire
  pub turn : ℕ → Turn
  pub deadline : ℤ

-- How `main` ends without a status: `SystemExit` about a setting, or an exception.
pub data Stop : Type 0 where
  missing : Text → Stop
  raised : Error → Stop

-- `require_setting`
pub require_setting : Option Text → Text → Result Stop Text
require_setting none name = err (missing name)
require_setting (some t) name =
    let value = strip is_space t in if is_empty value then err (missing name) else ok value

abbrev pub raise : {A : Type 0} → Result Error A → Result Stop A
raise (ok a) = ok a
raise (err e) = err (raised e)

-- The `except` clauses, and what follows the `try`
pub status_of : Result Error (Option (Unit {0})) → Result Stop (Option ℕ)
status_of (ok none) = ok none
status_of (ok (some u)) = ok (some 0)
status_of (err (value_error m)) = ok (some 1)
status_of (err undecodable) = ok (some 1)
status_of (err (enroll_error status code m)) = ok (some 1)
status_of (err (url_error reason)) = ok (some 1)
status_of (err (uncaught e)) = err (raised (uncaught e))

abbrev pub then_enroll : Option Json → Result Error (Unit {0}) → Result Error (Option (Unit {0}))
then_enroll none r = ok none
then_enroll (some v) r = do u ← r; ok (some u)

module _ (w : World) where
  -- The body of the `try`; none is a wait that the fuel does not end.
  pub attempt :
      ℕ → Bool → Text → Text → Text → Text → Option Text → Result Error (Option (Unit {0}))
  attempt fuel skip worker_url enroll_secret manager_url worker_token manager_id =
      let enrolled =
        enroll w.repr w.loads w.decode w.post worker_url enroll_secret manager_url worker_token
          manager_id in
      if skip then (do u ← enrolled; ok (some u)) else do
        health ← wait_for_health w.repr worker_url w.turn w.deadline fuel
        then_enroll health enrolled

  -- `main`; none is a status that the fuel does not reach.
  pub main : ℕ → Args → Result Stop (Option ℕ)
  unfolding require_setting status_of attempt
  main fuel args = do
    worker_url ← require_setting args.worker_url (txt "OMASHIKI_WORKER_URL")
    manager_url ← require_setting args.manager_url (txt "OMASHIKI_MANAGER_URL")
    worker_token ← require_setting args.worker_token (txt "OMASHIKI_WORKER_TOKEN")
    enroll_secret ← require_setting args.enroll_secret (txt "OMASHIKI_ENROLL_SECRET")
    loopback ← raise (is_loopback_manager_url w.names manager_url)
    if loopback && not args.allow_localhost
        then ok (some 1)
        else status_of (
            attempt fuel args.skip_health worker_url enroll_secret manager_url worker_token
              args.manager_id)
