-- ===== src/Enroll/Main/Laws.antt =====
-- What an exit status of 0 means.
use omashiki.Common.{
  ℕ, ◌≡◌, refl, ◌⊎◌, inl, inr, Bool, true, false, not, ◌&&◌, Option, none, some, Result, ok, err,
  >>=-eq-ok, Bool-cases, arith, ◌==◌, ==_iff, sym, ap, ◌∙◌,
}
use omashiki.Common.Text.{Text, is_space, strip, is_empty}
use omashiki.Json.{Json}
use omashiki.Enroll.{
  Error, value_error, undecodable, enroll_error, url_error, uncaught, is_loopback_manager_url,
  build_enroll_request, Request, Wire, responded, http_error, unreachable, raised, read_wire,
  parse_error_body, enroll,
}
use omashiki.Enroll.Health.{wait_for_health}
use omashiki.Enroll.Main.{
  Args, World, Stop, require_setting, raise, status_of, then_enroll, attempt, main,
}

-- A setting that is given: the text without the space around it, which leaves something.
pub record Given (o : Option Text) (value : Text) : Type 0 where
  pub text : Text
  pub given : o ≡ some text
  pub stripped : value ≡ strip is_space text
  pub full : is_empty value ≡ false

require_setting-Given :
    (o : Option Text) (name value : Text) → require_setting o name ≡ ok value → Given o value
unfolding require_setting
require_setting-Given none name value h = cc
require_setting-Given (some t) name value h = elim (Bool-cases (is_empty (strip is_space t))) [
  | inl e ↦ cc (rw e at h)
  | inr e ↦
      let same : strip is_space t ≡ value = cc (rw e at h) in
      record { text = t; given = refl; stripped = sym same; full = rw (sym same) e }
]

module _ (w : World) where
  read_wire-204 :
      (wire : Wire) {u : Unit {0}}
      → read_wire w.repr w.loads w.decode wire ≡ ok u
      → wire ≡ responded 204
  unfolding read_wire
  read_wire-204 (responded status) h = elim (Bool-cases (status == 204)) [
    | inl e ↦ ap responded ((==_iff status 204).0 e)
    | inr e ↦ cc (rw e at h)
  ]
  read_wire-204 (http_error status raw) h =
      let ((code, message), _, h1) = >>=-eq-ok (parse_error_body w.repr w.loads w.decode raw) _ h in
      cc h1
  read_wire-204 (unreachable reason) h = cc
  read_wire-204 (raised e) h = cc

  -- The worker has been enrolled: it answered 204 to the request made of the settings, where the
  -- house is not on loopback or this is allowed, and where its health was waited for or skipped.
  pub record Enrolled (fuel : ℕ) (args : Args) : Type 0 where
    pub worker_url : Text
    pub worker_url_given : Given args.worker_url worker_url
    pub manager_url : Text
    pub manager_url_given : Given args.manager_url manager_url
    pub worker_token : Text
    pub worker_token_given : Given args.worker_token worker_token
    pub enroll_secret : Text
    pub enroll_secret_given : Given args.enroll_secret enroll_secret
    pub reachable :
        (is_loopback_manager_url w.names manager_url ≡ ok false) ⊎ (args.allow_localhost ≡ true)
    pub health :
        (args.skip_health ≡ true)
        ⊎ ((v : Json) × (wait_for_health w.repr worker_url w.turn w.deadline fuel ≡ ok (some v)))
    pub request : Request
    pub built :
        build_enroll_request worker_url enroll_secret manager_url worker_token args.manager_id
        ≡ ok request
    pub accepted : w.post request ≡ responded 204

  enroll-accepted :
      (worker_url enroll_secret manager_url worker_token : Text) (manager_id : Option Text)
      {u : Unit {0}}
      → enroll w.repr w.loads w.decode w.post worker_url enroll_secret manager_url worker_token
          manager_id
        ≡ ok u
      → (r : Request) × (build_enroll_request worker_url enroll_secret manager_url worker_token
            manager_id
          ≡ ok r)
        × (w.post r ≡ responded 204)
  unfolding enroll
  enroll-accepted worker_url enroll_secret manager_url worker_token manager_id h =
      let (r, built, h1) =
        >>=-eq-ok
          (build_enroll_request worker_url enroll_secret manager_url worker_token manager_id) _ h in
      (r, built, read_wire-204 (w.post r) h1)

  then_enroll-eq :
      (health : Option Json) (r : Result Error (Unit {0})) {u : Unit {0}}
      → then_enroll health r ≡ ok (some u)
      → ((v : Json) × (health ≡ some v)) × ((t : Unit {0}) × (r ≡ ok t))
  then_enroll-eq none r h = cc
  then_enroll-eq (some v) r h = let (t, e, _) = >>=-eq-ok r _ h in ((v, refl), (t, e))

  status_of-zero :
      (r : Result Error (Option (Unit {0})))
      → status_of r ≡ ok (some 0)
      → (u : Unit {0}) × (r ≡ ok (some u))
  unfolding status_of
  status_of-zero (ok none) h = cc
  status_of-zero (ok (some u)) h = (u, refl)
  status_of-zero (err (value_error m)) h = absurd (ground arith)
  status_of-zero (err undecodable) h = absurd (ground arith)
  status_of-zero (err (enroll_error status code m)) h = absurd (ground arith)
  status_of-zero (err (url_error reason)) h = absurd (ground arith)
  status_of-zero (err (uncaught e)) h = cc

  attempt-done :
      (fuel : ℕ) (skip : Bool) (worker_url enroll_secret manager_url worker_token : Text)
      (manager_id : Option Text) {u : Unit {0}}
      → attempt w fuel skip worker_url enroll_secret manager_url worker_token manager_id
        ≡ ok (some u)
      → ((skip ≡ true)
          ⊎ ((v : Json) × (wait_for_health w.repr worker_url w.turn w.deadline fuel ≡ ok (some v))))
        × ((t : Unit {0}) × (enroll w.repr w.loads w.decode w.post worker_url enroll_secret
                manager_url worker_token manager_id
              ≡ ok t))
  unfolding attempt
  attempt-done fuel skip worker_url enroll_secret manager_url worker_token manager_id h =
      elim (Bool-cases skip) [
        | inl e ↦
            let (t, k, _) =
              >>=-eq-ok
                (enroll w.repr w.loads w.decode w.post worker_url enroll_secret manager_url
                  worker_token manager_id)
                _ (rw e at h) in
            (inl e, (t, k))
        | inr e ↦
            let (health, waited, h1) =
              >>=-eq-ok (wait_for_health w.repr worker_url w.turn w.deadline fuel) _ (rw e at h) in
            let ((v, same), done) = then_enroll-eq health _ h1 in
            (inr (v, waited ∙ ap ok same), done)
      ]

  raise-eq-ok : {A : Type 0} (r : Result Error A) {a : A} → raise r ≡ ok a → r ≡ ok a
  raise-eq-ok (ok a) h = cc
  raise-eq-ok (err e) h = cc

  -- The script ends with status 0 only if the worker has been enrolled.
  pub main-Enrolled : (fuel : ℕ) (args : Args) → main w fuel args ≡ ok (some 0) → Enrolled fuel args
  unfolding main
  main-Enrolled fuel args h =
      let (worker_url, e1, h1) = >>=-eq-ok (require_setting args.worker_url _) _ h in
      let (manager_url, e2, h2) = >>=-eq-ok (require_setting args.manager_url _) _ h1 in
      let (worker_token, e3, h3) = >>=-eq-ok (require_setting args.worker_token _) _ h2 in
      let (enroll_secret, e4, h4) = >>=-eq-ok (require_setting args.enroll_secret _) _ h3 in
      let (loopback, e5, h5) =
        >>=-eq-ok (raise (is_loopback_manager_url w.names manager_url)) _ h4 in
      elim (Bool-cases (loopback && not args.allow_localhost)) [
        | inl b ↦ absurd (refused (rw b at h5))
        | inr b ↦
            let (u, done) = status_of-zero _ (rw b at h5) in
            let (health, (t, enrolled)) =
              attempt-done fuel args.skip_health worker_url enroll_secret manager_url worker_token
                args.manager_id done in
            let (request, built, accepted) =
              enroll-accepted worker_url enroll_secret manager_url worker_token args.manager_id
                enrolled in
            record {
              worker_url = worker_url;
              worker_url_given = require_setting-Given _ _ _ e1;
              manager_url = manager_url;
              manager_url_given = require_setting-Given _ _ _ e2;
              worker_token = worker_token;
              worker_token_given = require_setting-Given _ _ _ e3;
              enroll_secret = enroll_secret;
              enroll_secret_given = require_setting-Given _ _ _ e4;
              reachable = may loopback args.allow_localhost (raise-eq-ok _ e5) b;
              health = health;
              request = request;
              built = built;
              accepted = accepted;
            }
      ]
    where
      refused : ◌≡◌ {A = Result Stop (Option ℕ)} (ok (some 1)) (ok (some 0)) → ⊥
      refused e = ground arith

      may :
          (loopback allow : Bool) {r : Result Error Bool}
          → r ≡ ok loopback
          → (loopback && not allow) ≡ false
          → (r ≡ ok false) ⊎ (allow ≡ true)
      may false allow e b = inl e
      may true true e b = inr refl
      may true false e b = cc
