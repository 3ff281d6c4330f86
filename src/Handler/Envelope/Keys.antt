-- ===== src/Handler/Envelope/Keys.antt =====
-- Which events are work, and when two of them are the same submission.
use omashiki.Common.{
  ℕ, ◌≡◌, ◌≢◌, refl, ap, ◌∙◌, ◌⊎◌, inl, inr, true, ◌&&◌, some, Bool-cases, ok, guard, >>=-eq-ok,
  ok_injective, ok_some_injective, guard-eq-ok, and-eq-true_iff, subst,
}
use omashiki.Common.Int.{pos}
use omashiki.Common.Decimal.{
  decimal_injective, decimal-IsDigit, append_dash_injective, append_injective,
}
use omashiki.Common.Text.{decimal, Text, txt, text_eq, text_eq_sound, text_eq_iff}
use omashiki.Json.{Json, int, str, py_str, get_attr, truthy, is_int}
use omashiki.Handler.Base.{uncaught, Config}
use omashiki.Handler.Envelope.{
  Envelope, get, get_dict, is_text, is_trigger, key_part, key_of, correlation_of, build,
  envelope_for, names_of, stripped,
}

is_text-str : (v : Json) (t : Text) → is_text v t ≡ true → v ≡ str t
unfolding is_text
is_text-str (str s) t h = ap str (text_eq_sound s t h)
is_text-str _ t h = cc

abbrev pub Labelled : Json → Config → Type 0
Labelled event cfg =
    (cfg.trigger ≢ txt "labeled")
    ⊎ ((label : Json) × (get_dict event (txt "label") ≡ ok label)
        × (get label (txt "name") ≡ ok (str cfg.label)))

-- The event is the configured trigger: the action is the trigger's, and under "labeled" the label
-- has the configured name.
pub record IsWork (event_name : Text) (event : Json) (cfg : Config) : Type 0 where
  pub issues : event_name ≡ txt "issues"
  pub action : get event (txt "action") ≡ ok (str cfg.trigger)
  pub labelled : Labelled event cfg

is_trigger-IsWork :
    (event : Json) (cfg : Config)
    → is_trigger event cfg ≡ ok true
    → (get event (txt "action") ≡ ok (str cfg.trigger)) × Labelled event cfg
unfolding is_trigger
is_trigger-IsWork event cfg h =
    let (action, found, h1) = >>=-eq-ok (get event (txt "action")) _ h in
    elim (Bool-cases (is_text action cfg.trigger)) [
      | inr e ↦ cc (rw e at h1)
      | inl e ↦ (
        found ∙ ap ok (is_text-str action cfg.trigger e),
        elim (Bool-cases (text_eq cfg.trigger (txt "labeled"))) [
          | inr other ↦ inl (λ same. cc (other, (text_eq_iff cfg.trigger (txt "labeled")).1 same))
          | inl labeled ↦
              let (label, got, h2) =
                >>=-eq-ok (get_dict event (txt "label")) _ (rw (e, labeled) at h1) in
              let (name, read, h3) = >>=-eq-ok (get label (txt "name")) _ h2 in
              inr (label, got, read ∙ ap ok (is_text-str name cfg.label (ok_injective h3)))
        ],
      )
    ]

is_text_refl : (t : Text) → is_text (str t) t ≡ true
unfolding is_text
is_text_refl t = (text_eq_iff t t).1 refl

module _ (repr : Json → Text) (lower : Text → Text) where
  -- The parts of a job that identify it, and the values in the event that they come from.
  pub record Identifies (event : Json) (cfg : Config) (envelope : Envelope) : Type 0 where
    pub issue : Json
    pub issue_got : get_dict event (txt "issue") ≡ ok issue
    pub repository : Json
    pub repository_got : get_dict event (txt "repository") ≡ ok repository
    pub number : Json
    pub number_got : get issue (txt "number") ≡ ok number
    pub number_int : is_int number ≡ true
    pub full_name : Json
    pub full_name_got : get repository (txt "full_name") ≡ ok full_name
    pub full_name_set : truthy full_name ≡ true
    pub repo_id : Json
    pub repo_id_got : get_attr uncaught repository (txt "id") full_name ≡ ok repo_id
    pub part : Text
    pub part_got : key_part repr lower event cfg ≡ ok part
    pub key : envelope.idempotency_key ≡ key_of repr lower repo_id number part
    pub correlation : envelope.correlation_id ≡ correlation_of repr lower full_name number
    pub environment : envelope.environment ≡ cfg.environment

  build-Identifies :
      (event : Json) (cfg : Config) (envelope : Envelope)
      → build repr lower event cfg ≡ ok envelope
      → Identifies event cfg envelope
  unfolding build
  build-Identifies event cfg envelope h =
      let (issue, issue_got, h1) = >>=-eq-ok (get_dict event (txt "issue")) _ h in
      let (repository, repository_got, h2) = >>=-eq-ok (get_dict event (txt "repository")) _ h1 in
      let (number, number_got, h3) = >>=-eq-ok (get issue (txt "number")) _ h2 in
      let (full_name, full_name_got, h4) = >>=-eq-ok (get repository (txt "full_name")) _ h3 in
      let (_, passed, h5) = >>=-eq-ok (guard (is_int number && truthy full_name) _) _ h4 in
      let checks = (and-eq-true_iff _ _).0 (guard-eq-ok _ _ passed) in
      let (raw_title, _, h6) = >>=-eq-ok (get issue (txt "title")) _ h5 in
      let (given, _, h7) = >>=-eq-ok (stripped raw_title) _ h6 in
      let (raw_body, _, h8) = >>=-eq-ok (get issue (txt "body")) _ h7 in
      let (body, _, h9) = >>=-eq-ok (stripped raw_body) _ h8 in
      let (repo_id, repo_id_got, h10) =
        >>=-eq-ok (get_attr uncaught repository (txt "id") full_name) _ h9 in
      let (part, part_got, h11) = >>=-eq-ok (key_part repr lower event cfg) _ h10 in
      let (url, _, h12) = >>=-eq-ok (get issue (txt "html_url")) _ h11 in
      let (raw_labels, _, h13) = >>=-eq-ok (get issue (txt "labels")) _ h12 in
      let (labels, _, h14) = >>=-eq-ok (names_of raw_labels) _ h13 in
      let (user, _, h15) = >>=-eq-ok (get_dict issue (txt "user")) _ h14 in
      let (author, _, h16) = >>=-eq-ok (get user (txt "login")) _ h15 in
      subst (Identifies event cfg) (ok_injective h16) (record {
        issue = issue;
        issue_got = issue_got;
        repository = repository;
        repository_got = repository_got;
        number = number;
        number_got = number_got;
        number_int = checks.0;
        full_name = full_name;
        full_name_got = full_name_got;
        full_name_set = checks.1;
        repo_id = repo_id;
        repo_id_got = repo_id_got;
        part = part;
        part_got = part_got;
        key = refl;
        correlation = refl;
        environment = refl;
      })

  -- A job comes only of an event that is work: an "issues" event whose action is the trigger and,
  -- under "labeled", whose label has the configured name. Its issue number is an integer, its
  -- repository's full name is not empty, and the job's key, correlation and environment are made
  -- of the repository's id (or full name) and full name, the number, the label's id (or name) or
  -- "opened", and the configured environment.
  pub envelope_for-Identifies :
      (event_name : Text) (event : Json) (cfg : Config) (envelope : Envelope)
      → envelope_for repr lower event_name event cfg ≡ ok (some envelope)
      → IsWork event_name event cfg × Identifies event cfg envelope
  unfolding envelope_for
  envelope_for-Identifies event_name event cfg envelope h =
      elim (Bool-cases (text_eq event_name (txt "issues"))) [
        | inr e ↦ cc (rw e at h)
        | inl e ↦
            let (work, found, h1) = >>=-eq-ok (is_trigger event cfg) _ (rw e at h) in
            elim (Bool-cases work) [
              | inr w ↦ cc (rw w at h1)
              | inl w ↦
                  let (built, made, h2) = >>=-eq-ok (build repr lower event cfg) _ (rw w at h1) in
                  let (action, labelled) = is_trigger-IsWork event cfg (rw w at found) in
                  let same : built ≡ envelope = ok_some_injective h2 in
                  (
                    record {
                      issues = text_eq_sound event_name (txt "issues") e;
                      action = action;
                      labelled = labelled;
                    },
                    subst (Identifies event cfg) same (build-Identifies event cfg built made),
                  )
            ]
      ]

  -- A key tells the repository, the issue and its last part apart: if two keys whose repository ids
  -- and issue numbers are integers, not negative, are one text, then the ids, the numbers and the last
  -- parts are the same.
  pub key_of_injective :
      (id id' number number' : ℕ) (part part' : Text)
      → key_of repr lower (int (pos id)) (int (pos number)) part
        ≡ key_of repr lower (int (pos id')) (int (pos number')) part'
      → (id ≡ id') × (number ≡ number') × (part ≡ part')
  unfolding key_of py_str txt
  key_of_injective id id' number number' part part' e =
      let (ids, rest) =
        append_dash_injective (decimal id) (decimal id') _ _ (decimal-IsDigit id)
          (decimal-IsDigit id') (append_injective (txt "github-") e) in
      let (numbers, parts) =
        append_dash_injective (decimal number) (decimal number') _ _ (decimal-IsDigit number)
          (decimal-IsDigit number') rest in
      (decimal_injective id id' ids, decimal_injective number number' numbers, parts)
