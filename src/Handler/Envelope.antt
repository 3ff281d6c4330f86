-- ===== src/Handler/Envelope.antt =====
-- `envelope_for`: one GitHub event becomes one job, or none.
mod Examples
pub mod Keys
use omashiki.Common.{
  ℕ, Bool, true, false, not, ◌&&◌, ◌||◌, Option, none, some, List, [], ◌∷◌, ◌++◌, if◌then◌else◌,
  Result, ok, err, ◌>>=◌, ◌>>◌, guard,
}
use omashiki.Common.Int.{ℤ, pos}
use omashiki.Common.Text.{Text, txt, text_eq, is_space, strip, is_empty, or_else}
use omashiki.Json.{
  Json, null, int, str, arr, obj, Items, nil, cons, Fields, end, field, Exception, attribute_error,
  type_error, truthy, py_or, get_attr, as_str, is_int, py_str,
}
use omashiki.Handler.Base.{Error, handler_error, uncaught, Config}
use omashiki.Handler.Slug.{slug}

-- The envelope; its dictionary is `encode_envelope`.
pub record Envelope : Type 0 where
  pub idempotency_key : Text
  pub correlation_id : Text
  pub environment : Text
  pub priority : ℕ
  pub instruction : Text
  pub title : Text
  pub repository : Json
  pub number : Json
  pub url : Json
  pub labels : Items
  pub author : Json
  pub repo : Option Text

abbrev pub empty_dict : Json
empty_dict = obj end

-- `v.get(k)`
abbrev pub get : Json → Text → Result Error Json
get v k = get_attr uncaught v k null

-- `(v.get(k) or {})`
pub get_dict : Json → Text → Result Error Json
get_dict v k = do found ← get v k; ok (py_or found empty_dict)

-- `[label.get("name") for label in ls if label.get("name")]`
pub label_names : Items → Result Error Items
label_names nil = ok nil
label_names (cons label ls) = do
  name ← get label (txt "name")
  names ← label_names ls
  ok (if truthy name then cons name names else names)

-- The same of `issue.get("labels") or []`: a text or a dictionary that is not empty is walked to
-- its first part, which is a text, and no other value can be walked.
pub names_of : Json → Result Error Items
unfolding label_names
names_of (arr ls) = label_names ls
names_of (obj end) = ok nil
names_of (str []) = ok nil
names_of (obj (field k v fs)) = err (uncaught attribute_error)
names_of (str (c ∷ t)) = err (uncaught attribute_error)
names_of v = if truthy v then err (uncaught type_error) else ok nil

-- `(v or "").strip()`
pub stripped : Json → Result Error Text
stripped v = do t ← as_str uncaught (py_or v (str [])); ok (strip is_space t)

-- `v == t` against a text
pub is_text : Json → Text → Bool
is_text (str s) t = text_eq s t
is_text _ t = false

-- Is the event the configured trigger?
pub is_trigger : Json → Config → Result Error Bool
unfolding get_dict
is_trigger event cfg = do
  action ← get event (txt "action")
  if not (is_text action cfg.trigger) then ok false else do
    if not (text_eq cfg.trigger (txt "labeled")) then ok true else do
      label ← get_dict event (txt "label")
      name ← get label (txt "name")
      ok (is_text name cfg.label)

-- `repr` is Python's rendering of a list or dictionary in a text, `lower` is `str.lower`.
module _ (repr : Json → Text) (lower : Text → Text) where
  pub show : Json → Text
  show v = py_str repr v

  -- `title or f"Issue #{number}"`
  pub title_of : Text → Json → Text
  unfolding show
  title_of title number = or_else title (txt "Issue #" ++ show number)

  pub instruction_of : Config → Json → Json → Text → Text → Text
  instruction_of cfg full_name number title body =
      let text = if is_empty body then title else title ++ (10 ∷ 10 ∷ body) in
      elim cfg.instruction [
        | none ↦ text
        | some lead ↦
            if is_empty lead
            then text
            else lead
              ++ (10 ∷ 10 ∷ txt "Issue "
                  ++ (show full_name ++ (txt "#" ++ (show number ++ (txt ": " ++ text)))))
      ]

  -- The last part of the key: "opened", or the id of the label, or else its name.
  pub key_part : Json → Config → Result Error Text
  unfolding get_dict show
  key_part event cfg = if text_eq cfg.trigger (txt "opened") then ok (txt "opened") else do
    label ← get_dict event (txt "label")
    id ← get_attr uncaught label (txt "id") (str cfg.label)
    ok (show id)

  -- `f"github-{repository_id}-{number}-{part}"`
  pub key_of : Json → Json → Text → Text
  unfolding show
  key_of repo_id number part =
      txt "github-" ++ (show repo_id ++ (txt "-" ++ (show number ++ (txt "-" ++ part))))

  pub correlation_of : Json → Json → Text
  correlation_of full_name number = txt "github:" ++ (show full_name ++ (txt "#" ++ show number))

  -- What `envelope_for` does with an event that is work.
  pub build : Json → Config → Result Error Envelope
  unfolding get_dict
  build event cfg = do
    issue ← get_dict event (txt "issue")
    repository ← get_dict event (txt "repository")
    number ← get issue (txt "number")
    full_name ← get repository (txt "full_name")
    guard (is_int number && truthy full_name)
        (handler_error 400 (txt "issue.number and repository.full_name are required"))
    raw_title ← get issue (txt "title")
    given ← stripped raw_title
    let title = title_of given number
    raw_body ← get issue (txt "body")
    body ← stripped raw_body
    repo_id ← get_attr uncaught repository (txt "id") full_name
    part ← key_part event cfg
    url ← get issue (txt "html_url")
    raw_labels ← get issue (txt "labels")
    labels ← names_of raw_labels
    user ← get_dict issue (txt "user")
    author ← get user (txt "login")
    ok (record {
      idempotency_key = key_of repo_id number part;
      correlation_id = correlation_of full_name number;
      environment = cfg.environment;
      priority = 1;
      instruction = instruction_of cfg full_name number title body;
      title = txt "issue-" ++ (show number ++ (txt "-" ++ slug lower title 40));
      repository = full_name;
      number = number;
      url = url;
      labels = labels;
      author = author;
      repo = elim cfg.repo [ none ↦ none | some r ↦ if is_empty r then none else some r ];
    })

  pub envelope_for : Text → Json → Config → Result Error (Option Envelope)
  envelope_for event_name event cfg =
      if not (text_eq event_name (txt "issues")) then ok none else do
        work ← is_trigger event cfg
        if not work then ok none else do envelope ← build event cfg; ok (some envelope)
