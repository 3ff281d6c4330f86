-- ===== src/Handler/Server/Examples.antt =====
-- A delivery to the handler, with answers that stand for the outside.
use omashiki.Common.{none, some, [], ◌∷◌}
use omashiki.Common.Int.{pos}
use omashiki.Common.Text.{txt}
use omashiki.Json.{dict, value, Json, int, str, obj}
use omashiki.Handler.Base.{Config}
use omashiki.Handler.Signature.{aware}
use omashiki.Handler.Server.{Request, World, answered, do_post}
use omashiki.Handler.Server.Laws.{Explained, do_post-Explained}

abbrev label : Json
label = obj (dict ((txt "name", str (txt "omashiki")) ∷ (txt "id", int (pos 5)) ∷ []))

abbrev issue : Json
issue = obj (dict ((txt "number", int (pos 7)) ∷ (txt "title", str (txt "fix it")) ∷ []))

abbrev repository : Json
repository = obj (dict ((txt "id", int (pos 42)) ∷ (txt "full_name", str (txt "acme/shop")) ∷ []))

abbrev event : Json
event = obj (
    dict (
      (txt "action", str (txt "labeled"))
      ∷ (txt "label", label)
      ∷ (txt "issue", issue)
      ∷ (txt "repository", repository)
      ∷ []))

abbrev job : Json
job = obj (dict ((txt "data", obj (dict ((txt "id", int (pos 9)) ∷ []))) ∷ []))

abbrev world : World
world = record {
  to_int = λ t. some (pos 2);
  loads = λ body. value event;
  loads_text = λ t. value job;
  repr = λ v. txt "{}";
  lower = λ t. t;
  hmac = λ secret body. txt "0123456789abcdef0123456789abcdef0123456789abcdef0123456789abcdef";
  from_iso = λ t. some (aware (pos 1000));
  now = pos 2000;
  opener = λ job. answered (txt "{}");
  request_line = λ status. txt "POST /github";
}

abbrev cfg : Config
cfg = record {
  omashiki_url = txt "http://127.0.0.1:4010";
  omashiki_token = txt "token";
  environment = txt "ruby";
  repo = none;
  omashiki_webhook_secret = some (txt "hook");
  github_webhook_secret = txt "secret";
  trigger = txt "labeled";
  label = txt "omashiki";
  instruction = none;
  port = pos 8090;
}

abbrev delivery : Request
delivery = record {
  path = txt "/github";
  content_length = some (txt "2");
  hub_signature =
      some (txt "sha256=0123456789abcdef0123456789abcdef0123456789abcdef0123456789abcdef");
  github_event = some (txt "issues");
  webhook_signature = none;
  read = λ n. b'{' ∷ b'}' ∷ [];
}

do_post-Explained_example : Explained world cfg delivery (do_post world cfg delivery []).1
do_post-Explained_example = do_post-Explained world cfg delivery
