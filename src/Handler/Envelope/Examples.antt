-- ===== src/Handler/Envelope/Examples.antt =====
-- An issue that gets its label.
use omashiki.Common.{ℕ, ◌≡◌, refl, none, some, ok}
use omashiki.Common.Int.{pos}
use omashiki.Common.Text.{
  Text, txt, text_eq, is_space, lstrip, rstrip, strip, decimal_from, decimal,
}
use omashiki.Json.{
  Json, int, str, arr, obj, nil, cons, end, field, truthy, py_or, find, get_or, get_attr, as_str,
  is_int, show_int, py_str,
}
use omashiki.Handler.Base.{Config}
use omashiki.Handler.Envelope.{
  Envelope, label_names, names_of, stripped, is_text, is_trigger, show, title_of, instruction_of,
  key_part, key_of, correlation_of, build, envelope_for,
}
use omashiki.Handler.Envelope.Keys.{IsWork, Identifies, envelope_for-Identifies, key_of_injective}

runs : Unit {0}
unfolding label_names names_of stripped is_text is_trigger show title_of instruction_of key_part
    key_of correlation_of build envelope_for txt text_eq is_space lstrip rstrip strip decimal_from
    decimal truthy py_or find get_or get_attr as_str is_int show_int py_str
runs = tt

abbrev repr : Json → Text
repr v = txt "{}"

abbrev lower : Text → Text
lower t = t

abbrev cfg : Config
cfg = record {
  omashiki_url = txt "http://127.0.0.1:4010";
  omashiki_token = txt "token";
  environment = txt "ruby";
  repo = none;
  omashiki_webhook_secret = none;
  github_webhook_secret = txt "secret";
  trigger = txt "labeled";
  label = txt "omashiki";
  instruction = none;
  port = pos 8090;
}

abbrev label : Json
label = obj (field (txt "name") (str (txt "omashiki")) (field (txt "id") (int (pos 5)) end))

abbrev event : Json
event = obj (
    field (txt "action") (str (txt "labeled")) (
      field (txt "label") label (
        field (txt "issue")
          (obj (
            field (txt "number") (int (pos 7)) (
              field (txt "title") (str (txt " fix it "))
                (field (txt "labels") (arr (cons label nil)) end))))
          (field (txt "repository")
            (obj (
              field (txt "id") (int (pos 42))
                (field (txt "full_name") (str (txt "acme/shop")) end)))
            end))))

work :
    (envelope : Envelope) × (envelope_for repr lower (txt "issues") event cfg ≡ ok (some envelope))
    × (envelope.idempotency_key ≡ txt "github-42-7-5")
unfolding runs
work = (_, refl, refl)

envelope_for-Identifies_example :
    IsWork (txt "issues") event cfg × Identifies repr lower event cfg work.0
envelope_for-Identifies_example =
    envelope_for-Identifies repr lower (txt "issues") event cfg work.0 work.1

abbrev id : ℕ
id = 42

abbrev number : ℕ
number = 7

key_of_injective_example : (id ≡ 42) × (number ≡ 7) × (txt "5" ≡ txt "5")
key_of_injective_example = key_of_injective repr lower id 42 number 7 (txt "5") (txt "5") refl
