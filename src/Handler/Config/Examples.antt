-- ===== src/Handler/Config/Examples.antt =====
-- A start with the required variables and a label.
use omashiki.Common.{◌≡◌, refl, Option, none, some, if◌then◌else◌, ok}
use omashiki.Common.Int.{ℤ, pos}
use omashiki.Common.Text.{Text, txt, text_eq, is_space, lstrip, rstrip, strip}
use omashiki.Handler.Base.{Config}
use omashiki.Handler.Config.{
  FileText, content, required, trigger, instruction_text, instruction_file, port_of,
  config_from_env,
}
use omashiki.Handler.Config.Laws.{IsReady, config_from_env-IsReady}

runs : Unit {0}
unfolding config_from_env required trigger instruction_text instruction_file port_of txt text_eq
    is_space lstrip rstrip strip
runs = tt

abbrev env : Text → Option Text
env name =
    if text_eq name (txt "OMASHIKI_URL")
    then some (txt "http://127.0.0.1:4010/")
    else if text_eq name (txt "OMASHIKI_TOKEN")
    then some (txt "token")
    else if text_eq name (txt "OMASHIKI_ENVIRONMENT")
    then some (txt "ruby")
    else if text_eq name (txt "GITHUB_WEBHOOK_SECRET")
    then some (txt "secret")
    else if text_eq name (txt "HANDLER_LABEL")
    then some (txt " ai ")
    else none

abbrev to_int : Text → Option ℤ
to_int t = some (pos 8090)

abbrev read : Text → FileText
read path = content (txt "")

started : (cfg : Config) × (config_from_env to_int read env ≡ ok cfg)
unfolding runs
started = (_, refl)

config_from_env-IsReady_example : IsReady to_int env started.0
config_from_env-IsReady_example = config_from_env-IsReady to_int read env started.0 started.1
