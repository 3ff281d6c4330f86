-- ===== src/Handler/Config.antt =====
-- `config_from_env`, `trigger` and `instruction_file`
mod Examples
pub mod Laws
use omashiki.Common.{
  ℕ, Bool, true, false, ◌||◌, ◌==◌, Option, none, some, if◌then◌else◌, Result, ok, err, ◌>>=◌,
}
use omashiki.Common.Int.{ℤ}
use omashiki.Common.Text.{Text, txt, text_eq, is_space, strip, rstrip, is_empty, or_else}
use omashiki.Handler.Base.{Config}

-- How a start ends early: `SystemExit` about a variable, or an exception that is not caught.
pub data Failure : Type 0 where
  is_required : Text → Failure
  bad_trigger : Failure
  bad_instruction : Text → Failure
  not_text : Failure
  bad_port : Failure

-- What reading the instruction file gives.
pub data FileText : Type 0 where
  content : Text → FileText
  os_error : Text → FileText
  undecodable : FileText

-- `env.get(name, default)`
abbrev pub env_get : (Text → Option Text) → Text → Text → Text
env_get env name d = elim (env name) [ none ↦ d | some v ↦ v ]

-- `t or None`
abbrev pub or_none : Text → Option Text
or_none t = if is_empty t then none else some t

pub required : (Text → Option Text) → Text → Result Failure Text
required env name =
    let value = strip is_space (env_get env name (txt "")) in
    if is_empty value then err (is_required name) else ok value

pub trigger : Text → Result Failure Text
trigger value =
    if text_eq value (txt "labeled") || text_eq value (txt "opened")
    then ok value
    else err bad_trigger

-- What the text of the file becomes.
pub instruction_text : FileText → Result Failure (Option Text)
instruction_text (content t) = ok (or_none (strip is_space t))
instruction_text (os_error message) = err (bad_instruction message)
instruction_text undecodable = err not_text

pub instruction_file : (Text → FileText) → Text → Result Failure (Option Text)
unfolding instruction_text
instruction_file read path = if is_empty path then ok none else instruction_text (read path)

pub port_of : Option ℤ → Result Failure ℤ
port_of none = err bad_port
port_of (some n) = ok n

-- `to_int` is Python's `int` of a text, `read` the file system.
module _ (to_int : Text → Option ℤ) (read : Text → FileText) where
  pub config_from_env : (Text → Option Text) → Result Failure Config
  config_from_env env = do
    url ← required env (txt "OMASHIKI_URL")
    token ← required env (txt "OMASHIKI_TOKEN")
    environment ← required env (txt "OMASHIKI_ENVIRONMENT")
    github ← required env (txt "GITHUB_WEBHOOK_SECRET")
    chosen ← trigger (
        or_else (strip is_space (env_get env (txt "HANDLER_TRIGGER") (txt "labeled")))
          (txt "labeled"))
    instruction ←
        instruction_file read (strip is_space (env_get env (txt "HANDLER_INSTRUCTION") (txt "")))
    port ← port_of (to_int (env_get env (txt "HANDLER_PORT") (txt "8090")))
    ok (record {
      omashiki_url = rstrip (λ c. c == b'/') url;
      omashiki_token = token;
      environment = environment;
      repo = or_none (strip is_space (env_get env (txt "OMASHIKI_REPO") (txt "")));
      omashiki_webhook_secret =
          or_none (strip is_space (env_get env (txt "OMASHIKI_WEBHOOK_SECRET") (txt "")));
      github_webhook_secret = github;
      trigger = chosen;
      label =
          or_else (strip is_space (env_get env (txt "HANDLER_LABEL") (txt "omashiki")))
            (txt "omashiki");
      instruction = instruction;
      port = port;
    })
