-- ===== src/Handler/Base.antt =====
-- What every part of the handler shares: its errors and its configuration.
use omashiki.Common.{ℕ, Option}
use omashiki.Common.Int.{ℤ}
use omashiki.Common.Text.{Text}
use omashiki.Json.{Exception}

-- What a request can raise: `HandlerError(status, message)`, `json.JSONDecodeError`, and what
-- `do_POST` does not catch.
pub data Error : Type 0 where
  handler_error : ℕ → Text → Error
  json_decode_error : Error
  uncaught : Exception → Error

-- The dictionary of `config_from_env`; `None` is `none`.
pub record Config : Type 0 where
  pub omashiki_url : Text
  pub omashiki_token : Text
  pub environment : Text
  pub repo : Option Text
  pub omashiki_webhook_secret : Option Text
  pub github_webhook_secret : Text
  pub trigger : Text
  pub label : Text
  pub instruction : Option Text
  pub port : ℤ
