-- ===== src/Handler/Config/Laws.antt =====
-- What a configuration that starts the handler guarantees.
use omashiki.Common.{
  ◌≡◌, ◌≢◌, refl, sym, ap, ◌∙◌, err, if◌then◌else◌, ◌⊎◌, inl, inr, true, false, Option, none, some,
  [], ◌∷◌, ok, ◌==◌, >>=-eq-ok, ok_injective, subst, arith, Bool-cases,
}
use omashiki.Common.Int.{ℤ}
use omashiki.Common.Text.{
  Text, txt, text_eq_sound, is_space, strip, lstrip, rstrip, is_empty, or_else,
}
use omashiki.Common.Strip.{Starts, Ends, strip-Starts, strip-Ends, rstrip-Ends}
use omashiki.Handler.Base.{Config}
use omashiki.Handler.Config.{
  FileText, is_required, content, os_error, undecodable, env_get, or_none, required, trigger,
  instruction_text, instruction_file, port_of, config_from_env,
}

-- A setting that is not blank, and has no space at either end.
pub record IsSetText (t : Text) : Type 0 where
  pub full : t ≢ []
  pub starts : Starts is_space t
  pub ends : Ends is_space t

-- A setting that may be left out.
abbrev pub IsSetOption : Option Text → Type 0
IsSetOption none = Unit
IsSetOption (some t) = IsSetText t

-- The variable is set, and this is its text without the space at its ends, of which something is left.
pub record IsRead (env : Text → Option Text) (name value : Text) : Type 0 where
  pub raw : Text
  pub set : env name ≡ some raw
  pub stripped : strip is_space raw ≡ value
  pub text : IsSetText value

-- The variable is not set, or blank.
abbrev pub IsBlank : (Text → Option Text) → Text → Type 0
IsBlank env name =
    (env name ≡ none) ⊎ ((raw : Text) × (env name ≡ some raw) × (strip is_space raw ≡ []))

-- The variable's text, or what stands for it where it is blank
abbrev pub IsReadOr : (Text → Option Text) → Text → Text → Text → Type 0
IsReadOr env name default value = IsRead env name value ⊎ (IsBlank env name × (value ≡ default))

-- The variable's text, or None where it is blank
abbrev pub IsReadOption : (Text → Option Text) → Text → Option Text → Type 0
IsReadOption env name none = IsBlank env name
IsReadOption env name (some value) = IsRead env name value

-- The configuration is that of the variables.
pub record IsReady (to_int : Text → Option ℤ) (env : Text → Option Text) (cfg : Config)
    : Type 0 where
  pub address : Text
  pub address_read : IsRead env (txt "OMASHIKI_URL") address
  pub url : cfg.omashiki_url ≡ rstrip (λ c. c == b'/') address
  pub url_ends : Ends (λ c. c == b'/') cfg.omashiki_url
  pub token : IsRead env (txt "OMASHIKI_TOKEN") cfg.omashiki_token
  pub environment : IsRead env (txt "OMASHIKI_ENVIRONMENT") cfg.environment
  pub github : IsRead env (txt "GITHUB_WEBHOOK_SECRET") cfg.github_webhook_secret
  pub repo : IsReadOption env (txt "OMASHIKI_REPO") cfg.repo
  pub webhook : IsReadOption env (txt "OMASHIKI_WEBHOOK_SECRET") cfg.omashiki_webhook_secret
  pub label : IsReadOr env (txt "HANDLER_LABEL") (txt "omashiki") cfg.label
  pub trigger_read : IsReadOr env (txt "HANDLER_TRIGGER") (txt "labeled") cfg.trigger
  pub trigger : (cfg.trigger ≡ txt "labeled") ⊎ (cfg.trigger ≡ txt "opened")
  pub instruction : IsSetOption cfg.instruction
  pub port : to_int (env_get env (txt "HANDLER_PORT") (txt "8090")) ≡ some cfg.port

full_of_not_empty : (t : Text) → is_empty t ≡ false → t ≢ []
full_of_not_empty [] h = cc
full_of_not_empty (c ∷ t) h = cc

strip-IsSetText : (t : Text) → is_empty (strip is_space t) ≡ false → IsSetText (strip is_space t)
strip-IsSetText t h = record {
  full = full_of_not_empty (strip is_space t) h;
  starts = strip-Starts is_space t;
  ends = strip-Ends is_space t;
}

or_none-IsSetOption : (t : Text) → IsSetOption (or_none (strip is_space t))
or_none-IsSetOption t = elim (Bool-cases (is_empty (strip is_space t))) [
  | inl h ↦ rw h tt
  | inr h ↦ rw h (strip-IsSetText t h)
]

nil_of_empty : (t : Text) → is_empty t ≡ true → t ≡ []
nil_of_empty [] h = refl
nil_of_empty (c ∷ t) h = cc

or_else_empty : (s d : Text) → is_empty s ≡ true → or_else s d ≡ d
or_else_empty [] d h = refl
or_else_empty (c ∷ s) d h = cc

or_else_full : (s d : Text) → is_empty s ≡ false → or_else s d ≡ s
or_else_full [] d h = cc
or_else_full (c ∷ s) d h = refl

strip_nil : strip is_space (txt "") ≡ []
unfolding txt strip lstrip rstrip
strip_nil = refl

module _ (env : Text → Option Text) (name : Text) where
  env_get-none : (d : Text) → env name ≡ none → env_get env name d ≡ d
  env_get-none d e = ap (λ (o : Option Text). elim o [ none ↦ d | some v ↦ v ]) e

  env_get-some : (d raw : Text) → env name ≡ some raw → env_get env name d ≡ raw
  env_get-some d raw e = ap (λ (o : Option Text). elim o [ none ↦ d | some v ↦ v ]) e

  required-IsRead : {v : Text} → required env name ≡ ok v → IsRead env name v
  unfolding required
  required-IsRead {v} h = of_value (env name) refl
    where
      Passes : Text → Type 0
      Passes u =
          (if is_empty (strip is_space u) then err (is_required name) else ok (strip is_space u))
          ≡ ok v

      no_text : Passes (txt "") → IsRead env name v
      no_text e = cc (rw strip_nil at e)

      full :
          (raw : Text)
          → env name ≡ some raw
          → (if is_empty (strip is_space raw)
              then err (is_required name)
              else ok (strip is_space raw))
            ≡ ok v
          → IsRead env name v
      full raw set e = elim (Bool-cases (is_empty (strip is_space raw))) [
        | inl blank ↦ cc (rw blank at e)
        | inr some_left ↦
            let same : strip is_space raw ≡ v = ground arith in
            record {
              raw = raw;
              set = set;
              stripped = same;
              text = subst IsSetText same (strip-IsSetText raw some_left);
            }
      ]

      of_value : (o : Option Text) → env name ≡ o → IsRead env name v
      of_value none e = no_text (subst Passes (env_get-none (txt "") e) h)
      of_value (some raw) e = full raw e (subst Passes (env_get-some (txt "") raw e) h)

  -- What is left of a variable that is set
  IsReadOr-set :
      (raw d : Text) → env name ≡ some raw → IsReadOr env name d (or_else (strip is_space raw) d)
  IsReadOr-set raw d set = elim (Bool-cases (is_empty (strip is_space raw))) [
    | inl blank ↦ inr (
      inr (raw, set, nil_of_empty (strip is_space raw) blank),
      or_else_empty (strip is_space raw) d blank,
    )
    | inr left ↦ inl (record {
      raw = raw;
      set = set;
      stripped = sym (or_else_full (strip is_space raw) d left);
      text = rw (or_else_full (strip is_space raw) d left) (strip-IsSetText raw left);
    })
  ]

  or_else-IsReadOr :
      (d : Text)
      → strip is_space d ≡ d
      → IsReadOr env name d (or_else (strip is_space (env_get env name d)) d)
  or_else-IsReadOr d tight = of_value (env name) refl
    where
      same : (t : Text) → or_else t t ≡ t
      same [] = refl
      same (c ∷ t) = refl

      of_value :
          (o : Option Text)
          → env name ≡ o
          → IsReadOr env name d (or_else (strip is_space (env_get env name d)) d)
      of_value none e =
          subst (λ u. IsReadOr env name d (or_else (strip is_space u) d)) (sym (env_get-none d e))
            (inr (inl e, ap (λ t. or_else t d) tight ∙ same d))
      of_value (some raw) e =
          subst (λ u. IsReadOr env name d (or_else (strip is_space u) d))
            (sym (env_get-some d raw e)) (IsReadOr-set raw d e)

  or_none-IsReadOption :
      IsReadOption env name (or_none (strip is_space (env_get env name (txt ""))))
  or_none-IsReadOption = of_value (env name) refl
    where
      of_set :
          (raw : Text) → env name ≡ some raw → IsReadOption env name (or_none (strip is_space raw))
      of_set raw set = elim (Bool-cases (is_empty (strip is_space raw))) [
        | inl blank ↦ rw blank (inr (raw, set, nil_of_empty (strip is_space raw) blank))
        | inr left ↦
            rw left
              (record { raw = raw; set = set; stripped = refl; text = strip-IsSetText raw left })
      ]

      blank_text : env name ≡ none → IsReadOption env name (or_none (strip is_space (txt "")))
      blank_text e = rw strip_nil (inl e)

      of_value :
          (o : Option Text)
          → env name ≡ o
          → IsReadOption env name (or_none (strip is_space (env_get env name (txt ""))))
      of_value none e =
          subst (λ u. IsReadOption env name (or_none (strip is_space u)))
            (sym (env_get-none (txt "") e)) (blank_text e)
      of_value (some raw) e =
          subst (λ u. IsReadOption env name (or_none (strip is_space u)))
            (sym (env_get-some (txt "") raw e)) (of_set raw e)

trigger_known :
    (value : Text) {v : Text}
    → trigger value ≡ ok v
    → (value ≡ v) × ((v ≡ txt "labeled") ⊎ (v ≡ txt "opened"))
unfolding trigger
trigger_known value h = (
  ground arith,
  ground (arith, text_eq_sound value (txt "labeled"), text_eq_sound value (txt "opened")),
)

port_of-ok : (o : Option ℤ) {n : ℤ} → port_of o ≡ ok n → o ≡ some n
unfolding port_of
port_of-ok none h = cc h
port_of-ok (some n) h = ap some (ok_injective h)

label_tight : strip is_space (txt "omashiki") ≡ txt "omashiki"
unfolding strip lstrip rstrip is_space txt
label_tight = refl

trigger_tight : strip is_space (txt "labeled") ≡ txt "labeled"
unfolding strip lstrip rstrip is_space txt
trigger_tight = refl

instruction_text-IsSetOption :
    (r : FileText) {v : Option Text} → instruction_text r ≡ ok v → IsSetOption v
unfolding instruction_text
instruction_text-IsSetOption (content t) h =
    subst IsSetOption (ok_injective h) (or_none-IsSetOption t)
instruction_text-IsSetOption (os_error message) h = cc
instruction_text-IsSetOption undecodable h = cc

instruction_file-IsSetOption :
    (read : Text → FileText) (path : Text) {v : Option Text}
    → instruction_file read path ≡ ok v
    → IsSetOption v
unfolding instruction_file
instruction_file-IsSetOption read path h = elim (Bool-cases (is_empty path)) [
  | inl e ↦ subst IsSetOption (ok_injective (rw e at h)) tt
  | inr e ↦ instruction_text-IsSetOption (read path) (rw e at h)
]

module _ (to_int : Text → Option ℤ) (read : Text → FileText) where
  -- A configuration is built only where each required variable is set to more than space: the token,
  -- the environment and the GitHub secret are these variables without the space at their ends, and the URL
  -- is its variable without the slashes at its end besides. The repository and the webhook secret are their
  -- variables likewise, or None where these are blank; the label and the trigger theirs, or "omashiki" and
  -- "labeled"; the trigger is one of the two, the instruction None or a text that is not blank, and the
  -- port what the variable reads as, or 8090.
  pub config_from_env-IsReady :
      (env : Text → Option Text) (cfg : Config)
      → config_from_env to_int read env ≡ ok cfg
      → IsReady to_int env cfg
  unfolding config_from_env
  config_from_env-IsReady env cfg h =
      let (url, url_set, h1) = >>=-eq-ok (required env (txt "OMASHIKI_URL")) _ h in
      let (token, token_set, h2) = >>=-eq-ok (required env (txt "OMASHIKI_TOKEN")) _ h1 in
      let (home, home_set, h3) = >>=-eq-ok (required env (txt "OMASHIKI_ENVIRONMENT")) _ h2 in
      let (github, github_set, h4) = >>=-eq-ok (required env (txt "GITHUB_WEBHOOK_SECRET")) _ h3 in
      let (chosen, known, h5) = >>=-eq-ok (trigger _) _ h4 in
      let (lead, lead_set, h6) = >>=-eq-ok (instruction_file read _) _ h5 in
      let (port, port_set, h7) = >>=-eq-ok (port_of _) _ h6 in
      let (same, one_of) = trigger_known _ known in
      subst (IsReady to_int env) (ok_injective h7) (record {
        address = url;
        address_read = required-IsRead env (txt "OMASHIKI_URL") url_set;
        url = refl;
        url_ends = rstrip-Ends (λ c. c == b'/') url;
        token = required-IsRead env _ token_set;
        environment = required-IsRead env _ home_set;
        github = required-IsRead env _ github_set;
        repo = or_none-IsReadOption env _;
        webhook = or_none-IsReadOption env _;
        label = or_else-IsReadOr env _ (txt "omashiki") label_tight;
        trigger_read =
            subst (IsReadOr env (txt "HANDLER_TRIGGER") (txt "labeled")) same
              (or_else-IsReadOr env _ (txt "labeled") trigger_tight);
        trigger = one_of;
        instruction = instruction_file-IsSetOption read _ lead_set;
        port = port_of-ok _ port_set;
      })
