-- ===== src/Handler/Server/Laws.antt =====
-- What a request can make the handler do.
use omashiki.Common.{
  ℕ, ◌≡◌, refl, ap, ◌∙◌, ◌⊎◌, inl, inr, Bool, true, false, Option, none, some, List, [], ◌∷◌, ◌++◌,
  if◌then◌else◌, Result, ok, err, All, All-append,
}
use omashiki.Common.Text.{Text, txt, text_eq, text_eq_sound}
use omashiki.Json.{dict, Json, bool, str, obj, py_str}
use omashiki.Common.Int.{ℤ}
use omashiki.Handler.Base.{Error, handler_error, json_decode_error, uncaught, Config}
use omashiki.Handler.Terminal.{terminal_line}
use omashiki.Handler.Envelope.{Envelope, envelope_for, get, get_dict}
use omashiki.Handler.Signature.{verify_github_signature, verify_omashiki_signature}
use omashiki.Handler.Server.{
  JobRequest, Effect, submitted, logged, responded, Exec, ◌>>=◌, lift, emit, Request, World,
  header_or, secret_of, request_of, read_reply, submit_job, respond, load_body, admit, github, show,
  hook_with, omashiki_hook, length_of, dispatch, route, recover, do_post,
}

-- Whatever stood before, what `m` does has the property.
record Emits {A : Type 0} (P : Effect → Type 0) (m : Exec A) : Type 0 where
  at : (s : List Effect) → All P s → All P (m s).1

module _ {A : Type 0} {P : Effect → Type 0} where
  Emits-lift : (r : Result Error A) → Emits P (lift r)
  Emits-lift r = record { at = λ s h. h }

  Emits-if :
      (b : Bool) (m n : Exec A)
      → (b ≡ true → Emits P m)
      → (b ≡ false → Emits P n)
      → Emits P (if b then m else n)
  Emits-if true m n km kn = km refl
  Emits-if false m n km kn = kn refl

Emits-emit : {P : Effect → Type 0} (e : Effect) → P e → Emits P (emit e)
Emits-emit {P} e p = record { at = λ s h. All-append P s (e ∷ []) h (p, tt) }

module _ {A B : Type 0} {P : Effect → Type 0} where
  -- The rest may use what a step returned.
  Emits-bind_lift :
      (r : Result Error A) (f : A → Exec B)
      → ((a : A) → r ≡ ok a → Emits P (f a))
      → Emits P (lift r >>= f)
  Emits-bind_lift (ok a) f k = k a refl
  Emits-bind_lift (err e) f k = record { at = λ s h. h }

  Emits-bind :
      (m : Exec A) (f : A → Exec B) → Emits P m → ((a : A) → Emits P (f a)) → Emits P (m >>= f)
  Emits-bind m f km k = record {
    at = λ s h. (Emits-bind_lift (m s).0 f (λ a _. k a)).at (m s).1 (km.at s h);
  }

module _ (w : World) (cfg : Config) where
  -- The bytes that are read for the request's content-length
  pub record IsBody (req : Request) (body : List ℕ) : Type 0 where
    pub size : ℤ
    pub measured : length_of w cfg req.content_length ≡ ok size
    pub bytes : body ≡ req.read size

  -- A GitHub delivery that may become this job: it is posted to /github, its signature holds over
  -- its body, and the envelope of its event is the job's.
  pub record Delivered (req : Request) (body : List ℕ) (job : JobRequest) : Type 0 where
    pub path : req.path ≡ txt "/github"
    pub read : IsBody req body
    pub signed :
        verify_github_signature w.hmac cfg.github_webhook_secret body req.hub_signature ≡ ok tt
    pub event : Json
    pub loaded : load_body w cfg body ≡ ok event
    pub envelope : Envelope
    pub mapped :
        envelope_for w.repr w.lower (header_or req.github_event) event cfg ≡ ok (some envelope)
    pub sent : job ≡ request_of w cfg envelope

  -- The line that is logged of an admitted job: its id is what the house has answered.
  pub record Admitted (req : Request) (body : List ℕ) (line : Text) : Type 0 where
    pub envelope : Envelope
    pub delivered : Delivered req body (request_of w cfg envelope)
    pub job : Json
    pub answered : read_reply w cfg (w.opener (request_of w cfg envelope)) ≡ ok job
    pub given : Json
    pub data_of_job : get_dict job (txt "data") ≡ ok given
    pub job_id : Json
    pub named : get given (txt "id") ≡ ok job_id
    pub written :
        line
        ≡ txt "admitted job " ++ (py_str w.repr job_id ++ (txt " for " ++ envelope.correlation_id))

  -- A terminal webhook that may be logged as this line: posted to /omashiki, its signature and its
  -- age hold, and the line is its own.
  pub record Notified (req : Request) (body : List ℕ) (line : Text) : Type 0 where
    pub path : req.path ≡ txt "/omashiki"
    pub read : IsBody req body
    pub secret : Text
    pub configured : secret_of cfg.omashiki_webhook_secret ≡ some secret
    pub payload : Json
    pub loaded : load_body w cfg body ≡ ok payload
    pub signed :
        verify_omashiki_signature w.hmac w.from_iso
          (secret ∷ [])
          payload
          req.webhook_signature
          w.now
          300
        ≡ ok tt
    pub written : terminal_line w.repr payload ≡ ok line

  abbrev pub Justified : Request → List ℕ → Effect → Type 0
  Justified req body (submitted job) = Delivered req body job
  Justified req body (logged line) =
      ((status : ℕ) × (line ≡ w.request_line status))
      ⊎ (Admitted req body line ⊎ Notified req body line)
  Justified req body (responded status v) = Unit

  module _ (req : Request) (body : List ℕ) where
    respond-Emits : (status : ℕ) (v : Json) → Emits (Justified req body) (respond w cfg status v)
    unfolding respond
    respond-Emits status v =
        Emits-bind (emit (logged (w.request_line status))) (λ _. emit (responded status v))
          (Emits-emit (logged (w.request_line status)) (inl (status, refl)))
          λ _. Emits-emit (responded status v) tt

    -- The rest may use what the house has answered.
    submit_job_then :
        {B : Type 0} (e : Envelope) (f : Json → Exec B)
        → Delivered req body (request_of w cfg e)
        → ((job : Json)
            → read_reply w cfg (w.opener (request_of w cfg e)) ≡ ok job
            → Emits (Justified req body) (f job))
        → Emits (Justified req body) (submit_job w cfg e >>= f)
    unfolding submit_job
    submit_job_then e f known k = record {
      at = λ s h.
          (Emits-bind_lift (read_reply w cfg (w.opener (request_of w cfg e))) f k).at _
            ((Emits-emit (submitted (request_of w cfg e)) known).at s h);
    }

    admit-Emits :
        (found : Option Envelope)
        → ((e : Envelope) → found ≡ some e → Delivered req body (request_of w cfg e))
        → Emits (Justified req body) (admit w cfg found)
    unfolding admit show
    admit-Emits none known = respond-Emits 200 _
    admit-Emits (some e) known = submit_job_then e _ (known e refl) λ job answered.
        Emits-bind_lift (get_dict job (txt "data")) _ λ given data_of_job.
          Emits-bind_lift (get given (txt "id")) _ λ job_id named.
            Emits-bind (emit _)
              (λ _. respond w cfg 202 (
                obj (
                  dict
                    ((txt "job_id", job_id) ∷ (txt "correlation_id", str e.correlation_id) ∷ []))))
              (Emits-emit (logged _) (
                inr (
                  inl (record {
                    envelope = e;
                    delivered = known e refl;
                    job = job;
                    answered = answered;
                    given = given;
                    data_of_job = data_of_job;
                    job_id = job_id;
                    named = named;
                    written = refl;
                  }))))
              λ _. respond-Emits 202 _

    github-Emits :
        IsBody req body
        → req.path ≡ txt "/github"
        → Emits (Justified req body) (github w cfg req body)
    unfolding github
    github-Emits read path =
        Emits-bind_lift
          (verify_github_signature w.hmac cfg.github_webhook_secret body req.hub_signature) _
          λ _ signed.
            Emits-if (text_eq (header_or req.github_event) (txt "ping")) _ _
              (λ _. (search respond-Emits))
              λ _. Emits-bind_lift (load_body w cfg body) _ λ event loaded.
                Emits-bind_lift (envelope_for w.repr w.lower (header_or req.github_event) event cfg)
                  _
                  λ found mapped. admit-Emits found λ e same. record {
                    path = path;
                    read = read;
                    signed = signed;
                    event = event;
                    loaded = loaded;
                    envelope = e;
                    mapped = mapped ∙ ap ok same;
                    sent = refl;
                  }

    hook_with-Emits :
        (secret : Option Text)
        → secret_of cfg.omashiki_webhook_secret ≡ secret
        → IsBody req body
        → req.path ≡ txt "/omashiki"
        → Emits (Justified req body) (hook_with w cfg secret req body)
    unfolding hook_with
    hook_with-Emits none configured read path = Emits-lift _
    hook_with-Emits (some secret) configured read path =
        Emits-bind_lift (load_body w cfg body) _ λ payload loaded.
          Emits-bind_lift
            (verify_omashiki_signature w.hmac w.from_iso (secret ∷ []) payload req.webhook_signature
              w.now 300)
            _
            λ _ signed. Emits-bind_lift (terminal_line w.repr payload) _ λ line written.
              Emits-bind (emit (logged line))
                (λ _. respond w cfg 200 (obj (dict ((txt "ok", bool true) ∷ []))))
                (Emits-emit (logged line) (
                  inr (
                    inr (record {
                      path = path;
                      read = read;
                      secret = secret;
                      configured = configured;
                      payload = payload;
                      loaded = loaded;
                      signed = signed;
                      written = written;
                    }))))
                λ _. respond-Emits 200 _

    dispatch-Emits : IsBody req body → Emits (Justified req body) (dispatch w cfg req body)
    unfolding dispatch omashiki_hook
    dispatch-Emits read =
        Emits-if (text_eq req.path (txt "/github")) _ _
          (λ e. github-Emits read (text_eq_sound req.path (txt "/github") e))
          λ _.
            Emits-if (text_eq req.path (txt "/omashiki")) _ _
              (λ e.
                hook_with-Emits (secret_of cfg.omashiki_webhook_secret) refl read
                  (text_eq_sound req.path (txt "/omashiki") e))
              λ _. Emits-lift _

  -- What a request did to the outside is justified by its body.
  pub record Explained (req : Request) (done : List Effect) : Type 0 where
    pub body : List ℕ
    pub justified : All (Justified req body) done

  recover-Explained :
      (req : Request) (r : Result Error (Unit {0})) (s : List Effect)
      → Explained req s
      → Explained req (recover w cfg r s).1
  unfolding recover
  recover-Explained req (ok u) s h = h
  recover-Explained req (err (handler_error status message)) s h = record {
    body = h.body;
    justified = (respond-Emits req h.body status _).at s h.justified;
  }
  recover-Explained req (err json_decode_error) s h = record {
    body = h.body;
    justified = (respond-Emits req h.body 400 _).at s h.justified;
  }
  recover-Explained req (err (uncaught e)) s h = h

  route-Explained : (req : Request) → Explained req (route w cfg req []).1
  unfolding route
  route-Explained req = sized (length_of w cfg req.content_length) refl
    where
      sized :
          (size : Result Error ℤ)
          → length_of w cfg req.content_length ≡ size
          → Explained req ((lift size >>= λ n. dispatch w cfg req (req.read n)) []).1
      sized (ok n) measured = record {
        body = req.read n;
        justified =
            (dispatch-Emits req (req.read n)
                (record { size = n; measured = measured; bytes = refl })).at
              [] tt;
      }
      sized (err e) measured = record { body = []; justified = tt }

  -- However a POST ends, each job that it submitted comes of a GitHub delivery to /github whose
  -- signature holds over the body that was read for its content-length, and whose event maps to exactly
  -- that job. Each line that it logged is the one that goes with a response; or says that such a job was
  -- admitted, with the id that the house has answered and the job's correlation; or is that of a terminal
  -- webhook to /omashiki whose signature and age hold under the configured secret.
  pub do_post-Explained : (req : Request) → Explained req (do_post w cfg req []).1
  unfolding do_post
  do_post-Explained req =
      let (r, s) = route w cfg req [] in recover-Explained req r s (route-Explained req)
