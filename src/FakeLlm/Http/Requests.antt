-- ===== src/FakeLlm/Http/Requests.antt =====
-- What a whole POST request does: to the counters, and to the client.
use omashiki.Common.{
  ℕ, ◌+◌, ◌≤◌, ◌≡◌, refl, ap, subst, ◌∙◌, ◌⊎◌, inl, inr, Bool, true, false, if◌then◌else◌, Option,
  none, some, ◌++◌, arith, Bool-cases, Result, ok, err,
}
use omashiki.Common.Int.{ℤ, pos, ltb_ℤ}
use omashiki.Common.Text.{Text, txt}
use omashiki.Json.{
  null, bool, int, float, str, arr, obj, Fields, Loaded, value, decode_error, other_error,
}
use omashiki.FakeLlm.Settings.{Settings}
use omashiki.FakeLlm.Stats.{Stats, enter, leave}
use omashiki.FakeLlm.Completion.{Completion, build_completion}
use omashiki.FakeLlm.Http.{
  Fault, scenario, gone, other, Conn, Request, World, find_marker, is_completions, from_error,
  refuse, length_of, raw_of, or_braces, body_of, read_sized, max_body_bytes, lift, error, read_body,
  ◌>>=◌, answer, unless_gone, guarded, recover, serve, reason_of, finally_leave, complete,
  complete_if, do_post,
}
use omashiki.FakeLlm.Http.Laws.{
  heads, Adds, reply_count, error-Sends, read_body-Sends, answer-Sends,
}

-- What the `try` leaves for the `except` clauses: a scenario's error comes before any response.
abbrev Tried : Result Fault (Unit {0}) → ℕ → ℕ → Type 0
Tried (ok u) x y = y ≡ x + 1
Tried (err (scenario m)) x y = y ≡ x
Tried (err gone) x y = y ≤ x + 1
Tried (err (other e)) x y = y ≤ x + 1

-- A request that ends normally has one response more, or its connection is closed and it has at most
-- one; one that ends by an exception has at most one.
abbrev pub Answered : Result Fault (Unit {0}) → ℕ → ℕ → Bool → Type 0
Answered (ok u) x y closed = (y ≡ x + 1) ⊎ ((closed ≡ true) × (y ≤ x + 1))
Answered (err e) x y closed = y ≤ x + 1

module _ (w : World) (set : Settings) where
  serve-Tried :
      (body : Fields) (built : Result Fault Completion) (c : Conn)
      → Tried (serve w set body built c).0 (heads c.sent) (heads (serve w set body built c).1.sent)
  unfolding serve
  serve-Tried body (err (scenario m)) c = refl
  serve-Tried body (err gone) c = omega arith
  serve-Tried body (err (other e)) c = omega arith
  serve-Tried body (ok made) c =
      tried (answer w set body made c).0 _ ((answer-Sends w set body made).adds c)
    where
      tried :
          (r : Result Fault (Unit {0})) (y : ℕ)
          → Adds (λ _. 1) 1 r (heads c.sent) y
          → Tried r (heads c.sent) y
      tried (ok u) y h = h
      tried (err (scenario m)) y h = absurd h
      tried (err gone) y h = h.1
      tried (err (other e)) y h = h.1

  serve-kept :
      (body : Fields) (built : Result Fault Completion) (c : Conn)
      → (serve w set body built c).1.stats ≡ c.stats
  unfolding serve
  serve-kept body (err e) c = refl
  serve-kept body (ok made) c = (answer-Sends w set body made).kept c

  unless_gone-Answered :
      (r : Result Fault (Unit {0})) (x : ℕ) (c : Conn)
      → Adds (λ _. 1) 1 r x (heads c.sent)
      → Answered
          (unless_gone w set r c).0
          x
          (heads (unless_gone w set r c).1.sent)
          (unless_gone w set r c).1.close_connection
  unfolding unless_gone
  unless_gone-Answered (ok u) x c h = inl h
  unless_gone-Answered (err (scenario m)) x c h = absurd h
  unless_gone-Answered (err gone) x c h = inr (refl, h.1)
  unless_gone-Answered (err (other e)) x c h = h.1

  unless_gone-kept :
      (r : Result Fault (Unit {0})) (c : Conn) → (unless_gone w set r c).1.stats ≡ c.stats
  unfolding unless_gone
  unless_gone-kept (ok u) c = refl
  unless_gone-kept (err (scenario m)) c = refl
  unless_gone-kept (err gone) c = refl
  unless_gone-kept (err (other e)) c = refl

  recover-kept : (r : Result Fault (Unit {0})) (c : Conn) → (recover w set r c).1.stats ≡ c.stats
  unfolding recover guarded
  recover-kept (ok u) c = refl
  recover-kept (err (scenario m)) c = unless_gone-kept _ _ ∙ (error-Sends w set 500 m _).kept c
  recover-kept (err gone) c = refl
  recover-kept (err (other e)) c = refl

  recover-Answered :
      (r : Result Fault (Unit {0})) (x : ℕ) (c : Conn)
      → Tried r x (heads c.sent)
      → Answered
          (recover w set r c).0
          x
          (heads (recover w set r c).1.sent)
          (recover w set r c).1.close_connection
  unfolding recover guarded
  recover-Answered (ok u) x c h = inl h
  recover-Answered (err (scenario m)) x c h =
      let k = txt "scenario_configuration_error" in
      unless_gone-Answered (error w set 500 m k c).0 x (error w set 500 m k c).1
        (rw h at ((error-Sends w set 500 m k).adds c))
  recover-Answered (err gone) x c h = inr (refl, h)
  recover-Answered (err (other e)) x c h = h

  -- What a served request leaves of the counters: it has entered with the marker of its body and
  -- left with its finish reason.
  abbrev pub served : Fields → Stats → Stats
  served body s =
      let marker = find_marker (w.dumps (obj body)) in
      let built = from_error (build_completion w.dumps w.lower w.search set w.call_id body) in
      leave (reason_of w set built) marker (enter marker s)

  -- The object that a body is read as, if it can be: its length is an integer and not too large, and the
  -- bytes are the JSON text of an object.
  abbrev object_of : Loaded → Option Fields
  object_of (value (obj fs)) = some fs
  object_of _ = none

  abbrev sized_object : Request → Option ℤ → Option Fields
  sized_object req none = none
  sized_object req (some n) =
      if ltb_ℤ (pos max_body_bytes) n
      then none
      else object_of (w.loads (or_braces w set (raw_of w set req n)))

  abbrev pub body_object : Request → Option Fields
  body_object req = sized_object req (length_of w set req.content_length)

  -- What a request does to the counters: nothing, if its path is not the one of completions or its body
  -- is no object, and else what serving this object does.
  abbrev pub Counted : Request → Stats → Stats → Type 0
  Counted req s s' =
      (((is_completions req.path ≡ false) ⊎ (body_object req ≡ none)) × (s' ≡ s))
      ⊎ ((is_completions req.path ≡ true)
          × ((body : Fields) × (body_object req ≡ some body) × (s' ≡ served body s)))

  -- What a request does to a connection.
  pub record Handled (req : Request) (c : Conn) (r : Result Fault (Unit {0})) (c' : Conn)
      : Type 0 where
    pub counters : Counted req c.stats c'.stats
    pub answered : Answered r (heads c.sent) (heads c'.sent) c'.close_connection

  -- What reading a body has returned, against the object
  abbrev Agrees : Result Fault (Option Fields) → Option Fields → Type 0
  Agrees (ok (some body)) o = o ≡ some body
  Agrees (ok none) o = o ≡ none
  Agrees (err e) o = o ≡ none

  refuse-Agrees :
      (status : ℕ) (message : Text) (c : Conn) → Agrees (refuse w set status message c).0 none
  unfolding refuse
  refuse-Agrees status message c =
      after (error w set status message (txt "invalid_request_error") c)
    where
      after :
          (x : Result Fault (Unit {0}) × Conn)
          → Agrees ((◌>>=◌ (λ _. x) (λ _. lift (ok none))) c).0 none
      after (ok u, d) = refl
      after (err e, d) = refl

  body_of-Agrees : (l : Loaded) (c : Conn) → Agrees (body_of w set l c).0 (object_of l)
  unfolding body_of
  body_of-Agrees decode_error c = refuse-Agrees 400 (txt "request body is not valid JSON") c
  body_of-Agrees (other_error e) c = refl
  body_of-Agrees (value (obj fs)) c = refl
  body_of-Agrees (value null) c = refuse-Agrees 400 (txt "request body must be an object") c
  body_of-Agrees (value (bool b)) c = refuse-Agrees 400 (txt "request body must be an object") c
  body_of-Agrees (value (int n)) c = refuse-Agrees 400 (txt "request body must be an object") c
  body_of-Agrees (value (float s)) c = refuse-Agrees 400 (txt "request body must be an object") c
  body_of-Agrees (value (str s)) c = refuse-Agrees 400 (txt "request body must be an object") c
  body_of-Agrees (value (arr vs)) c = refuse-Agrees 400 (txt "request body must be an object") c

  read_sized-Agrees :
      (req : Request) (size : Option ℤ) (c : Conn)
      → Agrees (read_sized w set req size c).0 (sized_object req size)
  unfolding read_sized
  read_sized-Agrees req none c = refuse-Agrees 400 (txt "invalid Content-Length") c
  read_sized-Agrees req (some n) c = elim (Bool-cases (ltb_ℤ (pos max_body_bytes) n)) [
    | inl e ↦ rw e (refuse-Agrees 413 (txt "request body too large") c)
    | inr e ↦ rw e (body_of-Agrees (w.loads (or_braces w set (raw_of w set req n))) c)
  ]

  read_body-Agrees : (req : Request) (c : Conn) → Agrees (read_body w set req c).0 (body_object req)
  unfolding read_body
  read_body-Agrees req c = read_sized-Agrees req (length_of w set req.content_length) c

  module _ (req : Request) where
    complete-Handled :
        (body : Fields) (c : Conn)
        → is_completions req.path ≡ true
        → body_object req ≡ some body
        → Handled req c (complete w set body c).0 (complete w set body c).1
    unfolding complete finally_leave
    complete-Handled body c path read =
        let marker = find_marker (w.dumps (obj body)) in
        let built = from_error (build_completion w.dumps w.lower w.search set w.call_id body) in
        let entered : Conn = record c { stats = enter marker c.stats } in
        let tried = serve w set body built entered in
        record {
          counters = inr (
            path,
            (
              body,
              read,
              ap (leave (reason_of w set built) marker)
                  (recover-kept tried.0 tried.1 ∙ serve-kept body built entered),
            ),
          );
          answered =
              recover-Answered tried.0 (heads c.sent) tried.1 (serve-Tried body built entered);
        }

    read-Handled :
        (c c' : Conn) (r : Result Fault (Option Fields))
        → is_completions req.path ≡ true
        → Agrees r (body_object req)
        → c'.stats ≡ c.stats
        → Adds reply_count 1 r (heads c.sent) (heads c'.sent)
        → let after = ◌>>=◌ (λ _. (r, c')) (complete_if w set) c' in Handled req c after.0 after.1
    unfolding complete_if
    read-Handled c c' (ok none) path read kept h = record {
      counters = inl (inr read, kept);
      answered = inl h;
    }
    read-Handled c c' (ok (some body)) path read kept h =
        let done = complete-Handled body c' path read in
        let after = (complete w set body c').1 in
        let none_yet : heads c'.sent ≡ heads c.sent = omega (arith, h) in
        record {
          counters = subst (λ s. Counted req s after.stats) kept done.counters;
          answered =
              subst
                (λ x.
                  Answered (complete w set body c').0 x (heads after.sent) after.close_connection)
                none_yet done.answered;
        }
    read-Handled c c' (err (scenario m)) path read kept h = absurd h
    read-Handled c c' (err gone) path read kept h = record {
      counters = inl (inr read, kept);
      answered = h.1;
    }
    read-Handled c c' (err (other e)) path read kept h = record {
      counters = inl (inr read, kept);
      answered = h.1;
    }

    error-Handled :
        (c c' : Conn) (r : Result Fault (Unit {0}))
        → is_completions req.path ≡ false
        → c'.stats ≡ c.stats
        → Adds (λ _. 1) 1 r (heads c.sent) (heads c'.sent)
        → Handled req c r c'
    error-Handled c c' (ok u) path kept h = record {
      counters = inl (inl path, kept);
      answered = inl h;
    }
    error-Handled c c' (err (scenario m)) path kept h = absurd h
    error-Handled c c' (err gone) path kept h = record {
      counters = inl (inl path, kept);
      answered = h.1;
    }
    error-Handled c c' (err (other e)) path kept h = record {
      counters = inl (inl path, kept);
      answered = h.1;
    }

  -- A POST counts once: if its path is not the one of completions, or its body is no JSON object of an
  -- admitted length, the counters stay as they are; otherwise it has entered with the marker of this
  -- object and left with the finish reason of the completion for it, whatever fails on the way. It is
  -- answered at most once, and exactly once if it ends without an exception and the connection is not
  -- closed.
  pub do_post-Handled :
      (req : Request) (c : Conn) → Handled req c (do_post w set req c).0 (do_post w set req c).1
  unfolding do_post
  do_post-Handled req c = elim (Bool-cases (is_completions req.path)) [
    | inr e ↦
        let sent = error-Sends w set 404 (txt "unknown path: " ++ req.path) (txt "not_found") in
        rw e (error-Handled req c _ _ e (sent.kept c) (sent.adds c))
    | inl e ↦ rw e (
        read-Handled req c (read_body w set req c).1 (read_body w set req c).0 e
          (read_body-Agrees req c) ((read_body-Sends w set req).kept c)
          ((read_body-Sends w set req).adds c))
  ]
