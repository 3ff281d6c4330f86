-- ===== src/FakeLlm/Http/Laws.antt =====
-- What a request does to the counters.
use omashiki.Common.{
  ℕ, suc, ◌+◌, ◌-◌, ◌≤◌, ◌≡◌, refl, ap, ◌∙◌, Bool, true, false, Option, none, some, List, [], ◌∷◌,
  ◌++◌, arith, Bool-cases, inl, inr, Result, ok, err, if◌then◌else◌,
}
use omashiki.Common.Int.{ℤ}
use omashiki.Common.Text.{Text, txt}
use omashiki.Json.{
  Json, null, bool, int, float, str, arr, obj, Fields, Exception, Loaded, value, decode_error,
  other_error,
}
use omashiki.FakeLlm.Settings.{Settings}
use omashiki.FakeLlm.Completion.{Completion}
use omashiki.FakeLlm.Http.{
  Sent, response, stream_head, chunk, Fault, scenario, gone, other, Conn, Exec, ◌>>=◌, ◌>>◌, lift,
  Request, World, write, send, error, refuse, body_of, read_sized, read_body, length_of,
  from_exception, close, write_chunks, answer,
}

-- The number of responses, streams included, among what was written.
pub heads : List Sent → ℕ
heads [] = 0
heads (response status payload ∷ xs) = suc (heads xs)
heads (stream_head ∷ xs) = suc (heads xs)
heads (chunk t ∷ xs) = heads xs

heads-append : (xs ys : List Sent) → heads (xs ++ ys) ≡ heads xs + heads ys
unfolding heads
heads-append [] ys = omega arith
heads-append (response status payload ∷ xs) ys = omega (arith, heads-append xs ys)
heads-append (stream_head ∷ xs) ys = omega (arith, heads-append xs ys)
heads-append (chunk t ∷ xs) ys = heads-append xs ys

-- How many responses are added: k with a value, at most n where the method ends early, which it
-- never does by a scenario's error.
abbrev pub Adds : {A : Type 0} → (A → ℕ) → ℕ → Result Fault A → ℕ → ℕ → Type 0
Adds k n (ok a) x y = y ≡ x + k a
Adds k n (err (scenario m)) x y = ⊥
Adds k n (err gone) x y = (x ≤ y) × (y ≤ x + n)
Adds k n (err (other e)) x y = (x ≤ y) × (y ≤ x + n)

-- A method that adds so many responses and leaves the counters alone.
pub record Sends {A : Type 0} (k : A → ℕ) (n : ℕ) (m : Exec A) : Type 0 where
  pub kept : (c : Conn) → (m c).1.stats ≡ c.stats
  pub adds : (c : Conn) → Adds k n (m c).0 (heads c.sent) (heads (m c).1.sent)

Sends-ok : {A : Type 0} (k : A → ℕ) (n : ℕ) (a : A) → k a ≡ 0 → Sends k n (lift (ok a))
Sends-ok k n a z = record { kept = λ c. refl; adds = λ c. omega (arith, z) }

Sends-other : {A : Type 0} (k : A → ℕ) (n : ℕ) (e : Exception) → Sends k n (lift (err (other e)))
Sends-other k n e = record { kept = λ c. refl; adds = λ c. (omega arith, omega arith) }

Sends-if :
    {A : Type 0} (k : A → ℕ) (n : ℕ) (b : Bool) (m m' : Exec A)
    → Sends k n m
    → Sends k n m'
    → Sends k n (if b then m else m')
Sends-if k n true m m' h h' = h
Sends-if k n false m m' h h' = h'

module _ {A B : Type 0} (k : A → ℕ) (j : A → B → ℕ) (all : B → ℕ) (n : ℕ) (f : A → Exec B)
    (total : (a : A) (b : B) → k a + j a b ≡ all b) (within : (a : A) → k a ≤ n)
    (rest : (a : A) → Sends (j a) (n - k a) (f a)) where
  Adds-rest :
      (a : A) (r : Result Fault B) (x y z : ℕ)
      → y ≡ x + k a
      → Adds (j a) (n - k a) r y z
      → Adds all n r x z
  Adds-rest a (ok b) x y z e h = omega (arith, total a b)
  Adds-rest a (err (scenario m)) x y z e h = absurd h
  Adds-rest a (err gone) x y z e h = let w = within a in (omega (arith, h.0), omega (arith, h.1, w))
  Adds-rest a (err (other x')) x y z e h =
      let w = within a in (omega (arith, h.0), omega (arith, h.1, w))

  Adds-continue :
      (r : Result Fault A) (x : ℕ) (c : Conn)
      → Adds k n r x (heads c.sent)
      → Adds all n (◌>>=◌ (λ _. (r, c)) f c).0 x (heads (◌>>=◌ (λ _. (r, c)) f c).1.sent)
  Adds-continue (ok a) x c h = Adds-rest a (f a c).0 x (heads c.sent) _ h ((rest a).adds c)
  Adds-continue (err (scenario m)) x c h = absurd h
  Adds-continue (err gone) x c h = h
  Adds-continue (err (other e)) x c h = h

  kept-continue : (r : Result Fault A) (c : Conn) → (◌>>=◌ (λ _. (r, c)) f c).1.stats ≡ c.stats
  kept-continue (ok a) c = (rest a).kept c
  kept-continue (err e) c = refl

  Sends-bind : (m : Exec A) → Sends k n m → Sends all n (m >>= f)
  Sends-bind m h = record {
    kept = λ c. kept-continue (m c).0 (m c).1 ∙ h.kept c;
    adds = λ c. Adds-continue (m c).0 (heads c.sent) (m c).1 (h.adds c);
  }

-- One head, of a response or a stream, or none.
abbrev head_count : Sent → ℕ
head_count (response status payload) = 1
head_count stream_head = 1
head_count (chunk t) = 0

heads-one : (x : Sent) → heads (x ∷ []) ≡ head_count x
unfolding heads
heads-one (response status payload) = refl
heads-one stream_head = refl
heads-one (chunk t) = refl

-- A body means that no response has been sent, None that one has.
abbrev pub reply_count : Option Fields → ℕ
reply_count none = 1
reply_count (some body) = 0

abbrev then_none : Result Fault (Unit {0}) → Conn → Result Fault (Option Fields) × Conn
then_none r c = ◌>>◌ (λ _. (r, c)) (lift (ok none)) c

kept-then_none : (r : Result Fault (Unit {0})) (c : Conn) → (then_none r c).1.stats ≡ c.stats
kept-then_none (ok u) c = refl
kept-then_none (err e) c = refl

Adds-then_none :
    (r : Result Fault (Unit {0})) (x : ℕ) (c : Conn)
    → Adds (λ _. 1) 1 r x (heads c.sent)
    → Adds reply_count 1 (then_none r c).0 x (heads (then_none r c).1.sent)
Adds-then_none (ok u) x c h = h
Adds-then_none (err (scenario m)) x c h = h
Adds-then_none (err gone) x c h = h
Adds-then_none (err (other e)) x c h = h

module _ (w : World) (set : Settings) where
  write-Sends : (x : Sent) (n : ℕ) → head_count x ≤ n → Sends (λ _. head_count x) n (write w set x)
  unfolding write
  write-Sends x n h = record { kept = λ c. ground arith; adds = λ c. added c }
    where
      added :
          (c : Conn)
          → Adds
              (λ _. head_count x)
              n
              (write w set x c).0
              (heads c.sent)
              (heads (write w set x c).1.sent)
      added c = elim (Bool-cases (w.gone_before c.sent)) [
        | inl e ↦ rw e (omega arith, omega arith)
        | inr e ↦
            rw e (heads-append c.sent (x ∷ []) ∙ ap (λ (q : ℕ). heads c.sent + q) (heads-one x))
      ]

  send-Sends : (status : ℕ) (v : Json) → Sends (λ _. 1) 1 (send w set status v)
  unfolding send
  send-Sends status v = write-Sends (response status v) 1 (omega arith)

  pub error-Sends :
      (status : ℕ) (message kind : Text) → Sends (λ _. 1) 1 (error w set status message kind)
  unfolding error
  error-Sends status message kind = send-Sends status _

  refuse-Sends : (status : ℕ) (message : Text) → Sends reply_count 1 (refuse w set status message)
  unfolding refuse
  refuse-Sends status message =
      let m = error w set status message (txt "invalid_request_error") in
      let sent = error-Sends status message (txt "invalid_request_error") in
      record {
        kept = λ c. kept-then_none (m c).0 (m c).1 ∙ sent.kept c;
        adds = λ c. Adds-then_none (m c).0 (heads c.sent) (m c).1 (sent.adds c);
      }

  body_of-Sends : (l : Loaded) → Sends reply_count 1 (body_of w set l)
  unfolding body_of
  body_of-Sends decode_error = refuse-Sends 400 _
  body_of-Sends (other_error e) = Sends-other reply_count 1 e
  body_of-Sends (value (obj fs)) = Sends-ok reply_count 1 (some fs) refl
  body_of-Sends (value null) = refuse-Sends 400 _
  body_of-Sends (value (bool b)) = refuse-Sends 400 _
  body_of-Sends (value (int n)) = refuse-Sends 400 _
  body_of-Sends (value (float t)) = refuse-Sends 400 _
  body_of-Sends (value (str t)) = refuse-Sends 400 _
  body_of-Sends (value (arr vs)) = refuse-Sends 400 _

  read_sized-Sends : (req : Request) (o : Option ℤ) → Sends reply_count 1 (read_sized w set req o)
  unfolding read_sized
  read_sized-Sends req none = refuse-Sends 400 _
  read_sized-Sends req (some n) =
      Sends-if reply_count 1 _ _ _ (refuse-Sends 413 _) (body_of-Sends _)

  pub read_body-Sends : (req : Request) → Sends reply_count 1 (read_body w set req)
  unfolding read_body
  read_body-Sends req = read_sized-Sends req (length_of w set req.content_length)

  write_chunks-Sends : (ts : List Text) (n : ℕ) → Sends (λ _. 0) n (write_chunks w set ts)
  unfolding write_chunks
  write_chunks-Sends [] n = Sends-ok (λ _. 0) n tt refl
  write_chunks-Sends (t ∷ ts) n =
      Sends-bind (λ _. 0) (λ _ _. 0) (λ _. 0) n (λ _. write_chunks w set ts) (λ a b. refl)
        (λ a. omega arith) (λ a. write_chunks-Sends ts (n - 0)) (write w set (chunk t))
        (write-Sends (chunk t) n (omega arith))

  close-Sends : Sends (λ _. 0) 0 close
  close-Sends = record { kept = λ c. refl; adds = λ c. omega arith }

  from_exception-Sends :
      {A : Type 0} (r : Result Exception A) → Sends (λ _. 0) 0 (lift (from_exception r))
  unfolding from_exception
  from_exception-Sends (ok a) = Sends-ok (λ _. 0) 0 a refl
  from_exception-Sends (err e) = Sends-other (λ _. 0) 0 e

  stream-Sends :
      (r : Result Exception (List Text))
      → Sends
          (λ _. 1)
          1
          (write w set stream_head
            >> (lift (from_exception r) >>= (λ chunks. write_chunks w set chunks >> close)))
  stream-Sends r =
      let tail = λ (chunks : List Text).
        Sends-bind (λ _. 0) (λ _ _. 0) (λ _. 0) 0 (λ _. close) (λ a b. refl) (λ a. omega arith)
          (λ a. close-Sends) (write_chunks w set chunks) (write_chunks-Sends chunks 0) in
      let body =
        Sends-bind (λ _. 0) (λ _ _. 0) (λ _. 0) 0 (λ chunks. write_chunks w set chunks >> close)
          (λ a b. refl) (λ a. omega arith) tail (lift (from_exception r))
          (from_exception-Sends r) in
      Sends-bind (λ _. 1) (λ _ _. 0) (λ _. 1) 1
        (λ _. lift (from_exception r) >>= (λ chunks. write_chunks w set chunks >> close))
        (λ a b. refl) (λ a. omega arith) (λ a. body) (write w set stream_head)
        (write-Sends stream_head 1 (omega arith))

  pub answer-Sends : (body : Fields) (c : Completion) → Sends (λ _. 1) 1 (answer w set body c)
  unfolding answer
  answer-Sends body c = Sends-if (λ _. 1) 1 _ _ _ (stream-Sends _) (send-Sends 200 _)
