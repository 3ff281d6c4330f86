-- ===== src/Drive/RunJob/Laws.antt =====
-- A job's run ends at its deadline.
use omashiki.Common.{
  ℕ, suc, ◌+◌, ◌<◌, ◌≡◌, ◌≢◌, refl, sym, ap, ◌∙◌, subst, inl, inr, true, false, Option, none, some,
  Result, ok, Bool-cases, ◌>>=◌, >>=-eq-ok, ok_injective, ok_some_injective, arith,
}
use omashiki.Common.Int.{ℤ, ◌+ℤ◌, ltb_ℤ}
use omashiki.Common.Text.{txt, text_eq}
use omashiki.Common.Poll.{poll, poll-ne-out_of_fuel}
use omashiki.Json.{Json, null, str, obj, end, Exception, truthy, py_or, get_attr}
use omashiki.Drive.RunJob.{
  succeeded, Reply, answered, api_error, World, Ended, terminal, gave_up, out_of_fuel, Outcome,
  data_of, iso_ms, or_time, final_code, terminal_status, turn, loop, conclude, untimed, finish,
  follow, after_post, run_job,
}

-- A turn that ends without fuel has gone on.
turn-out_of_fuel :
    (again : Json → Result Exception Ended) (code : Json) (after : ℤ) (reply : Reply)
    → turn again code after reply ≡ ok out_of_fuel
    → (c : Json) × (again c ≡ ok out_of_fuel)
unfolding turn
turn-out_of_fuel again code after (api_error c) h = (c, h)
turn-out_of_fuel again code after (answered body) h =
    let (job, _, h1) = >>=-eq-ok (data_of body) _ h in
    let (status, _, h2) = >>=-eq-ok (get_attr (λ e. e) job (txt "status") null) _ h1 in
    ended (terminal_status status) job h2
  where
    ended :
        (s : Option _) (job : Json)
        → elim s [ none ↦ again code | some t ↦ ok (terminal t job code after) ] ≡ ok out_of_fuel
        → (c : Json) × (again c ≡ ok out_of_fuel)
    ended none job e = (code, e)
    ended (some t) job e = cc

module _ (w : World) where
  loop-out_of_fuel :
      (k fuel n : ℕ) (code : Json)
      → ltb_ℤ (w.poll (n + k)).at (w.begun_at +ℤ w.job_timeout) ≡ false
      → k < fuel
      → loop w fuel n code ≢ ok out_of_fuel
  unfolding loop
  loop-out_of_fuel k fuel n code late more h =
      poll-ne-out_of_fuel _ _ _ _
        (λ i again c e. turn-out_of_fuel again c (w.poll i).after (w.poll i).reply e)
        (λ i c e. cc e) k fuel n code late more h

  conclude-none : (id : Json) (ended : Ended) → conclude w id ended ≡ ok none → ended ≡ out_of_fuel
  unfolding conclude
  conclude-none id out_of_fuel h = refl
  conclude-none id (gave_up at) h = cc
  conclude-none id (terminal s job code at) h =
      let (o, _, e) = >>=-eq-ok (finish w id s job code at) _ h in cc e

  module _ (fuel k : ℕ) (late : ltb_ℤ (w.poll k).at (w.begun_at +ℤ w.job_timeout) ≡ false)
      (more : k < fuel) where
    late_from_zero : ltb_ℤ (w.poll (0 + k)).at (w.begun_at +ℤ w.job_timeout) ≡ false
    late_from_zero =
        subst (λ i. ltb_ℤ (w.poll i).at (w.begun_at +ℤ w.job_timeout) ≡ false) (omega arith) late

    follow-ends : (id : Json) → follow w fuel id ≢ ok none
    unfolding follow
    follow-ends id h = elim (Bool-cases (truthy id)) [
      | inr e ↦ cc (rw e at h)
      | inl e ↦
          let (ended, stopped, h1) = >>=-eq-ok (loop w fuel 0 null) _ (rw e at h) in
          loop-out_of_fuel k fuel 0 null late_from_zero more
            (stopped ∙ ap ok (conclude-none id ended h1))
    ]

    after_post-ends : (posted : Reply) → after_post w fuel posted ≢ ok none
    unfolding after_post
    after_post-ends (api_error c) h = cc h
    after_post-ends (answered body) h =
        let (response, _, h1) = >>=-eq-ok (get_attr (λ e. e) body (txt "data") null) _ h in
        let (id, _, h2) =
          >>=-eq-ok (get_attr (λ e. e) (py_or response (obj end)) (txt "id") null) _ h1 in
        follow-ends id h2

  -- If the clock is past the deadline at the test of some turn k, then k + 1 turns of fuel are
  -- enough: the run of the job gives an outcome or ends in an exception.
  pub run_job-ends :
      (fuel k : ℕ)
      → ltb_ℤ (w.poll k).at (w.begun_at +ℤ w.job_timeout) ≡ false
      → k < fuel
      → run_job w fuel ≢ ok none
  unfolding run_job
  run_job-ends fuel k late more h = after_post-ends fuel k late more w.posted h

  finish-succeeded :
      (id job code : Json) (at : ℤ) (o : Outcome)
      → conclude w id (terminal succeeded job code at) ≡ ok (some o)
      → (o.status ≡ succeeded) × (o.error_code ≡ code)
  unfolding conclude finish final_code untimed
  finish-succeeded id job code at o h =
      let (r, e, h0) = >>=-eq-ok (finish w id succeeded job code at) _ h in
      let (_, _, h1) = >>=-eq-ok (get_attr (λ e. e) job (txt "submitted_at") null) _ e in
      let (_, _, h2) = >>=-eq-ok (iso_ms w.from_iso _) _ h1 in
      let (_, _, h3) = >>=-eq-ok (or_time _ _) _ h2 in
      let (_, _, h4) = >>=-eq-ok (get_attr (λ e. e) job (txt "started_at") null) _ h3 in
      let (_, _, h5) = >>=-eq-ok (iso_ms w.from_iso _) _ h4 in
      let (_, _, h6) = >>=-eq-ok (get_attr (λ e. e) job (txt "finished_at") null) _ h5 in
      let (_, _, h7) = >>=-eq-ok (iso_ms w.from_iso _) _ h6 in
      let same : r ≡ o = ok_some_injective h0 in
      let built = ok_injective h7 in
      (
        ap (λ (q : Outcome). q.status) (sym same) ∙ ap (λ (q : Outcome). q.status) (sym built),
        ap (λ (q : Outcome). q.error_code) (sym same)
            ∙ ap (λ (q : Outcome). q.error_code) (sym built),
      )

  -- A poll that fails in time leaves its error code on the job: if the next one, in time too, finds
  -- the job succeeded, the outcome keeps the code, whatever the result says.
  pub loop-transient :
      (fuel n : ℕ) (code c body job id : Json) (o : Outcome)
      → ltb_ℤ (w.poll n).at (w.begun_at +ℤ w.job_timeout) ≡ true
      → (w.poll n).reply ≡ api_error c
      → ltb_ℤ (w.poll (suc n)).at (w.begun_at +ℤ w.job_timeout) ≡ true
      → (w.poll (suc n)).reply ≡ answered body
      → data_of body ≡ ok job
      → get_attr (λ e. e) job (txt "status") null ≡ ok (str (txt "succeeded"))
      → (loop w (suc (suc fuel)) n code >>= conclude w id) ≡ ok (some o)
      → (o.status ≡ succeeded) × (o.error_code ≡ c)
  unfolding loop poll turn terminal_status txt text_eq
  loop-transient fuel n code c body job id o in_time failed in_time2 found got status h =
      finish-succeeded id job c (w.poll (suc n)).after o
        (rw (in_time, failed, in_time2, found, got, status) at h)
