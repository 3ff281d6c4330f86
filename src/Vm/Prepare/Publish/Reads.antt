-- ===== src/Vm/Prepare/Publish/Reads.antt =====
-- The test of the present image and the reading of the journal change nothing.
use omashiki.Common.{
  ◌≡◌, ap, sym, ◌∙◌, subst, true, [], ok_injective, and-eq-true_iff, refl, Bool, false, ◌&&◌, ◌==◌,
  Option, none, some, Result, ok, err,
}
use omashiki.Common.Text.{Text, txt, text_eq_sound}
use omashiki.Common.Runs.{
  ◌>>=◌, done, demand, bind-Triple, done-Triple, Silent, bind-Silent, demand-Silent, Silent-Triple,
  bind-ok, demand-ok,
}
use omashiki.Json.{
  Json, obj, null, str, bool, int, float, arr, get_or, Fields, Loaded, value, decode_error,
  other_error,
}
use omashiki.Vm.Prepared.{Metadata, Error, prepared_base_error}
use omashiki.Vm.Checks.{has_exactly}
use omashiki.Vm.Prepare.{Trace, World, Act, Failure, blocked, look, or_fail, need, is_own}
use omashiki.Vm.Prepare.Publish.{
  is_other_fingerprint, fingerprint_of, loaded, load, stale, after_verify, validate, is_text,
  current_is_valid, paths_of, pending_paths, journal_keys, are_paths, matching, journal_paths,
  read_journal, roll_back, recover, recover_pending_publication,
}
use omashiki.Vm.Prepare.Publish.Laws.{look-Sure, roll_back-Sure}
use omashiki.Vm.Prepare.Orderly.{Named, IsOrderly, Sure}

module _ (w : World) where
  look-Silent : {A : Type 0} (f : Trace → A) → Silent (look w f)
  look-Silent f t = refl

  or_fail-Silent : {A : Type 0} (o : Option A) → Silent (or_fail w o)
  or_fail-Silent none t = refl
  or_fail-Silent (some a) t = refl

  loaded-Silent : (failure : Failure) (o : Option Loaded) → Silent (loaded w failure o)
  unfolding loaded
  loaded-Silent failure none t = refl
  loaded-Silent failure (some decode_error) t = refl
  loaded-Silent failure (some (other_error e)) t = refl
  loaded-Silent failure (some (value v)) t = refl

  load-Silent : (path : Text) (failure : Failure) → Silent (load w path failure)
  unfolding load
  load-Silent path failure =
      bind-Silent (look w (λ t. w.read_json t path)) (loaded w failure)
        (look-Silent (λ t. w.read_json t path)) (loaded-Silent failure)

  paths_of-Silent : (r : Result Error (Text × Text)) → Silent (paths_of w r)
  unfolding paths_of
  paths_of-Silent (ok paths) t = refl
  paths_of-Silent (err (prepared_base_error m)) t = refl
  paths_of-Silent (err e) t = refl

  matching-Silent : (fs : Fields) (paths : Text × Text) → Silent (matching w fs paths)
  unfolding matching
  matching-Silent fs paths =
      let refuse = blocked (txt "pending preparation journal paths are invalid") in
      bind-Silent (demand (are_paths w fs paths) refuse) (λ _. done paths) (demand-Silent _ refuse)
        λ _ t. refl

  journal_paths-Silent : (v : Json) → Silent (journal_paths w v)
  unfolding journal_paths pending_paths
  journal_paths-Silent (obj fs) =
      let refuse = blocked (txt "pending preparation journal schema is invalid") in
      let fingerprint = get_or (txt "fingerprint") fs null in
      let paths = pending_paths w fingerprint in
      bind-Silent (demand (has_exactly fs journal_keys) refuse) (λ _. paths >>= matching w fs)
        (demand-Silent _ refuse)
        λ _.
          bind-Silent paths (matching w fs) (paths_of-Silent (w.prepared_paths fingerprint))
            (matching-Silent fs)
  journal_paths-Silent v = λ t. refl

  read_journal-Silent : (m : Metadata) → Silent (read_journal w m)
  unfolding read_journal
  read_journal-Silent m =
      let unsafe = blocked (txt "pending preparation journal is unsafe") in
      let invalid = blocked (txt "pending preparation journal is invalid") in
      let rest = load w w.pending_path invalid >>= journal_paths w in
      bind-Silent (demand (is_own w m && m.mode == 384) unsafe) (λ _. rest) (demand-Silent _ unsafe)
        λ _.
          bind-Silent (load w w.pending_path invalid) (journal_paths w)
            (load-Silent w.pending_path invalid) journal_paths-Silent

  stale-Silent : (message : Text) → Silent (stale w message)
  unfolding stale
  stale-Silent message =
      let last : Json → Act Bool = λ previous.
        demand (is_other_fingerprint w (fingerprint_of previous)) (blocked message) >>= λ _.
        done false in
      let rest : Metadata → Act Bool = λ m. demand (is_own w m) (blocked message) >>= λ _.
      load w w.pointer_path (blocked message) >>= last in
      bind-Silent (need w (λ t. w.lstat t w.pointer_path)) rest
        (bind-Silent (look w (λ t. w.lstat t w.pointer_path)) (or_fail w)
          (look-Silent (λ t. w.lstat t w.pointer_path)) or_fail-Silent)
        λ m.
          bind-Silent (demand (is_own w m) (blocked message))
            (λ _. load w w.pointer_path (blocked message) >>= last)
            (demand-Silent (is_own w m) (blocked message))
            λ _.
              bind-Silent (load w w.pointer_path (blocked message)) last
                (load-Silent w.pointer_path (blocked message))
                λ previous.
                  bind-Silent
                    (demand (is_other_fingerprint w (fingerprint_of previous)) (blocked message))
                    (λ _. done false)
                    (demand-Silent (is_other_fingerprint w (fingerprint_of previous))
                      (blocked message))
                    λ _ t. refl

  after_verify-Silent : (r : Result Error Fields) → Silent (after_verify w r)
  unfolding after_verify
  after_verify-Silent (ok fields) = λ t. refl
  after_verify-Silent (err (prepared_base_error m)) = stale-Silent m
  after_verify-Silent (err e) = λ t. refl

  validate-Silent : (found : Option Metadata) → Silent (validate w found)
  unfolding validate
  validate-Silent none = λ t. refl
  validate-Silent (some m) =
      bind-Silent (look w w.verify_prepared_base) (after_verify w)
        (look-Silent w.verify_prepared_base) after_verify-Silent

  -- `current_is_valid` changes nothing.
  pub current_is_valid-Sure : {P : Trace → Type 0} → Sure w P (current_is_valid w) (λ _. P)
  unfolding current_is_valid
  current_is_valid-Sure = Silent-Triple (IsOrderly w) (current_is_valid w) (
      bind-Silent (look w (λ t. w.lstat t w.pointer_path)) (validate w)
        (look-Silent (λ t. w.lstat t w.pointer_path)) validate-Silent)

  text_of : (v : Json) (t : Text) → is_text v t ≡ true → v ≡ str t
  text_of (str s) t h = ap str (text_eq_sound s t h)
  text_of null t h = cc h
  text_of (bool b) t h = cc h
  text_of (int n) t h = cc h
  text_of (float s) t h = cc h
  text_of (arr vs) t h = cc h
  text_of (obj fs) t h = cc h

  loaded-value :
      (failure : Failure) (o : Option Loaded) (t : Trace) {v : Json}
      → (loaded w failure o t).1 ≡ ok v
      → o ≡ some (value v)
  unfolding loaded
  loaded-value failure none t h = cc h
  loaded-value failure (some decode_error) t h = cc h
  loaded-value failure (some (other_error e)) t h = cc h
  loaded-value failure (some (value v)) t h = ap (λ x. some (value x)) (ok_injective h)

  paths_of-ok :
      (r : Result Error (Text × Text)) (t : Trace) {paths : Text × Text}
      → (paths_of w r t).1 ≡ ok paths
      → r ≡ ok paths
  unfolding paths_of
  paths_of-ok (ok paths) t h = ap ok (ok_injective h)
  paths_of-ok (err (prepared_base_error m)) t h = cc h
  paths_of-ok (err e) t h = cc h

  passed :
      {A : Type 0} (b : Bool) (e : Failure) (m : Act A) (t : Trace) {a : A}
      → ((demand b e >>= λ _. m) t).1 ≡ ok a
      → (m t).1 ≡ ok a
  passed true e m t h = h
  passed false e m t h = cc h

  -- What is read off a journal that is accepted
  journal_paths-Named :
      (v : Json) (t : Trace) (paths : Text × Text)
      → w.read_json t w.pending_path ≡ some (value v)
      → (journal_paths w v t).1 ≡ ok paths
      → Named w paths.0 paths.1 t
  unfolding journal_paths pending_paths matching are_paths
  journal_paths-Named (obj fs) t paths found h =
      let refuse = blocked (txt "pending preparation journal schema is invalid") in
      let fingerprint = get_or (txt "fingerprint") fs null in
      let read = pending_paths w fingerprint in
      let h1 = passed (has_exactly fs journal_keys) refuse (read >>= matching w fs) t h in
      let (p, got, whole) = bind-ok read (matching w fs) t h1 in
      let h2 = ap (λ x. x.1) (sym whole) ∙ h1 in
      let u = (read t).0 in
      let (right, same, _) =
        demand-ok (are_paths w fs p) (blocked (txt "pending preparation journal paths are invalid"))
          p u h2 in
      let (path, volume) =
        (and-eq-true_iff (is_text (get_or (txt "host_path") fs null) p.0) _).0 right in
      subst (λ q. Named w q.0 q.1 t) same
        (record {
          read = t;
          later = ([], refl);
          journal = fs;
          found = found;
          of_fingerprint = paths_of-ok (w.prepared_paths fingerprint) t got;
          says_path = text_of _ p.0 path;
          says_volume = text_of _ p.1 volume;
        })
  journal_paths-Named _ t paths found h = cc h

  read_journal-Named :
      (m : Metadata) (t : Trace) (paths : Text × Text)
      → (read_journal w m t).1 ≡ ok paths
      → Named w paths.0 paths.1 t
  unfolding read_journal load
  read_journal-Named m t paths h =
      let invalid = blocked (txt "pending preparation journal is invalid") in
      let read = load w w.pending_path invalid in
      let h1 =
        passed (is_own w m && m.mode == 384) (blocked (txt "pending preparation journal is unsafe"))
          (read >>= journal_paths w) t h in
      let (v, got, whole) = bind-ok read (journal_paths w) t h1 in
      let h2 = ap (λ x. x.1) (sym whole) ∙ h1 in
      journal_paths-Named v t paths (loaded-value invalid (w.read_json t w.pending_path) t got)
        (subst (λ u. (journal_paths w v u).1 ≡ ok paths) (load-Silent w.pending_path invalid t) h2)

  -- `recover_pending_publication` makes only changes that are allowed.
  pub recover-Sure :
      {P : Trace → Type 0} → Sure w P (recover_pending_publication w) (λ _ t. Unit {0})
  unfolding recover_pending_publication recover
  recover-Sure {P} =
      bind-Triple (IsOrderly w) (look w (λ t. w.lstat t w.pending_path)) (recover w)
        (look-Sure w {P = P} (λ t. w.lstat t w.pending_path)) λ found. after found
    where
      after :
          {R : Trace → Type 0} (found : Option Metadata)
          → Sure w R (recover w found) (λ _ t. Unit {0})
      after none = done-Triple (IsOrderly w) tt λ t h. tt
      after {R} (some m) =
          bind-Triple (IsOrderly w) (read_journal w m) (roll_back w)
            (record {
              at = λ t i p. (
                subst (IsOrderly w) (sym (read_journal-Silent m t)) i,
                λ paths e.
                    subst (Named w paths.0 paths.1) (sym (read_journal-Silent m t))
                      (read_journal-Named m t paths e),
              );
            })
            λ paths. roll_back-Sure w paths
