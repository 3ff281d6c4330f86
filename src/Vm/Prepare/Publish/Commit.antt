-- ===== src/Vm/Prepare/Publish/Commit.antt =====
-- A publication writes its journal first and removes it last.
use omashiki.Common.{
  ℕ, ◌≡◌, refl, ap, subst, ◌∙◌, true, ◌==◌, inl, [], Option, none, some, Result, ok, err,
}
use native.Mathlib.Omega.{arith}
use omashiki.Common.Text.{Text, txt, text_eq, text_eq_sound}
use omashiki.Common.Runs.{
  ◌>>=◌, demand, bind-Triple, done-Triple, demand-Triple, weaken-Triple, fail-Triple,
}
use omashiki.Json.{Json, Fields}
use omashiki.Vm.Prepared.{Metadata, Error}
use omashiki.Vm.Prepare.{
  Trace, write_pending, write_pointer, unlink_pending, place_image, World, Act, runtime_error,
  prepared_error, os_error, act, look, or_fail, need,
}
use omashiki.Vm.Prepare.Publish.{upload, compare, settle, journal, pointer, publish}
use omashiki.Vm.Prepare.Publish.Laws.{look-Sure}
use omashiki.Vm.Prepare.Orderly.{is_pending, IsOrderly, Sure}
use omashiki.Vm.Prepare.Rules.{act-Sure}
use omashiki.Vm.Prepare.Publish.Upload.{Placed, Placed-next, upload-Sure}

module _ (w : World) where
  need-Sure :
      {A : Type 0} {P : Trace → Type 0} (f : Trace → Option A)
      → Sure w P (need w f) (λ a t. P t × (f t ≡ some a))
  need-Sure {A} {P} f = bind-Triple (IsOrderly w) (look w f) (or_fail w) (look-Sure w f) found
    where
      found :
          (o : Option A) → Sure w (λ t. P t × (f t ≡ o)) (or_fail w o) (λ a t. P t × (f t ≡ some a))
      found none = fail-Triple (IsOrderly w) os_error
      found (some a) = done-Triple (IsOrderly w) a λ t h. h

  compare-Sure :
      {P : Trace → Type 0} (path sha256 : Text) (size : ℕ)
      → Sure w P (compare w path sha256 size) (λ _ t.
        P t
        × (w.sha256_file t path ≡ some sha256)
        × ((m : Metadata) × (w.stat t path ≡ some m) × (m.size ≡ size)))
  unfolding compare
  compare-Sure {P} path sha256 size =
      let differs =
        runtime_error (txt "published libvirt volume differs from prepared host image") in
      let sized : Metadata → Act (Unit {0}) = λ m. demand (m.size == size) differs in
      let stated = need w (λ t. w.stat t path) >>= sized in
      bind-Triple (IsOrderly w) (need w (λ t. w.sha256_file t path))
        (λ sha. demand (text_eq sha sha256) differs >>= λ _. stated)
        (need-Sure (λ t. w.sha256_file t path))
        λ sha.
          bind-Triple (IsOrderly w) (demand (text_eq sha sha256) differs) (λ _. stated)
            (demand-Triple (IsOrderly w) (text_eq sha sha256) differs)
            λ _.
              bind-Triple (IsOrderly w) (need w (λ t. w.stat t path)) sized
                (need-Sure (λ t. w.stat t path))
                λ m.
                  weaken-Triple (IsOrderly w) (sized m) (λ t h. h)
                    (λ _ t ((((h, digest), same), found), equal). (
                      h,
                      digest ∙ ap some (text_eq_sound sha sha256 same),
                      (m, found, same_number m.size size equal),
                    ))
                    (demand-Triple (IsOrderly w) (m.size == size) differs)
    where
      same_number : (m n : ℕ) → (m == n) ≡ true → m ≡ n
      same_number m n h = ground (arith, h)

  settle-Sure :
      {P : Trace → Type 0} (r : Result Error Fields)
      → ((t : Trace) → P t → w.verify_prepared_base t ≡ r)
      → Sure w P (settle w r) (λ _ t. Unit {0})
  unfolding settle
  settle-Sure (ok fields) known =
      weaken-Triple (IsOrderly w) (act w unlink_pending os_error) (λ t h. h) (λ _ t h. tt)
        (act-Sure w {Q = λ t. Unit {0}} unlink_pending os_error (λ t h. inl (fields, known t h))
          λ r t h. tt)
  settle-Sure (err e) known = fail-Triple (IsOrderly w) (prepared_error e)

  -- `publish` from the pointer on
  abbrev write : Json → Text → Text → ℕ → Act (Unit {0})
  write virtual_size path sha size =
      act w (write_pointer (pointer w path sha size virtual_size)) os_error >>= λ _.
      look w w.verify_prepared_base >>= settle w

  write-Sure :
      (virtual_size : Json) (path sha : Text) (m : Metadata)
      → Sure w
          (λ t.
            ((is_pending t ≡ true) × Placed w sha m t)
            × (w.sha256_file t path ≡ some sha)
            × ((v : Metadata) × (w.stat t path ≡ some v) × (v.size ≡ m.size)))
          (write virtual_size path sha m.size)
          (λ _ t. Unit {0})
  write-Sure virtual_size path sha m =
      let written = write_pointer (pointer w path sha m.size virtual_size) in
      bind-Triple (IsOrderly w) (act w written os_error)
        (λ _. look w w.verify_prepared_base >>= settle w)
        (act-Sure w {Q = λ t. Unit {0}} written os_error
          (λ t ((pending, p), digest, (volume, found, same)). (
            pending,
            record {
              libvirt_path = path;
              sha256 = sha;
              size = m.size;
              virtual_size = virtual_size;
              says = refl;
              placed = p.placed;
              reply = p.reply;
              later = p.later;
              image_sha256 = p.digest;
              image = m;
              image_found = p.found;
              image_size = refl;
              volume_sha256 = digest;
              volume = volume;
              volume_found = found;
              volume_size = same;
            },
          ))
          λ r t h. tt)
        λ _.
          bind-Triple (IsOrderly w) (look w w.verify_prepared_base) (settle w)
            (look-Sure w w.verify_prepared_base) λ r. settle-Sure r λ t h. h.1

  -- `publish` once the image is in its place
  abbrev send : Json → Text → Metadata → Act (Unit {0})
  send virtual_size sha m =
      upload w >>= λ path. compare w path sha m.size >>= λ _. write virtual_size path sha m.size

  send-Sure :
      (virtual_size : Json) (sha : Text) (m : Metadata)
      → Sure w
          (λ t. (is_pending t ≡ true) × Placed w sha m t)
          (send virtual_size sha m)
          (λ _ t. Unit {0})
  send-Sure virtual_size sha m =
      bind-Triple (IsOrderly w) (upload w)
        (λ path. compare w path sha m.size >>= λ _. write virtual_size path sha m.size)
        (upload-Sure w {C = Placed w sha m} (Placed-next w sha m))
        λ path.
          bind-Triple (IsOrderly w) (compare w path sha m.size)
            (λ _. write virtual_size path sha m.size) (compare-Sure path sha m.size)
            λ _. write-Sure virtual_size path sha m

  -- `publish` makes only changes that are allowed.
  pub publish-Sure :
      {P : Trace → Type 0} (virtual_size : Json)
      → Sure w P (publish w virtual_size) (λ _ t. Unit {0})
  unfolding publish
  publish-Sure {P} virtual_size =
      let placed = need w (λ t. w.sha256_file t w.host_path) >>= λ sha.
      need w (λ t. w.stat t w.host_path) >>= send virtual_size sha in
      let moved = act w place_image os_error >>= λ _. placed in
      bind-Triple (IsOrderly w) (act w (write_pending (journal w)) os_error) (λ _. moved)
        (act-Sure w {Q = λ t. is_pending t ≡ true} (write_pending (journal w)) os_error (λ t h. tt)
          λ r t h. refl)
        λ _.
          bind-Triple (IsOrderly w) (act w place_image os_error) (λ _. placed)
            (act-Sure w {Q = λ t. is_pending t ≡ true} place_image os_error (λ t h. h.0)
              λ r t h. h.0)
            λ _.
              bind-Triple (IsOrderly w) (need w (λ t. w.sha256_file t w.host_path))
                (λ sha. need w (λ t. w.stat t w.host_path) >>= send virtual_size sha)
                (need-Sure (λ t. w.sha256_file t w.host_path))
                λ sha.
                  bind-Triple (IsOrderly w) (need w (λ t. w.stat t w.host_path))
                    (send virtual_size sha) (need-Sure (λ t. w.stat t w.host_path))
                    λ m.
                      weaken-Triple (IsOrderly w) (send virtual_size sha m)
                        (λ t (((pending, did), digest), found). (
                          pending,
                          record {
                            placed = did.before;
                            reply = did.reply;
                            later = ([], did.last);
                            digest =
                                subst (λ u. w.sha256_file u w.host_path ≡ some sha) did.last digest;
                            found = subst (λ u. w.stat u w.host_path ≡ some m) did.last found;
                          },
                        ))
                        (λ _ t h. h) (send-Sure virtual_size sha m)
