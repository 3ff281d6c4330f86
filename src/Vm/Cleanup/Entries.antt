-- ===== src/Vm/Cleanup/Entries.antt =====
-- What stands in the report behind the steps.
use omashiki.Common.{
  ◌≡◌, refl, ap, sym, ◌∙◌, Bool, true, false, and-eq-true_iff, some, List, [], ◌∷◌, ◌++◌, any, all,
  All, if◌then◌else◌, Result, ok, err, Bool-cases, inl, inr,
}
use native.Mathlib.Omega.{arith}
use omashiki.Common.Text.{Text, txt, text_eq, text_eq_sound, text_eq_refl, ends_with}
use omashiki.Vm.Cleanup.{
  Value, flag, State, World, put, cleanup_step, status_of, returned, flag_step,
}
use omashiki.Vm.Cleanup.Steps.{
  through, over, retention, same_key, steps, restore_keys, restore_all_keys, keys_restored, retain,
  remove_images, restore_selinux, verify_no_containers,
}

-- A suffix is told from a key that does not end in it.
ends_with-append : (name s : Text) → ends_with s (name ++ s) ≡ true
unfolding ends_with
ends_with-append [] [] = refl
ends_with-append [] (c ∷ s) = rw (text_eq_refl (c ∷ s)) refl
ends_with-append (c ∷ name) s = ground (arith, ends_with-append name s)

other_key : (name s key : Text) → ends_with s key ≡ false → text_eq (name ++ s) key ≡ false
other_key name s key h = elim (Bool-cases (text_eq (name ++ s) key)) [
  | inr e ↦ e
  | inl e ↦
      let same = text_eq_sound (name ++ s) key e in
      let ends : ends_with s key ≡ true = rw (sym same) (ends_with-append name s) in
      absurd (cc (h, ends))
]

pub returned_ok : (r : Result Text Bool) → returned r ≡ true → r ≡ ok true
unfolding returned
returned_ok (ok b) h = ap ok h
returned_ok (err e) h = cc

-- A step leaves this entry alone.
abbrev pub Leaves : Text → (State → State) → Type 0
Leaves key step = (s : State) → status_of key (step s) ≡ status_of key s

put-Leaves : (key k : Text) (v : Value) → text_eq k key ≡ false → Leaves key (put k v)
unfolding status_of
put-Leaves key k v h s = rw h refl

put-own : (key : Text) (v : Value) (s : State) → status_of key (put key v s) ≡ some v
unfolding status_of
put-own key v s = rw (text_eq_refl key) refl

cleanup_step-Leaves {ℓ} :
    {A : Type ℓ} (key k : Text) (f : A → Value) (r : Result Text A)
    → text_eq k key ≡ false
    → Leaves key (cleanup_step k f r)
unfolding cleanup_step status_of
cleanup_step-Leaves key k f (ok v) h s = rw h refl
cleanup_step-Leaves key k f (err e) h s = rw h refl

pub flag_step-Leaves :
    (key k second : Text) (r : Result Text Bool)
    → text_eq k key ≡ false
    → text_eq second key ≡ false
    → Leaves key (flag_step k second r)
unfolding flag_step
flag_step-Leaves key k second r h j s =
    put-Leaves key second _ j (cleanup_step k flag r s) ∙ cleanup_step-Leaves key k flag r h s

flag_step-own :
    (key k : Text) (r : Result Text Bool) (s : State)
    → status_of key (flag_step k key r s) ≡ some (flag (returned r))
unfolding flag_step status_of
flag_step-own key k r s = rw (text_eq_refl key) refl

over-Leaves {ℓ} :
    {A : Type ℓ} (key : Text) (f : A → State → State)
    → ((a : A) → Leaves key (f a))
    → (xs : List A) → Leaves key (over f xs)
unfolding over
over-Leaves key f h [] s = refl
over-Leaves key f h (x ∷ xs) s = over-Leaves key f h xs (f x s) ∙ h x s

through-Leaves :
    (key : Text) (fs : List (State → State)) → All (Leaves key) fs → Leaves key (through fs)
unfolding through
through-Leaves key [] h s = refl
through-Leaves key (f ∷ fs) h s = through-Leaves key fs h.1 (f s) ∙ h.0 s

pub all_found :
    (p : Text → Bool) (key : Text) (keys : List Text)
    → any (text_eq key) keys ≡ true
    → all p keys ≡ true
    → p key ≡ true
all_found p key [] h a = cc
all_found p key (k ∷ ks) h a =
    let (here, there) = (and-eq-true_iff (p k) (all p ks)).0 a in
    elim (Bool-cases (text_eq key k)) [
      | inl e ↦ rw (text_eq_sound key k e) here
      | inr e ↦ all_found p key ks (rw e at h) there
    ]

restore_all_keys-Leaves :
    (w : World) (key : Text)
    → ends_with (txt "_authorized_keys_restored") key ≡ false
    → text_eq (txt "guest_authorized_keys_restored") key ≡ false
    → Leaves key (restore_all_keys w)
unfolding restore_all_keys restore_keys
restore_all_keys-Leaves w key h k s =
    put-Leaves key _ _ k _
    ∙ over-Leaves key (restore_keys w)
        (λ (name, snapshot) t.
          let other = other_key name (txt "_authorized_keys_restored") key h in
          flag_step-Leaves key _ _ _ other other t)
        w.authorized_snapshots s

retain-Leaves :
    (w : World) (key : Text)
    → text_eq (txt "vms_preserved") key ≡ false
    → text_eq (txt "vms_removed") key ≡ false
    → text_eq (txt "vm_retention_complete") key ≡ false
    → Leaves key (retain w)
unfolding retain
retain-Leaves w key h j k s =
    put-Leaves key _ _ k _
    ∙ flag_step-Leaves key _ _ (retention w) (either w.keep_vms) (either w.keep_vms) s
  where
    either : (b : Bool) → text_eq (if b then txt "vms_preserved" else txt "vms_removed") key ≡ false
    either true = h
    either false = j

pub vms_stopped-entry :
    (w : World) (s : State)
    → status_of (txt "vms_stopped") (through (steps w) s) ≡ some (flag (returned w.stop_owned_vms))
unfolding through steps txt text_eq
vms_stopped-entry w s =
    retain-Leaves w _ refl refl refl _ ∙ flag_step-own (txt "vms_stopped") _ w.stop_owned_vms _

pub retained-entry :
    (w : World) (s : State)
    → status_of (txt "vm_retention_complete") (through (steps w) s)
      ≡ some (flag (returned (retention w)))
unfolding through steps retain status_of
retained-entry w s = rw (text_eq_refl (txt "vm_retention_complete")) refl

pub keys-entry :
    (w : World) (s : State)
    → status_of (txt "guest_authorized_keys_restored") (through (steps w) s)
      ≡ some (flag (all (keys_restored w) w.authorized_snapshots))
unfolding through steps restore_all_keys txt text_eq
keys-entry w s =
    retain-Leaves w _ refl refl refl _
    ∙ flag_step-Leaves _ _ _ w.stop_owned_vms refl refl _
    ∙ put-own _ _ _

-- The entries of the three steps in the middle
same_key-Ends :
    (w : World) (key : Text) (r : Result Text Bool) (s : State) (fs : List (State → State))
    → All (Leaves key) fs
    → status_of key (through fs (flag_step key key r s)) ≡ some (flag (returned r))
same_key-Ends w key r s fs h = through-Leaves key fs h _ ∙ flag_step-own key key r s

remove_images-Leaves :
    (w : World) (key : Text)
    → text_eq (txt "image_removed") key ≡ false
    → Leaves key (remove_images w)
unfolding remove_images
remove_images-Leaves w key h s =
    put-Leaves key _ _ h _ ∙ cleanup_step-Leaves key _ _ w.remove_images h s

restore_selinux-Leaves :
    (w : World) (key : Text) → text_eq (txt "selinux") key ≡ false → Leaves key (restore_selinux w)
unfolding restore_selinux
restore_selinux-Leaves w key h s =
    put-Leaves key _ _ h _ ∙ cleanup_step-Leaves key _ _ w.restore_selinux h s

verify_no_containers-Leaves :
    (w : World) (key : Text)
    → text_eq (txt "labelled_containers_absent") key ≡ false
    → Leaves key (verify_no_containers w)
unfolding verify_no_containers
verify_no_containers-Leaves w key h s = flag_step-Leaves key _ _ _ h h s

-- The steps behind the removal of the database, and the keys that they write
abbrev last_steps : World → List (State → State)
last_steps w =
    remove_images w
    ∷ restore_selinux w
    ∷ verify_no_containers w
    ∷ restore_all_keys w
    ∷ same_key "vms_stopped" w.stop_owned_vms
    ∷ retain w
    ∷ []

abbrev last_keys : List Text
last_keys =
    txt "image_removed"
    ∷ txt "selinux"
    ∷ txt "labelled_containers_absent"
    ∷ txt "guest_authorized_keys_restored"
    ∷ txt "vms_stopped"
    ∷ txt "vms_preserved"
    ∷ txt "vms_removed"
    ∷ txt "vm_retention_complete"
    ∷ []

last_steps-Leaves :
    (w : World) (key : Text)
    → ends_with (txt "_authorized_keys_restored") key ≡ false
    → All (λ k. text_eq k key ≡ false) last_keys
    → All (Leaves key) (last_steps w)
last_steps-Leaves w key h
      (image, (linux, (absent, (keys, (stopped, (kept, (gone, (retained, _)))))))) =
    (
      remove_images-Leaves w key image,
      (
        restore_selinux-Leaves w key linux,
        (
          verify_no_containers-Leaves w key absent,
          (
            restore_all_keys-Leaves w key h keys,
            (
              flag_step-Leaves key _ _ w.stop_owned_vms stopped stopped,
              (retain-Leaves w key kept gone retained, tt),
            ),
          ),
        ),
      ),
    )

pub database-entry :
    (w : World) (s : State)
    → status_of (txt "database_removed") (through (steps w) s) ≡ some (flag (returned w.remove_db))
unfolding through steps txt text_eq ends_with
database-entry w s =
    let key = txt "database_removed" in
    same_key-Ends w key w.remove_db _ (last_steps w) (
      last_steps-Leaves w key refl
        (refl, (refl, (refl, (refl, (refl, (refl, (refl, (refl, tt)))))))))

pub runtime-entry :
    (w : World) (s : State)
    → status_of (txt "runtime_removed") (through (steps w) s)
      ≡ some (flag (returned w.remove_runtime))
unfolding through steps txt text_eq ends_with
runtime-entry w s =
    let key = txt "runtime_removed" in
    same_key-Ends w key w.remove_runtime _ (same_key "database_removed" w.remove_db ∷ last_steps w)
      (
        flag_step-Leaves key _ _ w.remove_db refl refl,
        last_steps-Leaves w key refl
            (refl, (refl, (refl, (refl, (refl, (refl, (refl, (refl, tt)))))))),
      )
