-- ===== src/Vm/Prepared/Laws.antt =====
-- A fingerprint identifies what went into the preparation.
use omashiki.Common.{
  ℕ, ◌≡◌, refl, ap, sym, subst, map, All, ◌∙◌, inl, inr, some, Result, err, List, [], ◌∷◌, ◌++◌,
  ltb, all, not, ◌||◌, ok, length, Bool-cases, use_ok, ◌>>=◌, >>=-eq-ok, guard, or_raise,
  or_raise-eq-ok, ok_injective, arith,
}
use omashiki.Common.Text.{Text, txt, is_empty}
use mathlib.Core.Path.{ap₂}
use omashiki.Json.{Json, Exception, str, item}
use omashiki.Vm.Frame.{frame, frames}
use omashiki.Vm.Frame.Laws.{frames_injective, frames_nil, frames_cons}
use omashiki.Vm.Prepared.{
  Error, World, base_sha, full_text, subscript, fingerprint_files, framed, file_input, files_framed,
  fingerprint_bytes, preparation_fingerprint, encode_ascii, prepared_base_error, other_error,
  os_error, is_symlink, is_file,
}

-- The files of a list hold these inputs.
abbrev pub Holds : World → Text → List Text → List (Text × List ℕ) → Type 0
Holds w root [] [] = Unit
Holds w root [] (i ∷ is) = ⊥
Holds w root (r ∷ rs) [] = ⊥
Holds w root (r ∷ rs) (i ∷ is) =
    (i.0 ≡ r) × (w.read_bytes (w.join root r) ≡ some i.1) × Holds w root rs is

encode_ascii-eq-ok : (t : Text) {b : List ℕ} → encode_ascii t ≡ ok b → b ≡ t
unfolding encode_ascii
encode_ascii-eq-ok t h = elim (Bool-cases (all (λ c. ltb c 128) t)) [
  | inl e ↦ sym (ok_injective (rw e at h))
  | inr e ↦ cc (rw e at h)
]

file_input-Holds :
    (w : World) (root r : Text) {i : Text × List ℕ}
    → file_input w root r ≡ ok i
    → (i.0 ≡ r) × (w.read_bytes (w.join root r) ≡ some i.1)
unfolding file_input
file_input-Holds w root r h =
    let path = w.join root r in
    let checked = not (is_symlink (w.lstat path) || not (is_file (w.stat path))) in
    let problem = prepared_base_error (txt "fingerprint input is not a regular file: " ++ path) in
    let (_, regular, h1) = >>=-eq-ok (guard checked problem) _ h in
    let (content, read, h2) = >>=-eq-ok (or_raise (w.read_bytes path) os_error) _ h1 in
    let (label, encoded, h3) = >>=-eq-ok (encode_ascii r) _ h2 in
    (
      ap (λ p. p.0) (sym (ok_injective h3)) ∙ encode_ascii-eq-ok r encoded,
      or_raise-eq-ok (w.read_bytes path) os_error read ∙ ap (λ p. some p.1) (ok_injective h3),
    )

files_framed-Holds :
    (w : World) (root : Text) (rs : List Text) {b : List ℕ}
    → files_framed w root rs ≡ ok b
    → (is : List (Text × List ℕ)) × (frames is ≡ some b) × Holds w root rs is
unfolding files_framed framed
files_framed-Holds w root [] h = ([], frames_nil ∙ ap some (ok_injective h), tt)
files_framed-Holds w root (r ∷ rs) h =
    let (i, input, h1) = >>=-eq-ok (file_input w root r) _ h in
    let (a, first, h2) = >>=-eq-ok (or_raise (frame i) other_error) _ h1 in
    let (later, rest, h3) = >>=-eq-ok (files_framed w root rs) _ h2 in
    let (is, framed_rest, held) = files_framed-Holds w root rs rest in
    let (label, content) = file_input-Holds w root r input in
    (
      i ∷ is,
      frames_cons i is (or_raise-eq-ok (frame i) other_error first) framed_rest
          ∙ ap some (ok_injective h3),
      (label, content, held),
    )

-- Two preparations had the same inputs.
pub record SameInputs (w v : World) (manifest given : Json) (path there : Text) : Type 0 where
  pub contents : w.read_bytes (w.path path) ≡ v.read_bytes (v.path there)
  pub base : base_sha manifest ≡ base_sha given
  pub cloud_init : Text
  pub cloud_init_named :
      (item (txt "prepared") manifest >>= item (txt "cloud_init")) ≡ ok (str cloud_init)
  pub cloud_init_given :
      (item (txt "prepared") given >>= item (txt "cloud_init")) ≡ ok (str cloud_init)
  pub files :
      All
        (λ r.
          w.read_bytes (w.join (w.grandparent path) r)
          ≡ v.read_bytes (v.join (v.grandparent there) r))
        (fingerprint_files ++ cloud_init ∷ [])

full_text-eq-ok : (j : Json) (m : Text) {t : Text} → full_text j m ≡ ok t → j ≡ str t
unfolding full_text
full_text-eq-ok (str t) m h = elim (Bool-cases (is_empty t)) [
  | inl e ↦ cc (rw e at h)
  | inr e ↦ ap str (ok_injective (rw e at h))
]
full_text-eq-ok _ m h = cc

subscript-eq-ok :
    (r : Result Exception Json) (m : Text) {v : Json} → subscript r m ≡ ok v → r ≡ ok v
unfolding subscript
subscript-eq-ok (ok v) m h = ap ok (ok_injective h)
subscript-eq-ok (err e) m h = cc

-- The bytes that are hashed are the frames of the inputs.
record Hashed (w : World) (manifest : Json) (path : Text) (content : List ℕ) : Type 0 where
  manifest_bytes : List ℕ
  manifest_read : w.read_bytes (w.path path) ≡ some manifest_bytes
  sha : List ℕ
  sha_got : base_sha manifest ≡ ok sha
  cloud_init : Text
  named : (item (txt "prepared") manifest >>= item (txt "cloud_init")) ≡ ok (str cloud_init)
  others : List (Text × List ℕ)
  held : Holds w (w.grandparent path) (fingerprint_files ++ cloud_init ∷ []) others
  whole :
      frames ((txt "manifest", manifest_bytes) ∷ (txt "base.sha256", sha) ∷ others) ≡ some content

frames_two :
    (i j : Text × List ℕ) (is : List (Text × List ℕ)) {a b c d : List ℕ}
    → framed i ≡ ok a
    → framed j ≡ ok b
    → frames is ≡ some c
    → ◌≡◌ {A = Result Error (List ℕ)} (ok (a ++ (b ++ c))) (ok d)
    → frames (i ∷ j ∷ is) ≡ some d
unfolding framed
frames_two i j is {a} {b} h k l e =
    let second = frames_cons j is (or_raise-eq-ok (frame j) other_error k) l in
    frames_cons i (j ∷ is) (or_raise-eq-ok (frame i) other_error h) second
    ∙ ap some (ok_injective e)

fingerprint_bytes-Hashed :
    (w : World) (manifest : Json) (path : Text) {content : List ℕ}
    → fingerprint_bytes w manifest path ≡ ok content
    → Hashed w manifest path content
unfolding fingerprint_bytes
fingerprint_bytes-Hashed w manifest path h =
    let named = item (txt "prepared") manifest >>= item (txt "cloud_init") in
    use_ok (base_sha manifest) _ h λ sha sha_got h1.
      use_ok (or_raise (w.read_bytes (w.path path)) os_error) _ h1 λ bytes read h2.
        use_ok (framed (txt "manifest", bytes)) _ h2 λ first e1 h3.
          use_ok (framed (txt "base.sha256", sha)) _ h3 λ second e2 h4.
            use_ok (subscript named (txt "manifest prepared.cloud_init is required")) _ h4
              λ value got h5.
                use_ok (full_text value (txt "manifest prepared.cloud_init is invalid")) _ h5
                  λ cloud full h6.
                    use_ok (files_framed w (w.grandparent path) (fingerprint_files ++ cloud ∷ [])) _
                      h6
                      λ later e3 h7.
                        let (others, framed_others, held) =
                          files_framed-Holds w (w.grandparent path)
                            (fingerprint_files ++ cloud ∷ []) e3 in
                        record {
                          manifest_bytes = bytes;
                          manifest_read = or_raise-eq-ok _ os_error read;
                          sha = sha;
                          sha_got = sha_got;
                          cloud_init = cloud;
                          named =
                              subscript-eq-ok named _ got ∙ ap ok (full_text-eq-ok value _ full);
                          others = others;
                          held = held;
                          whole = frames_two _ _ others e1 e2 framed_others h7;
                        }

-- The names of what the files hold
Holds-labels :
    (w : World) (root : Text) (rs : List Text) (is : List (Text × List ℕ))
    → Holds w root rs is
    → map (λ i. i.0) is ≡ rs
Holds-labels w root [] [] h = refl
Holds-labels w root [] (i ∷ is) h = absurd h
Holds-labels w root (r ∷ rs) [] h = absurd h
Holds-labels w root (r ∷ rs) (i ∷ is) h = ap₂ ◌∷◌ h.0 (Holds-labels w root rs is h.2)

Holds-length :
    (w : World) (root : Text) (rs : List Text) (is : List (Text × List ℕ))
    → Holds w root rs is
    → length is ≡ length rs
Holds-length w root [] [] h = refl
Holds-length w root [] (i ∷ is) h = absurd h
Holds-length w root (r ∷ rs) [] h = absurd h
Holds-length w root (r ∷ rs) (i ∷ is) h = omega (arith, Holds-length w root rs is h.2)

Holds-same :
    (w v : World) (root there : Text) (rs : List Text) (is : List (Text × List ℕ))
    → Holds w root rs is
    → Holds v there rs is
    → All (λ r. w.read_bytes (w.join root r) ≡ v.read_bytes (v.join there r)) rs
Holds-same w v root there [] is h k = tt
Holds-same w v root there (r ∷ rs) [] h k = absurd h
Holds-same w v root there (r ∷ rs) (i ∷ is) h k =
    (h.1 ∙ sym k.1, Holds-same w v root there rs is h.2 k.2)

Hashed-SameInputs :
    (w v : World) (m n : Json) (p q : Text) {content : List ℕ}
    → Hashed w m p content
    → Hashed v n q content
    → SameInputs w v m n p q
Hashed-SameInputs w v m n p q a b =
    let these = fingerprint_files ++ a.cloud_init ∷ [] in
    let those = fingerprint_files ++ b.cloud_init ∷ [] in
    let sizes : length a.others ≡ length b.others =
      Holds-length w (w.grandparent p) these a.others a.held
      ∙ sym (Holds-length v (v.grandparent q) those b.others b.held) in
    let same = frames_injective _ _ (omega arith) a.whole b.whole in
    let others : a.others ≡ b.others = cc in
    let names : these ≡ those =
      sym (Holds-labels w (w.grandparent p) these a.others a.held)
      ∙ (ap (map (λ i. i.0)) others ∙ Holds-labels v (v.grandparent q) those b.others b.held) in
    let bytes : a.manifest_bytes ≡ b.manifest_bytes = cc in
    let shas : a.sha ≡ b.sha = cc in
    let cloud : b.cloud_init ≡ a.cloud_init = cc in
    let held : Holds v (v.grandparent q) these a.others =
      subst (λ is. Holds v (v.grandparent q) these is) (sym others)
        (subst (λ rs. Holds v (v.grandparent q) rs b.others) (sym names) b.held) in
    record {
      contents = a.manifest_read ∙ (ap some bytes ∙ sym b.manifest_read);
      base = a.sha_got ∙ (ap ok shas ∙ sym b.sha_got);
      cloud_init = a.cloud_init;
      cloud_init_named = a.named;
      cloud_init_given = b.named ∙ ap (λ t. ok (str t)) cloud;
      files = Holds-same w v (w.grandparent p) (v.grandparent q) these a.others a.held held;
    }

-- Two preparations with one fingerprint had the same inputs, whatever their lengths, unless the two
-- byte strings that they hash are different ones with one SHA-256 digest: the same manifest bytes, base digest and name of the cloud-init file,
-- and the same bytes in this file and in each of the five files that a preparation depends on.
pub preparation_fingerprint-Identifies :
    (sha256 : List ℕ → Text) (w v : World) (manifest given : Json) (path there : Text) {f : Text}
    → ((s t : List ℕ)
        → fingerprint_bytes w manifest path ≡ ok s
        → fingerprint_bytes v given there ≡ ok t
        → sha256 s ≡ sha256 t
        → s ≡ t)
    → preparation_fingerprint w sha256 manifest path ≡ ok f
    → preparation_fingerprint v sha256 given there ≡ ok f
    → SameInputs w v manifest given path there
unfolding preparation_fingerprint
preparation_fingerprint-Identifies sha256 w v manifest given path there collision_free h k =
    use_ok (fingerprint_bytes w manifest path) _ h λ content got h1.
      use_ok (fingerprint_bytes v given there) _ k λ other found k1.
        let same : content ≡ other =
          collision_free content other got found (ok_injective h1 ∙ sym (ok_injective k1)) in
        Hashed-SameInputs w v manifest given path there
          (fingerprint_bytes-Hashed w manifest path got)
          (fingerprint_bytes-Hashed v given there (found ∙ ap ok (sym same)))
