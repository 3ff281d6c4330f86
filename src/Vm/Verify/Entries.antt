-- ===== src/Vm/Verify/Entries.antt =====
-- What the tests of the pointer's entries show.
use omashiki.Common.{
  ℕ, suc, ◌≡◌, ◌==◌, inl, inr, ap, subst, ◌∙◌, true, ◌&&◌, and-eq-true_iff, List, ok, err, Result,
  Bool-cases, use_ok, use_guard, ok_injective,
}
use omashiki.Common.Int.{pos}
use omashiki.Common.Text.{Text, txt, text_eq_sound, is_empty}
use omashiki.Json.{Json, int, str, obj, Fields, Exception, item}
use omashiki.Vm.Pattern.{is_sha256}
use omashiki.Vm.Prepared.{World, full_text, sha256_text}
use omashiki.Vm.Checks.{raise_as, is_text, positive_integer, regular_file, read_pointer}
use omashiki.Vm.Verify.{Pointer, Expected, entry, check_pointer, load_pointer}

-- The pointer's entries are what has been read of them.
pub record Entries (expected : Expected) (p : Pointer) : Type 0 where
  pub fingerprint : item (txt "fingerprint") (obj p.fields) ≡ ok (str expected.fingerprint)
  pub host_path : item (txt "host_path") (obj p.fields) ≡ ok (str expected.host_path)
  pub volume : item (txt "volume") (obj p.fields) ≡ ok (str expected.volume)
  pub libvirt_path : item (txt "libvirt_path") (obj p.fields) ≡ ok (str p.libvirt_path)
  pub digest : item (txt "sha256") (obj p.fields) ≡ ok (str p.sha256)
  pub source : item (txt "source_sha256") (obj p.fields) ≡ ok (str expected.source_sha256)
  pub size : item (txt "size") (obj p.fields) ≡ ok (int (pos p.size))
  pub virtual_size : item (txt "virtual_size") (obj p.fields) ≡ ok (int (pos p.virtual_size))

raise_as-eq-ok {ℓ} : {A : Type ℓ} (r : Result Exception A) {a : A} → raise_as r ≡ ok a → r ≡ ok a
raise_as-eq-ok (ok a) h = ap ok (ok_injective h)
raise_as-eq-ok (err e) h = cc

is_text_sound : (v : Json) (t : Text) → is_text v t ≡ true → v ≡ str t
unfolding is_text
is_text_sound (str s) t h = ap str (text_eq_sound s t h)
is_text_sound _ t h = cc

full_text_sound : (v : Json) (m : Text) {t : Text} → full_text v m ≡ ok t → v ≡ str t
unfolding full_text
full_text_sound (str s) m h = elim (Bool-cases (is_empty s)) [
  | inl e ↦ cc (rw e at h)
  | inr e ↦ ap str (ok_injective (rw e at h))
]
full_text_sound _ m h = cc

sha256_text_sound : (v : Json) (m : Text) {t : Text} → sha256_text v m ≡ ok t → v ≡ str t
unfolding sha256_text
sha256_text_sound (str s) m h = elim (Bool-cases (is_sha256 s)) [
  | inr e ↦ cc (rw e at h)
  | inl e ↦ ap str (ok_injective (rw e at h))
]
sha256_text_sound _ m h = cc

positive_integer_sound :
    (v : Json) (label : Text) {n : ℕ} → positive_integer v label ≡ ok n → v ≡ int (pos n)
unfolding positive_integer
positive_integer_sound (int (pos (suc k))) label h = ap (λ n. int (pos n)) (ok_injective h)
positive_integer_sound _ label h = cc

check_pointer-Entries :
    (expected : Expected) (fields : Fields) {p : Pointer}
    → check_pointer expected fields ≡ ok p
    → Entries expected p
unfolding check_pointer
check_pointer-Entries x fields {p} h = use_ok (entry fields "fingerprint") _ h λ fingerprint e1 h1.
    use_guard (is_text fingerprint x.fingerprint) _ _ h1 λ t1 h2.
      use_ok (entry fields "host_path") _ h2 λ host e2 h3.
        use_ok (entry fields "volume") _ h3 λ volume e3 h4.
          use_guard (is_text host x.host_path && is_text volume x.volume) _ _ h4 λ t2 h5.
            use_ok (entry fields "libvirt_path") _ h5 λ libvirt e4 h6.
              use_ok (full_text libvirt (txt "prepared pointer libvirt path is invalid")) _ h6
                λ path t4 h7. use_ok (entry fields "sha256") _ h7 λ digest e5 h8.
                  use_ok (sha256_text digest (txt "prepared pointer SHA-256 is invalid")) _ h8
                    λ sha t5 h9. use_ok (entry fields "source_sha256") _ h9 λ source e6 h10.
                      use_guard (is_text source x.source_sha256) _ _ h10 λ t6 h11.
                        use_ok (entry fields "size") _ h11 λ sized e7 h12.
                          use_ok (positive_integer sized (txt "size")) _ h12 λ size t7 h13.
                            use_ok (entry fields "virtual_size") _ h13 λ virtual e8 h14.
                              use_ok (positive_integer virtual (txt "virtual_size")) _ h14
                                λ virtual_size t8 h15.
                                  let (is_host, is_volume) = (and-eq-true_iff _ _).0 t2 in
                                  subst (Entries x) (ok_injective h15) (record {
                                    fingerprint =
                                        raise_as-eq-ok _ e1
                                        ∙ ap ok (is_text_sound fingerprint _ t1);
                                    host_path =
                                        raise_as-eq-ok _ e2 ∙ ap ok (is_text_sound host _ is_host);
                                    volume =
                                        raise_as-eq-ok _ e3
                                        ∙ ap ok (is_text_sound volume _ is_volume);
                                    libvirt_path =
                                        raise_as-eq-ok _ e4 ∙ ap ok (full_text_sound libvirt _ t4);
                                    digest =
                                        raise_as-eq-ok _ e5 ∙ ap ok (sha256_text_sound digest _ t5);
                                    source =
                                        raise_as-eq-ok _ e6 ∙ ap ok (is_text_sound source _ t6);
                                    size =
                                        raise_as-eq-ok _ e7
                                        ∙ ap ok (positive_integer_sound sized _ t7);
                                    virtual_size =
                                        raise_as-eq-ok _ e8
                                        ∙ ap ok (positive_integer_sound virtual _ t8);
                                  })

pub load_pointer-Entries :
    (w : World) (sha256 : List ℕ → Text) (path : Text) (x : Expected) {p : Pointer}
    → load_pointer w sha256 path x ≡ ok p
    → Entries x p
unfolding load_pointer
load_pointer-Entries w sha256 path x h =
    use_ok (regular_file w path (txt "prepared pointer") true) _ h λ metadata _ h1.
      use_guard (metadata.mode == 384) _ _ h1
        λ _ h2. use_ok (read_pointer w path) _ h2 λ fields _ h3. check_pointer-Entries x fields h3
