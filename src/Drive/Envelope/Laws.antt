-- ===== src/Drive/Envelope/Laws.antt =====
-- Each job of a run has a key of its own.
use omashiki.Common.{ℕ, zero, suc, ◌-◌, ◌≡◌, refl, sym, ap, ◌∙◌, length, ◌++◌, Result, ok}
use omashiki.Common.Text.{Text, txt, text_eq, decimal}
use omashiki.Common.Decimal.{read_digits, read_digits-decimal, append_injective}
use omashiki.Json.{Json, str, find, null, Exception, get_attr, get_or}
use omashiki.Drive.Envelope.{Args, zeros, pad, job_name, envelope}

read_digits-zeros : (n : ℕ) (t : Text) → read_digits 0 (zeros n ++ t) ≡ read_digits 0 t
unfolding zeros read_digits
read_digits-zeros zero t = refl
read_digits-zeros (suc n) t = read_digits-zeros n t

read_digits-pad : (n : ℕ) → read_digits 0 (pad n) ≡ n
unfolding pad
read_digits-pad n = read_digits-zeros (5 - length (decimal n)) (decimal n) ∙ read_digits-decimal n

job_name_injective :
    (correlation : Text) (i j : ℕ) → job_name correlation i ≡ job_name correlation j → i ≡ j
unfolding job_name
job_name_injective correlation i j h =
    let same : pad i ≡ pad j =
      append_injective (txt "-")
        (append_injective correlation (append_injective (txt "loadtest-") h)) in
    sym (read_digits-pad i) ∙ (ap (read_digits 0) same ∙ read_digits-pad j)

-- `v.get(k)` of an envelope
abbrev pub key_in : Json → Text → Result Exception Json
key_in v k = get_attr (λ e. e) v k null

envelope-key :
    (args : Args) (correlation : Text) (i : ℕ)
    → key_in (envelope args correlation i) (txt "idempotency_key")
      ≡ ok (str (job_name correlation i))
unfolding envelope get_attr get_or find txt text_eq
envelope-key args correlation i = refl

-- Within a run no two jobs share an idempotency key, whatever their number of digits: equal keys
-- belong to one index.
pub envelope-key_injective :
    (args : Args) (correlation : Text) (i j : ℕ)
    → key_in (envelope args correlation i) (txt "idempotency_key")
      ≡ key_in (envelope args correlation j) (txt "idempotency_key")
    → i ≡ j
envelope-key_injective args correlation i j h =
    let both = sym (envelope-key args correlation i) ∙ (h ∙ envelope-key args correlation j) in
    let names : job_name correlation i ≡ job_name correlation j = cc both in
    job_name_injective correlation i j names
