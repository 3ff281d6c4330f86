-- ===== src/Vm/Frame/Laws.antt =====
-- The frames can be told apart: no two lists of inputs have the same frames.
use omashiki.Common.{
  ℕ, zero, suc, ◌/◌, ◌%◌, ◌≡◌, refl, ap, sym, ◌∙◌, some, List, [], ◌∷◌, ◌++◌, length, length-append,
  arith, append_assoc, and_then-eq-some,
}
use omashiki.Common.Text.{Text}
use omashiki.Vm.Frame.{to_bytes, block, frame, frames}

append_split {ℓ} :
    {A : Type ℓ} (xs ys : List A) {us vs : List A}
    → length xs ≡ length ys
    → xs ++ us ≡ ys ++ vs
    → (xs ≡ ys) × (us ≡ vs)
append_split [] [] n e = (refl, e)
append_split [] (y ∷ ys) n e = absurd (omega arith)
append_split (x ∷ xs) [] n e = absurd (omega arith)
append_split (x ∷ xs) (y ∷ ys) {us} {vs} n e =
    let rest : xs ++ us ≡ ys ++ vs = cc in
    let (front, back) = append_split xs ys (omega arith) rest in (cc, back)

length-to_bytes : (w n : ℕ) {a : List ℕ} → to_bytes w n ≡ some a → length a ≡ w
unfolding to_bytes
length-to_bytes zero n h = ground arith
length-to_bytes (suc w) n {a} h =
    let (front, e, last) = and_then-eq-some (to_bytes w (n / 256)) _ h in
    let whole : a ≡ front ++ (n % 256) ∷ [] = cc in
    rw whole (omega (arith, length-to_bytes w (n / 256) e, length-append front ((n % 256) ∷ [])))

to_bytes_injective :
    (w m n : ℕ) {a : List ℕ} → to_bytes w m ≡ some a → to_bytes w n ≡ some a → m ≡ n
unfolding to_bytes
to_bytes_injective zero m n h k = ground arith
to_bytes_injective (suc w) m n {a} h k =
    let (x, ex, lx) = and_then-eq-some (to_bytes w (m / 256)) _ h in
    let (y, ey, ly) = and_then-eq-some (to_bytes w (n / 256)) _ k in
    let same : x ++ (m % 256) ∷ [] ≡ y ++ (n % 256) ∷ [] = cc in
    let sizes : length x ≡ length y =
      length-to_bytes w (m / 256) ex ∙ sym (length-to_bytes w (n / 256) ey) in
    let (front, back) = append_split x y sizes same in
    let low : m % 256 ≡ n % 256 = cc in
    let high : m / 256 ≡ n / 256 =
      to_bytes_injective w (m / 256) (n / 256) ex (ey ∙ ap some (sym front)) in
    omega arith

-- A block at the start of a text can be told, and so can what follows it.
block_split :
    (w : ℕ) (s t : List ℕ) {a b us vs : List ℕ}
    → block w s ≡ some a
    → block w t ≡ some b
    → a ++ us ≡ b ++ vs
    → (s ≡ t) × (us ≡ vs)
unfolding block
block_split w s t {a} {b} {us} {vs} h k e =
    let (x, ex, lx) = and_then-eq-some (to_bytes w (length s)) _ h in
    let (y, ey, ly) = and_then-eq-some (to_bytes w (length t)) _ k in
    let whole : x ++ (s ++ us) ≡ y ++ (t ++ vs) =
      sym (append_assoc x s us)
      ∙ (ap (λ z. z ++ us) (cc) ∙ (e ∙ (ap (λ z. z ++ vs) (cc) ∙ append_assoc y t vs))) in
    let sizes : length x ≡ length y =
      length-to_bytes w (length s) ex ∙ sym (length-to_bytes w (length t) ey) in
    let (front, back) = append_split x y sizes whole in
    let lengths : length s ≡ length t =
      to_bytes_injective w (length s) (length t) ex (ey ∙ ap some (sym front)) in
    append_split s t lengths back

frame_split :
    (i j : Text × List ℕ) {a b us vs : List ℕ}
    → frame i ≡ some a
    → frame j ≡ some b
    → a ++ us ≡ b ++ vs
    → (i ≡ j) × (us ≡ vs)
unfolding frame
frame_split (l, s) (m, t) {a} {b} {us} {vs} h k e =
    let (x, ex, h1) = and_then-eq-some (block 4 l) _ h in
    let (u, eu, lu) = and_then-eq-some (block 8 s) _ h1 in
    let (y, ey, k1) = and_then-eq-some (block 4 m) _ k in
    let (v, ev, lv) = and_then-eq-some (block 8 t) _ k1 in
    let whole : x ++ (u ++ us) ≡ y ++ (v ++ vs) =
      sym (append_assoc x u us)
      ∙ (ap (λ z. z ++ us) (cc) ∙ (e ∙ (ap (λ z. z ++ vs) (cc) ∙ append_assoc y v vs))) in
    let (labels, back) = block_split 4 l m ex ey whole in
    let (contents, rest) = block_split 8 s t eu ev back in (cc, rest)

pub frames-append :
    (is js : List (Text × List ℕ)) {a b : List ℕ}
    → frames is ≡ some a
    → frames js ≡ some b
    → frames (is ++ js) ≡ some (a ++ b)
unfolding frames
frames-append [] js {a} {b} h k =
    let none_left : a ≡ [] = cc in k ∙ ap (λ z. some (z ++ b)) (sym none_left)
frames-append (i ∷ is) js {a} {b} h k =
    let (x, ex, h1) = and_then-eq-some (frame i) _ h in
    let (u, eu, lu) = and_then-eq-some (frames is) _ h1 in
    let whole : (x ++ u) ++ b ≡ a ++ b = ap (λ z. z ++ b) (cc) in
    rw (ex, frames-append is js eu k) (ap some (sym (append_assoc x u b) ∙ whole))

-- Lists of as many inputs have the same frames only if they are the same.
pub frames_injective :
    (is js : List (Text × List ℕ)) {a : List ℕ}
    → length is ≡ length js
    → frames is ≡ some a
    → frames js ≡ some a
    → is ≡ js
unfolding frames
frames_injective [] [] n h k = refl
frames_injective [] (j ∷ js) n h k = absurd (omega arith)
frames_injective (i ∷ is) [] n h k = absurd (omega arith)
frames_injective (i ∷ is) (j ∷ js) n h k =
    let (x, ex, h1) = and_then-eq-some (frame i) _ h in
    let (u, eu, lu) = and_then-eq-some (frames is) _ h1 in
    let (y, ey, k1) = and_then-eq-some (frame j) _ k in
    let (v, ev, lv) = and_then-eq-some (frames js) _ k1 in
    let whole : x ++ u ≡ y ++ v = cc in
    let (first, rest) = frame_split i j ex ey whole in
    let others : is ≡ js = frames_injective is js (omega arith) eu (ev ∙ ap some (sym rest)) in cc

pub frames_nil : frames [] ≡ some []
unfolding frames
frames_nil = refl

pub frames_cons :
    (i : Text × List ℕ) (is : List (Text × List ℕ)) {a b : List ℕ}
    → frame i ≡ some a
    → frames is ≡ some b
    → frames (i ∷ is) ≡ some (a ++ b)
unfolding frames
frames_cons i is h k = rw (h, k)
