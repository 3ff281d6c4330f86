-- ===== src/Vm/Lines/Split.antt =====
-- The lines of a file: how `split_lines` works on a file that grows at its end.
use omashiki.Common.{
  ℕ, ◌≡◌, ◌≢◌, refl, ap, sym, ◌∙◌, Bool, true, false, not, List, [], ◌∷◌, ◌++◌, ◌==◌, map, All, any,
  if◌then◌else◌, Bool-cases, inl, inr, arith, append-nil,
}
use omashiki.Common.Text.{rstrip, keep_last, text_eq, text_eq_sound, text_eq_refl}
use mathlib.Core.Path.{ap₂}
use omashiki.Vm.Lines.{
  is_line_end, ends_here, push, split_lines, bare, joined, is_ended, is_open, without_line,
}

joined-push : (c : ℕ) (ls : List (List ℕ)) → joined (push c ls) ≡ c ∷ joined ls
unfolding joined
joined-push c [] = refl
joined-push c (l ∷ ls) = refl

pub joined-split_lines : (s : List ℕ) → joined (split_lines s) ≡ s
unfolding joined split_lines
joined-split_lines [] = refl
joined-split_lines (c ∷ t) = elim (Bool-cases (ends_here c t)) [
  | inl e ↦ rw e (ap (λ r. c ∷ r) (joined-split_lines t))
  | inr e ↦ rw e (joined-push c (split_lines t) ∙ ap (λ r. c ∷ r) (joined-split_lines t))
]

-- A text is empty or ends with a line end.
abbrev pub IsClosed : List ℕ → Type 0
IsClosed [] = Unit
IsClosed (c ∷ t) = is_ended (c ∷ t) ≡ true

-- A text does not begin with a newline.
abbrev pub BeginsNot : List ℕ → Type 0
BeginsNot [] = Unit
BeginsNot (d ∷ t) = (d == 10) ≡ false

split_lines_cons :
    (c : ℕ) (t : List ℕ)
    → split_lines (c ∷ t)
      ≡ (if ends_here c t then (c ∷ []) ∷ split_lines t else push c (split_lines t))
unfolding split_lines
split_lines_cons c t = refl

-- The first line begins with the first byte.
split_lines-full :
    (c : ℕ) (t : List ℕ)
    → (l : List ℕ) × (ls : List (List ℕ)) × (split_lines (c ∷ t) ≡ (c ∷ l) ∷ ls)
unfolding split_lines
split_lines-full c t = elim (Bool-cases (ends_here c t)) [
  | inl e ↦ ([], split_lines t, rw e)
  | inr e ↦ rw e (first (split_lines t))
]
  where
    first : (ls : List (List ℕ)) → (l : List ℕ) × (ms : List (List ℕ)) × (push c ls ≡ (c ∷ l) ∷ ms)
    first [] = ([], [], refl)
    first (l ∷ ls) = (l, ls, refl)

push-append :
    (c d : ℕ) (s : List ℕ) (ls : List (List ℕ))
    → push c (split_lines (d ∷ s) ++ ls) ≡ push c (split_lines (d ∷ s)) ++ ls
push-append c d s ls = let (l, ms, e) = split_lines-full d s in rw e

-- Behind a closed text the lines begin anew.
pub split_lines-append :
    (s t : List ℕ)
    → IsClosed s
    → BeginsNot t
    → split_lines (s ++ t) ≡ split_lines s ++ split_lines t
split_lines-append [] t h b = unfold split_lines in refl
split_lines-append (c ∷ []) [] h b = unfold split_lines in sym (append-nil _)
split_lines-append (c ∷ []) (d ∷ t) h b = unfold split_lines is_ended in ground arith
split_lines-append (c ∷ d ∷ s) t h b =
    let rest = split_lines-append (d ∷ s) t (unfold is_ended in h) b in
    elim (Bool-cases (ends_here c (d ∷ s))) [
      | inl e ↦
          rw (split_lines_cons c (d ∷ s ++ t), split_lines_cons c (d ∷ s), e)
            (ap (λ ls. (c ∷ []) ∷ ls) rest)
      | inr e ↦
          rw (split_lines_cons c (d ∷ s ++ t), split_lines_cons c (d ∷ s), e)
            (ap (push c) rest ∙ push-append c d s (split_lines t))
    ]

-- Whether the lines are open is told by the last byte.
pub is_open-split_lines :
    (c : ℕ) (t : List ℕ) → is_open (split_lines (c ∷ t)) ≡ not (is_ended (c ∷ t))
unfolding is_ended is_open
is_open-split_lines c [] = unfold split_lines in ground arith
is_open-split_lines c (d ∷ t) =
    let rest = is_open-split_lines d t in
    let (l, ms, full) = split_lines-full d t in
    elim (Bool-cases (ends_here c (d ∷ t))) [
      | inl e ↦ rw (split_lines_cons c (d ∷ t), e, full) (rw full at rest)
      | inr e ↦ rw (split_lines_cons c (d ∷ t), e, full) (open_push l ms (rw full at rest))
    ]
  where
    open_push :
        (l : List ℕ) (ms : List (List ℕ)) {b : Bool}
        → is_open ((d ∷ l) ∷ ms) ≡ b
        → is_open ((c ∷ d ∷ l) ∷ ms) ≡ b
    open_push l [] h = h
    open_push l (m ∷ ms) h = h

-- A line that an edit may be given: it is not empty, and has no line end.
abbrev pub IsPlainLine : List ℕ → Type 0
IsPlainLine l = (l ≢ []) × All (λ c. is_line_end c ≡ false) l

bare_ended : (l : List ℕ) → All (λ c. is_line_end c ≡ false) l → bare (l ++ 10 ∷ []) ≡ l
unfolding bare rstrip
bare_ended [] h = refl
bare_ended (c ∷ l) h = rw (bare_ended l h.1) (kept l)
  where
    kept : (l : List ℕ) → keep_last is_line_end c l ≡ c ∷ l
    kept [] = rw h.0
    kept (d ∷ l) = refl

split_lines_ended :
    (c : ℕ) (l : List ℕ)
    → All (λ d. is_line_end d ≡ false) (c ∷ l)
    → split_lines (c ∷ l ++ 10 ∷ []) ≡ (c ∷ l ++ 10 ∷ []) ∷ []
unfolding split_lines
split_lines_ended c [] h = ground arith
split_lines_ended c (d ∷ l) h = rw (split_lines_ended d l h.1) (ground arith)

-- A plain line with its end is one line.
pub split_lines_line :
    (l : List ℕ) → IsPlainLine l → split_lines (l ++ 10 ∷ []) ≡ (l ++ 10 ∷ []) ∷ []
split_lines_line [] h = absurd (h.0 refl)
split_lines_line (c ∷ l) h = split_lines_ended c l h.1

bare-push :
    (c : ℕ) (ls ms : List (List ℕ))
    → map bare ls ≡ map bare ms
    → map bare (push c ls) ≡ map bare (push c ms)
unfolding bare rstrip
bare-push c [] [] h = refl
bare-push c [] (m ∷ ms) h = cc
bare-push c (l ∷ ls) [] h = cc
bare-push c (l ∷ ls) (m ∷ ms) h =
    let first : rstrip is_line_end l ≡ rstrip is_line_end m = cc in
    let rest : map bare ls ≡ map bare ms = cc in ap₂ ◌∷◌ (ap (keep_last is_line_end c) first) rest

-- An end behind the last line changes no bare line.
pub bare_closed :
    (c : ℕ) (t : List ℕ)
    → is_ended (c ∷ t) ≡ false
    → map bare (split_lines (c ∷ t ++ 10 ∷ [])) ≡ map bare (split_lines (c ∷ t))
bare_closed c [] h = unfold split_lines bare rstrip is_ended in ground arith
bare_closed c (d ∷ t) h =
    let rest = bare_closed d t (unfold is_ended in h) in
    elim (Bool-cases (ends_here c (d ∷ t))) [
      | inl e ↦
          rw (split_lines_cons c (d ∷ t ++ 10 ∷ []), split_lines_cons c (d ∷ t), e)
            (ap (λ ls. bare (c ∷ []) ∷ ls) rest)
      | inr e ↦
          rw (split_lines_cons c (d ∷ t ++ 10 ∷ []), split_lines_cons c (d ∷ t), e)
            (bare-push c (split_lines (d ∷ t ++ 10 ∷ [])) (split_lines (d ∷ t)) rest)
    ]

text_eq-sym : (s t : List ℕ) → text_eq s t ≡ false → text_eq t s ≡ false
text_eq-sym s t h = elim (Bool-cases (text_eq t s)) [
  | inr e ↦ e
  | inl e ↦ cc (rw (text_eq_sound t s e, text_eq_refl s) at h)
]

-- Nothing is taken away where no bare line is the one.
pub without_line-absent :
    (line : List ℕ) (ls : List (List ℕ))
    → any (text_eq line) (map bare ls) ≡ false
    → without_line line ls ≡ ls
unfolding without_line
without_line-absent line [] h = refl
without_line-absent line (l ∷ ls) h = elim (Bool-cases (text_eq line (bare l))) [
  | inl e ↦ cc (rw e at h)
  | inr e ↦
      rw (text_eq-sym line (bare l) e) (ap (λ ms. l ∷ ms) (without_line-absent line ls (rw e at h)))
]

-- A line with its end behind the others is taken away.
pub without_line-last :
    (line : List ℕ) (ls : List (List ℕ))
    → IsPlainLine line
    → any (text_eq line) (map bare ls) ≡ false
    → without_line line (ls ++ (line ++ 10 ∷ []) ∷ []) ≡ ls
unfolding without_line
without_line-last line [] p h = rw (bare_ended line p.1, text_eq_refl line) refl
without_line-last line (l ∷ ls) p h = elim (Bool-cases (text_eq line (bare l))) [
  | inl e ↦ cc (rw e at h)
  | inr e ↦
      rw (text_eq-sym line (bare l) e) (ap (λ ms. l ∷ ms) (without_line-last line ls p (rw e at h)))
]
