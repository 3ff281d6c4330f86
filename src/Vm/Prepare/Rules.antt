-- ===== src/Vm/Prepare/Rules.antt =====
-- How what is known passes from one step of the preparation to the next.
use mathlib.Core.List.{Memᴰ}
use omashiki.Common.{◌≡◌, refl, true, false, ◌∷◌}
use omashiki.Common.Text.{Text, txt, is_space, strip}
use omashiki.Common.Runs.{
  ◌>>=◌, done, demand, bind-Triple, done-Triple, demand-Triple, weaken-Triple,
}
use omashiki.Vm.Prepare.{
  Event, vol_path, Reply, Trace, Failure, World, runtime_error, ask, query, checked, act,
  expected_pool_path,
}
use omashiki.Vm.Prepare.Orderly.{is_cut, Heard, Allowed, IsOrderly, Sure, ask-Sure}

-- What stays known while no stage and no step of a publication comes between
abbrev pub Stable : (Trace → Type 0) → Type 0
Stable P = (e : Event) (r : Reply) (t : Trace) → is_cut e ≡ false → P t → P ((e, r) ∷ t)

pub Stable-pair : {P Q : Trace → Type 0} → Stable P → Stable Q → Stable (λ t. P t × Q t)
Stable-pair p q e r t c (h, k) = (p e r t c h, q e r t c k)

pub Stable-const : {A : Type 0} → Stable (λ t. A)
Stable-const e r t c h = h

pub Stable-if : {A : Type 0} {P : Trace → Type 0} → Stable P → Stable (λ t. A → P t)
Stable-if p e r t c h a = p e r t c (h a)

pub Heard-Stable : (f : Event) (text : Text) → Stable (Heard f text)
Heard-Stable f text e r t c h = record {
  reply = h.reply;
  there = rw c (Memᴰ.tail h.there);
  says = h.says;
}

-- The last event, if it has ended well
pub record Happened (e : Event) (t : Trace) : Type 0 where
  pub reply : Reply
  pub before : Trace
  pub last : t ≡ (e, reply) ∷ before
  pub went_well : reply.succeeded ≡ true

Heard-now :
    (e : Event) (r : Reply) (t : Trace)
    → is_cut e ≡ false
    → Heard e (strip is_space r.output) ((e, r) ∷ t)
Heard-now e r t c = record { reply = r; there = rw c (Memᴰ.head refl); says = refl }

module _ (w : World) where
  pub query-Sure :
      {P : Trace → Type 0} (e : Event)
      → is_cut e ≡ false
      → ((t : Trace) → Allowed w e t)
      → Stable P
      → Sure w P (query w e) (λ text t. P t × Heard e text t)
  query-Sure {P} e c a p =
      bind-Triple (IsOrderly w) (ask w e) (λ r. done (strip is_space r.output))
        (ask-Sure w {Q = λ r t. P t × Heard e (strip is_space r.output) t} e (λ t _. a t)
          λ t h. (p e (w.reply t e) t c h, Heard-now e (w.reply t e) t c))
        λ r. done-Triple (IsOrderly w) (strip is_space r.output) λ t h. h

  pub checked-Sure :
      {P : Trace → Type 0} (e : Event)
      → is_cut e ≡ false
      → ((t : Trace) → Allowed w e t)
      → Stable P
      → Sure w P (checked w e) (λ text t. P t × Heard e text t)
  checked-Sure {P} e c a p =
      let failure = runtime_error (txt "command failed") in
      bind-Triple (IsOrderly w) (ask w e)
        (λ r. demand r.succeeded failure >>= λ _. done (strip is_space r.output))
        (ask-Sure w {Q = λ r t. P t × Heard e (strip is_space r.output) t} e (λ t _. a t)
          λ t h. (p e (w.reply t e) t c h, Heard-now e (w.reply t e) t c))
        λ r.
          bind-Triple (IsOrderly w) (demand r.succeeded failure)
            (λ _. done (strip is_space r.output)) (demand-Triple (IsOrderly w) r.succeeded failure)
            λ u. done-Triple (IsOrderly w) (strip is_space r.output) λ t h. h.0

  -- A change that is allowed, after which `Q` holds if it has ended well
  pub act-Sure :
      {P Q : Trace → Type 0} (e : Event) (failure : Failure)
      → ((t : Trace) → P t → Allowed w e t)
      → ((r : Reply) (t : Trace) → P t → Q ((e, r) ∷ t))
      → Sure w P (act w e failure) (λ _ t. Q t × Happened e t)
  act-Sure {P} {Q} e failure a q =
      let After : Reply → Trace → Type 0 = λ r t. Q t × ((u : Trace) × (t ≡ (e, r) ∷ u)) in
      bind-Triple (IsOrderly w) (ask w e) (λ r. demand r.succeeded failure)
        (ask-Sure w {Q = After} e a λ t h. (q (w.reply t e) t h, (t, refl)))
        λ r.
          weaken-Triple (IsOrderly w) (demand r.succeeded failure) (λ t h. h)
            (λ _ t h.
              (h.0.0, record { reply = r; before = h.0.1.0; last = h.0.1.1; went_well = h.1 }))
            (demand-Triple (IsOrderly w) r.succeeded failure)

  -- `expected_pool_path` reads where the base is.
  pub expected_pool_path-Sure :
      {P : Trace → Type 0} (name : Text)
      → Stable P
      → Sure w P (expected_pool_path w name) (λ path t.
        P t × ((base : Text) × Heard (vol_path w.base_volume) base t × (path ≡ w.beside base name)))
  unfolding expected_pool_path
  expected_pool_path-Sure {P} name p =
      bind-Triple (IsOrderly w) (checked w (vol_path w.base_volume))
        (λ path. done (w.beside path name)) (checked-Sure (vol_path w.base_volume) refl (λ t. tt) p)
        λ path. done-Triple (IsOrderly w) (w.beside path name) λ t h. (h.0, (path, h.1, refl))
