-- ===== src/Vm/Machines/Listing.antt =====
-- What virsh has listed.
use omashiki.Common.{◌≡◌, refl, ◌≢◌, Bool, true, false, List, ◌∷◌, if◌then◌else◌, ok}
use omashiki.Common.Runs.{demand-ok}
use omashiki.Common.Text.{Text, is_space, strip}
use omashiki.Vm.Machines.{list_domains, Reply, Trace, Run, World, domain_list}

pub if-ok :
    {A : Type 0} (b : Bool) (m n : Run A) (t : Trace) {a : A}
    → ((m t).1 ≢ ok a)
    → ((if b then m else n) t).1 ≡ ok a
    → (b ≡ false) × ((if b then m else n) t ≡ n t)
if-ok true m n t other h = absurd (other h)
if-ok false m n t other h = (refl, refl)

module _ (w : World) where
  -- The names that virsh has listed
  abbrev pub listed_by : Reply → List Text
  listed_by r = w.splitlines (strip is_space r.output)

  pub domain_list-ok :
      (t : Trace) {domains : List Text}
      → (domain_list w t).1 ≡ ok domains
      → let r = w.reply t list_domains in
        (r.succeeded ≡ true)
        × (listed_by r ≡ domains)
        × ((domain_list w t).0 ≡ (list_domains, r) ∷ t)
  unfolding domain_list
  domain_list-ok t h =
      let r = w.reply t list_domains in
      demand-ok r.succeeded _ (listed_by r) ((list_domains, r) ∷ t) h
