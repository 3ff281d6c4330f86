-- ===== src/Vm/Manifest/Fits.antt =====
-- What the tests of the sections show.
use omashiki.Common.{
  ℕ, ◌*◌, ◌≡◌, ◌≢◌, refl, sym, ap, ◌∙◌, Bool, true, false, not, ◌&&◌, ◌||◌, some, List, [], ◌∷◌,
  all, ◌==◌, ==_iff, length, All, map, filter_list, Bool-cases, inl, inr, ok, use_ok, use_guard,
  ok_injective, arith,
}
use omashiki.Common.Int.{pos}
use omashiki.Common.Text.{Text, txt}
use omashiki.Json.{Json, int, str, arr, Items, Fields, elements, items, find}
use omashiki.Vm.Pattern.{is_safe_name, is_safe_image}
use omashiki.Vm.Manifest.{is_expected, unknown_sections, check_sections}
use omashiki.Vm.Manifest.Base.{World, get, required_string, required_int, repository_path}
use omashiki.Vm.Manifest.Sections.{
  validate_topology, validate_services, check_port, exactly, is_node, distinct, not_none, node_list,
}
use omashiki.Vm.Manifest.Delivery.{validate_workload, validate_artifact}
use omashiki.Vm.Manifest.Settings.{
  IsInside, HasPort, get-found, required_int-found, required_string-found, repository_path-IsInside,
  check_port-HasPort,
}

-- Nothing is left that fails the test.
All_of_filter :
    (p : Text → Bool) (es : List (Text × Json))
    → filter_list (λ k. not (p k)) (map (λ e. e.0) es) ≡ []
    → All (λ e. p e.0 ≡ true) es
All_of_filter p [] h = tt
All_of_filter p (e ∷ es) h = elim (Bool-cases (p e.0)) [
  | inl known ↦ (known, All_of_filter p es (rw known at h))
  | inr unknown ↦ cc (rw unknown at h)
]

check_sections-eq-ok : (ks : List Text) {u : Unit {0}} → check_sections ks ≡ ok u → ks ≡ []
unfolding check_sections
check_sections-eq-ok [] h = refl
check_sections-eq-ok (k ∷ ks) h = cc

pub unknown_sections-known :
    (fields : Fields) {u : Unit {0}}
    → check_sections (unknown_sections fields) ≡ ok u
    → All (λ e. is_expected e.0 ≡ true) (items fields)
unfolding unknown_sections
unknown_sections-known fields h =
    All_of_filter is_expected (items fields) (check_sections-eq-ok (unknown_sections fields) h)

node_list-eq-ok :
    (v : Json) {nodes : List Json}
    → node_list v ≡ ok nodes
    → (vs : Items) × (v ≡ arr vs) × (nodes ≡ elements vs)
unfolding node_list
node_list-eq-ok (arr vs) h =
    use_guard (not_none (elements vs) && all is_node (elements vs)) _ _ h
      λ _ h1. (vs, refl, sym (ok_injective h1))
node_list-eq-ok _ h = cc

pub record TopologyFits (topology : Fields) (count : ℕ) : Type 0 where
  pub nodes : Items
  pub found : find (txt "nodes") topology ≡ some (arr nodes)
  pub counted : length (elements nodes) ≡ count

pub validate_topology-TopologyFits :
    (topology : Fields) {nodes : List Json}
    → validate_topology topology ≡ ok nodes
    → TopologyFits topology (length nodes)
unfolding validate_topology
validate_topology-TopologyFits topology {nodes} h =
    use_ok
      (exactly topology "variant" "[topology]" "service-node"
        "this harness supports only the service-node topology")
      _ h
      λ _ _ h1.
        use_ok (exactly topology "core" "[topology]" "host" "manifest topology.core must be host") _
          h1
          λ _ _ h2.
            use_ok (required_string topology "domain_prefix" "[topology]") _ h2 λ prefix _ h3.
              use_ok (required_string topology "guest_user" "[topology]") _ h3 λ user _ h4.
                use_ok (node_list (get topology "nodes")) _ h4 λ found got h5.
                  use_guard (distinct found && is_safe_name prefix && is_safe_name user) _ _ h5
                    λ _ h6.
                      let (vs, value, listed) = node_list-eq-ok (get topology "nodes") got in
                      record {
                        nodes = vs;
                        found = get-found topology "nodes" (arr vs) value (λ e. cc);
                        counted = ap length (sym listed ∙ ok_injective h6);
                      }

pub record ServicesFit (services : Fields) : Type 0 where
  pub core : ℕ
  pub worker : ℕ
  pub fake : ℕ
  pub core_port : HasPort services "core_port" core
  pub worker_port : HasPort services "worker_port" worker
  pub fake_port : HasPort services "fake_provider_port" fake
  pub differ : (core ≢ worker) × (core ≢ fake) × (worker ≢ fake)

three_differ : (a b c : ℕ) → not (a == b || a == c || b == c) ≡ true → (a ≢ b) × (a ≢ c) × (b ≢ c)
three_differ a b c h = (λ e. ground arith, λ e. ground arith, λ e. ground arith)

pub validate_services-ServicesFit :
    (services : Fields) {u : Unit {0}} → validate_services services ≡ ok u → ServicesFit services
unfolding validate_services
validate_services-ServicesFit services h = use_ok (check_port services "core_port") _ h λ core c h1.
    use_ok (check_port services "worker_port") _ h1 λ worker w h2.
      use_ok (check_port services "fake_provider_port") _ h2 λ fake f h3.
        use_ok (check_port services "database_internal_port") _ h3 λ _ _ h4.
          use_ok (check_port services "tunnel_port_base") _ h4 λ _ _ h5.
            use_guard (not (core == worker || core == fake || worker == fake)) _ _ h5 λ distinct _.
              record {
                core = core;
                worker = worker;
                fake = fake;
                core_port = check_port-HasPort services "core_port" c;
                worker_port = check_port-HasPort services "worker_port" w;
                fake_port = check_port-HasPort services "fake_provider_port" f;
                differ = three_differ core worker fake distinct;
              }

pub record WorkloadFits (nodes : ℕ) (workload : Fields) : Type 0 where
  pub count : ℕ
  pub count_found : find (txt "count") workload ≡ some (int (pos count))
  pub capacity : ℕ
  pub capacity_found : find (txt "per_node_capacity") workload ≡ some (int (pos capacity))
  pub fits : count ≡ nodes * capacity

pub validate_workload-WorkloadFits :
    (nodes : ℕ) (workload : Fields) {u : Unit {0}}
    → validate_workload nodes workload ≡ ok u
    → WorkloadFits nodes workload
unfolding validate_workload
validate_workload-WorkloadFits nodes workload h =
    use_ok (required_int workload "count" "[workload]" 1) _ h λ count c h1.
      use_ok (required_int workload "per_node_capacity" "[workload]" 1) _ h1 λ capacity d h2.
        use_guard (count == nodes * capacity) _ _ h2 λ fits _. record {
          count = count;
          count_found = (required_int-found workload "count" "[workload]" 1 c).0;
          capacity = capacity;
          capacity_found = (required_int-found workload "per_node_capacity" "[workload]" 1 d).0;
          fits = (==_iff _ _).0 fits;
        }

pub record ArtifactFits (w : World) (artifact : Fields) : Type 0 where
  pub dockerfile : Text
  pub dockerfile_found : find (txt "dockerfile") artifact ≡ some (str dockerfile)
  pub dockerfile_inside : IsInside w dockerfile
  pub context : Text
  pub context_found : find (txt "build_context") artifact ≡ some (str context)
  pub context_inside : IsInside w context

pub validate_artifact-ArtifactFits :
    (w : World) (artifact : Fields) {r : List Text × List Text}
    → validate_artifact w artifact ≡ ok r
    → ArtifactFits w artifact
unfolding validate_artifact
validate_artifact-ArtifactFits w artifact h =
    use_ok (required_string artifact "image_repository" "[artifact]") _ h λ image _ h1.
      use_guard (is_safe_image image) _ _ h1 λ _ h2.
        use_ok (required_string artifact "image_key" "[artifact]") _ h2 λ key _ h3.
          use_guard (is_safe_name key) _ _ h3 λ _ h4.
            use_ok (required_string artifact "dockerfile" "[artifact]") _ h4 λ dockerfile d h5.
              use_ok (repository_path w dockerfile (txt "manifest artifact.dockerfile") false) _ h5
                λ _ p h6.
                  use_ok (required_string artifact "build_context" "[artifact]") _ h6
                    λ context c h7.
                      use_ok
                        (repository_path w context (txt "manifest artifact.build_context") true) _
                        h7
                        λ _ q _. record {
                          dockerfile = dockerfile;
                          dockerfile_found =
                              required_string-found artifact "dockerfile" "[artifact]" d;
                          dockerfile_inside = repository_path-IsInside w dockerfile _ false p;
                          context = context;
                          context_found =
                              required_string-found artifact "build_context" "[artifact]" c;
                          context_inside = repository_path-IsInside w context _ true q;
                        }
