-- ===== src/Vm/Manifest/Laws.antt =====
-- What an accepted manifest guarantees.
use omashiki.Common.{
  ℕ, ◌*◌, ◌≡◌, ◌≢◌, refl, sym, ap, ◌∙◌, true, some, List, length, All, ok, use_ok, ok_injective,
}
use omashiki.Common.Int.{pos}
use omashiki.Common.Text.{Text, txt}
use omashiki.Json.{Json, int, str, arr, obj, Items, Fields, elements, items, find}
use omashiki.Vm.Manifest.{
  is_expected, unknown_sections, check_sections, validate_table, validate_manifest,
}
use omashiki.Vm.Manifest.Base.{World, get, required_table, reject_secrets}
use omashiki.Vm.Manifest.Sections.{
  validate_project, validate_base, validate_prepared, validate_topology, validate_vm,
  validate_services,
}
use omashiki.Vm.Manifest.Delivery.{validate_workload, validate_resources, validate_artifact}
use omashiki.Vm.Manifest.Secrets.{Step, at, IsClean, reject_secrets-IsClean}
use omashiki.Vm.Manifest.Settings.{IsInside, HasPort, required_table-found}
use omashiki.Vm.Manifest.Fits.{
  unknown_sections-known, validate_topology-TopologyFits, validate_services-ServicesFit,
  validate_workload-WorkloadFits, validate_artifact-ArtifactFits,
}

-- What holds of an accepted manifest
pub record IsSafe (w : World) (manifest : Json) : Type 0 where
  pub fields : Fields
  pub is_table : manifest ≡ obj fields
  pub sections : All (λ e. is_expected e.0 ≡ true) (items fields)
  pub no_secrets : (path : List Step) → IsClean w path (at path manifest)
  pub services : Fields
  pub services_found : find (txt "services") fields ≡ some (obj services)
  pub core : ℕ
  pub worker : ℕ
  pub fake : ℕ
  pub core_port : HasPort services "core_port" core
  pub worker_port : HasPort services "worker_port" worker
  pub fake_port : HasPort services "fake_provider_port" fake
  pub ports_differ : (core ≢ worker) × (core ≢ fake) × (worker ≢ fake)
  pub topology : Fields
  pub topology_found : find (txt "topology") fields ≡ some (obj topology)
  pub nodes : Items
  pub nodes_found : find (txt "nodes") topology ≡ some (arr nodes)
  pub workload : Fields
  pub workload_found : find (txt "workload") fields ≡ some (obj workload)
  pub count : ℕ
  pub count_found : find (txt "count") workload ≡ some (int (pos count))
  pub capacity : ℕ
  pub capacity_found : find (txt "per_node_capacity") workload ≡ some (int (pos capacity))
  pub count_fits : count ≡ length (elements nodes) * capacity
  pub artifact : Fields
  pub artifact_found : find (txt "artifact") fields ≡ some (obj artifact)
  pub dockerfile : Text
  pub dockerfile_found : find (txt "dockerfile") artifact ≡ some (str dockerfile)
  pub dockerfile_inside : IsInside w dockerfile
  pub context : Text
  pub context_found : find (txt "build_context") artifact ≡ some (str context)
  pub context_inside : IsInside w context

validate_table-IsSafe :
    (w : World) (fields : Fields) {u : Unit {0}}
    → validate_table w fields ≡ ok u
    → IsSafe w (obj fields)
unfolding validate_table
validate_table-IsSafe w fields h =
    use_ok (check_sections (unknown_sections fields)) _ h λ _ known h1.
      use_ok (reject_secrets w (obj fields) (txt "manifest")) _ h1 λ _ clean h2.
        use_ok (required_table (get fields "project") (txt "project")) _ h2 λ project _ h3.
          use_ok (validate_project project) _ h3 λ _ _ h4.
            use_ok (required_table (get fields "base") (txt "base")) _ h4 λ base _ h5.
              use_ok (validate_base base) _ h5 λ _ _ h6.
                use_ok (required_table (get fields "prepared") (txt "prepared")) _ h6
                  λ prepared _ h7. use_ok (validate_prepared w prepared) _ h7 λ _ _ h8.
                    use_ok (required_table (get fields "topology") (txt "topology")) _ h8
                      λ topology t h9. use_ok (validate_topology topology) _ h9 λ nodes n h10.
                        use_ok (required_table (get fields "vm") (txt "vm")) _ h10 λ vm _ h11.
                          use_ok (validate_vm w vm) _ h11 λ _ _ h12.
                            use_ok (required_table (get fields "services") (txt "services")) _ h12
                              λ services s h13. use_ok (validate_services services) _ h13 λ _ p h14.
                                use_ok (required_table (get fields "workload") (txt "workload")) _
                                  h14
                                  λ workload o h15.
                                    use_ok (validate_workload (length nodes) workload) _ h15
                                      λ _ q h16.
                                        use_ok
                                          (required_table (get fields "resources")
                                            (txt "resources"))
                                          _ h16
                                          λ resources _ h17.
                                            use_ok (validate_resources w resources) _ h17 λ _ _ h18.
                                              use_ok
                                                (required_table (get fields "artifact")
                                                  (txt "artifact"))
                                                _ h18
                                                λ artifact a h19.
                                                  use_ok (validate_artifact w artifact) _ h19
                                                    λ _ r _.
                                                      let top =
                                                        validate_topology-TopologyFits topology n in
                                                      let ports =
                                                        validate_services-ServicesFit services p in
                                                      let work =
                                                        validate_workload-WorkloadFits
                                                          (length nodes) workload q in
                                                      let image =
                                                        validate_artifact-ArtifactFits w artifact
                                                          r in
                                                      record {
                                                        fields = fields;
                                                        is_table = refl;
                                                        sections =
                                                            unknown_sections-known fields known;
                                                        no_secrets = λ path.
                                                            reject_secrets-IsClean w path
                                                            (obj fields) (txt "manifest") clean;
                                                        services = services;
                                                        services_found =
                                                            required_table-found fields "services"
                                                            (txt "services") s;
                                                        core = ports.core;
                                                        worker = ports.worker;
                                                        fake = ports.fake;
                                                        core_port = ports.core_port;
                                                        worker_port = ports.worker_port;
                                                        fake_port = ports.fake_port;
                                                        ports_differ = ports.differ;
                                                        topology = topology;
                                                        topology_found =
                                                            required_table-found fields "topology"
                                                            (txt "topology") t;
                                                        nodes = top.nodes;
                                                        nodes_found = top.found;
                                                        workload = workload;
                                                        workload_found =
                                                            required_table-found fields "workload"
                                                            (txt "workload") o;
                                                        count = work.count;
                                                        count_found = work.count_found;
                                                        capacity = work.capacity;
                                                        capacity_found = work.capacity_found;
                                                        count_fits =
                                                            work.fits
                                                            ∙ ap (λ k. k * work.capacity)
                                                            (sym top.counted);
                                                        artifact = artifact;
                                                        artifact_found =
                                                            required_table-found fields "artifact"
                                                            (txt "artifact") a;
                                                        dockerfile = image.dockerfile;
                                                        dockerfile_found = image.dockerfile_found;
                                                        dockerfile_inside = image.dockerfile_inside;
                                                        context = image.context;
                                                        context_found = image.context_found;
                                                        context_inside = image.context_inside;
                                                      }

-- An accepted manifest is a table with no section but the ten known ones. At no path into it does a key
-- name a secret or a text refer to the environment. Its core, worker and provider ports are three
-- numbers from 1024 to 65535, its job count is the number of nodes times their capacity, and the
-- Dockerfile and the build context are relative paths that stay inside the repository, with no symbolic
-- link on the way.
pub validate_manifest-IsSafe :
    (w : World) (manifest : Json) (path : Text) {accepted : Json}
    → validate_manifest w manifest path ≡ ok accepted
    → (accepted ≡ manifest) × IsSafe w manifest
unfolding validate_manifest
validate_manifest-IsSafe w (obj fields) path h =
    use_ok (validate_table w fields) _ h
      λ _ valid h1. (sym (ok_injective h1), validate_table-IsSafe w fields valid)
validate_manifest-IsSafe w _ path h = cc
