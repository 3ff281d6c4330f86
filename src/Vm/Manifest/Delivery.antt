-- ===== src/Vm/Manifest/Delivery.antt =====
-- vm/e2e.py: `validate_manifest`, the sections from the workload on.
use omashiki.Common.{
  ℕ, suc, ◌*◌, Bool, true, false, not, ◌&&◌, ◌||◌, List, [], ◌∷◌, ◌++◌, any, all, leb, ◌==◌, length,
  if◌then◌else◌, Result, ok, err, ◌>>=◌, ◌>>◌,
}
use omashiki.Common.Int.{pos}
use omashiki.Common.Text.{Text, txt, text_eq, is_empty}
use omashiki.Json.{Json, int, float, str, arr, Fields, elements}
use omashiki.Kata.{is_absolute, parts, has_parent}
use omashiki.Vm.Pattern.{is_safe_name, is_safe_image, is_alphanumeric, starts_with_rest}
use omashiki.Vm.Manifest.Base.{
  Error, blocker, World, require, get, required_table, required_string, required_int,
  repository_path,
}
use Prim.Native.String.{String}

-- An integer from 0 to 100
unfoldable pub is_percentage : Json → Bool
is_percentage (int (pos n)) = leb n 100
is_percentage _ = false

-- The loop over the names of `[workload]`: the last one, which is the scenario
unfoldable pub check_name : Fields → String → Result Error Text
unfolding required_string
check_name workload key = do
  value ← required_string workload key "[workload]"
  require (is_safe_name value) (txt "manifest workload." ++ txt key ++ txt " must be a safe name")
  ok value

-- The tests of the expected file; its components are never "" or ".".
unfoldable pub is_safe_file : Text → Bool
is_safe_file t =
    not (is_absolute t || has_parent (parts t))
    && starts_with_rest is_alphanumeric
        (λ c. is_alphanumeric c || c == 46 || c == 95 || c == 47 || c == 45) (length t) t

-- `[workload]`, for so many nodes
unfoldable pub validate_workload : ℕ → Fields → Result Error (Unit {0})
unfolding required_int required_string is_percentage check_name is_safe_file
validate_workload nodes workload = do
  count ← required_int workload "count" "[workload]" 1
  capacity ← required_int workload "per_node_capacity" "[workload]" 1
  require (count == nodes * capacity)
      (txt "manifest workload.count must equal nodes * per_node_capacity")
  _ ← required_int workload "fake_latency_ms" "[workload]" 0
  _ ← required_int workload "job_timeout_ms" "[workload]" 1
  require (is_percentage (get workload "jitter_pct"))
      (txt "manifest workload.jitter_pct must be an integer from 0 to 100")
  file ← required_string workload "expected_file" "[workload]"
  content ← required_string workload "expected_content" "[workload]"
  output ← required_string workload "expected_output" "[workload]"
  _ ← check_name workload "repository"
  _ ← check_name workload "environment"
  scenario ← check_name workload "fake_scenario"
  require (is_safe_file file) (txt "manifest workload.expected_file must be a safe relative path")
  require
      (not (text_eq scenario (txt "python-hello"))
        || (text_eq file (txt "hello.py")
            && text_eq content (txt "print(\"Hello, World!\")" ++ 10 ∷ [])
            && text_eq output (txt "Hello, World!" ++ 10 ∷ [])))
      (txt "python-hello requires the canonical hello.py content and output")

-- A number, no Boolean, that is greater than 0
unfoldable pub is_positive : World → Json → Bool
is_positive w (int (pos (suc n))) = true
is_positive w (float t) = not (w.float_not_positive t)
is_positive w _ = false

-- `[resources]`
unfoldable pub validate_resources : World → Fields → Result Error (Unit {0})
unfolding required_int required_string is_positive
validate_resources w resources = do
  _ ← required_int resources "max_concurrent_containers" "[resources]" 1
  require (is_positive w (get resources "cpu_per_container"))
      (txt "manifest resources.cpu_per_container must be positive")
  _ ← required_string resources "memory_per_container" "[resources]"
  _ ← required_int resources "pids_limit" "[resources]" 1
  ok tt

-- The texts of a list, if all are texts that are not empty
unfoldable pub exclude_texts : List Json → Result Error (List Text)
exclude_texts [] = ok []
exclude_texts (str t ∷ vs) =
    if is_empty t
    then err (blocker (txt "manifest artifact.source_excludes must be a list of paths"))
    else (exclude_texts vs >>= λ rest. ok (t ∷ rest))
exclude_texts (v ∷ vs) =
    err (blocker (txt "manifest artifact.source_excludes must be a list of paths"))

unfoldable pub exclude_list : Json → Result Error (List Text)
unfolding exclude_texts
exclude_list (arr vs) = exclude_texts (elements vs)
exclude_list _ = err (blocker (txt "manifest artifact.source_excludes must be a list of paths"))

unfoldable pub check_excludes : List Text → Result Error (Unit {0})
check_excludes [] = ok tt
check_excludes (t ∷ rest) =
    require (not (is_absolute t || has_parent (parts t)))
      (txt "manifest artifact.source_excludes contains an unsafe path: " ++ t)
    >> check_excludes rest

-- `required_excludes`
abbrev pub required_excludes : List Text
required_excludes =
    txt ".git"
    ∷ txt ".temp"
    ∷ txt "deps"
    ∷ txt "_build"
    ∷ txt "node_modules"
    ∷ txt "server/tmp"
    ∷ []

-- `[artifact]`: the components of its Dockerfile and of its build context
unfoldable pub validate_artifact : World → Fields → Result Error (List Text × List Text)
unfolding required_string repository_path exclude_list check_excludes
validate_artifact w artifact = do
  image ← required_string artifact "image_repository" "[artifact]"
  require (is_safe_image image)
      (txt "manifest artifact.image_repository is not a safe image reference")
  key ← required_string artifact "image_key" "[artifact]"
  require (is_safe_name key) (txt "manifest artifact.image_key is not safe")
  dockerfile ← required_string artifact "dockerfile" "[artifact]"
  file ← repository_path w dockerfile (txt "manifest artifact.dockerfile") false
  build_context ← required_string artifact "build_context" "[artifact]"
  context ← repository_path w build_context (txt "manifest artifact.build_context") true
  excludes ← exclude_list (get artifact "source_excludes")
  check_excludes excludes
  require (all (λ t. any (text_eq t) excludes) required_excludes) (
      txt
        "manifest artifact.source_excludes must exclude repository metadata, dependencies, and builds")
  delivery ← required_string artifact "delivery" "[artifact]"
  require (text_eq delivery (txt "docker-save-load"))
      (txt "manifest artifact.delivery must be docker-save-load")
  ok (file, context)

-- A setting that has one value only
unfoldable pub pinned : Fields → String → String → String → Text → Result Error (Unit {0})
unfolding required_string
pinned table key place expected message = do
  value ← required_string table key place
  require (text_eq value (txt expected)) message

-- The loop over the paths of `[runtime.kata]`
unfoldable pub pinned_path : Fields → String → String → Result Error (Unit {0})
unfolding pinned
pinned_path kata key expected =
    pinned kata key "[runtime.kata]" expected
      (txt "manifest runtime.kata." ++ txt key ++ txt " must be " ++ txt expected)

-- `[runtime.kata]`
unfoldable pub validate_kata : Fields → Result Error (Unit {0})
unfolding pinned pinned_path
validate_kata kata = do
  pinned kata "version" "[runtime.kata]" "4.1.0" (txt "manifest runtime.kata.version must be 4.1.0")
  pinned kata "archive" "[runtime.kata]" "kata-static-4.1.0-amd64.tar.zst"
      (txt "manifest runtime.kata.archive is not the pinned amd64 archive")
  pinned kata "url" "[runtime.kata]"
      "https://github.com/kata-containers/kata-containers/releases/download/4.1.0/kata-static-4.1.0-amd64.tar.zst"
      (txt "manifest runtime.kata.url is not the pinned release URL")
  pinned kata "sha256" "[runtime.kata]"
      "3dc6b69c4acb787b967b04b64599a20d02a8beb1a8eaab3084110df9d0b08c96"
      (txt "manifest runtime.kata.sha256 is not the pinned archive checksum")
  pinned_path kata "install_root" "/opt/kata"
  pinned_path kata "runtime_path" "/opt/kata/runtime-rs/bin/containerd-shim-kata-v2"
  pinned_path kata "hypervisor_path" "/opt/kata/bin/cloud-hypervisor"
  pinned_path kata "daemon_config" "/etc/docker/daemon.json"
  pinned_path kata "config_path"
      "/opt/kata/share/defaults/kata-containers/runtime-rs/configuration-clh-runtime-rs.toml"

-- `[runtime]`
unfoldable pub validate_runtime : Fields → Result Error (Unit {0})
unfolding required_string required_table pinned validate_kata
validate_runtime runtime = do
  backend ← required_string runtime "backend" "[runtime]"
  distribution ← required_string runtime "distribution" "[runtime]"
  require (text_eq backend (txt "docker") && text_eq distribution (txt "debian"))
      (txt "manifest runtime must use the Docker Debian runtime")
  variant ← required_string runtime "variant" "[runtime]"
  require (text_eq variant (txt "runc") || text_eq variant (txt "kata"))
      (txt "manifest runtime.variant must be runc or kata")
  pinned runtime "runc_id" "[runtime]" "docker.runc.debian"
      (txt "manifest runtime.runc_id must be docker.runc.debian")
  pinned runtime "kata_id" "[runtime]" "docker.kata.debian"
      (txt "manifest runtime.kata_id must be docker.kata.debian")
  kata ← required_table (get runtime "kata") (txt "runtime.kata")
  validate_kata kata
