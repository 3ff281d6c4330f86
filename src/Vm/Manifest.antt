-- ===== src/Vm/Manifest.antt =====
-- vm/e2e.py: `validate_manifest` and its helpers. The manifest is what `tomllib` makes of the file, as a
-- value of JSON; a value of another kind, such as a date, stands as null, which no test tells from it.
-- A path below the repository is the list of its components.
pub mod Base
pub mod Sections
pub mod Delivery
mod Examples
mod Secrets
mod Settings
mod Fits
pub mod Laws
use omashiki.Common.{
  Bool, true, false, not, List, [], ◌∷◌, ◌++◌, any, filter_list, length, map, Result, ok, err,
  ◌>>=◌, ◌>>◌,
}
use omashiki.Common.Text.{Text, txt, text_eq}
use omashiki.Json.{Json, obj, Fields, items}
use Base.{Error, blocker, unsupported_sections, World, get, required_table, reject_secrets}
use Sections.{
  validate_project, validate_base, validate_prepared, validate_topology, validate_vm,
  validate_services,
}
use Delivery.{validate_workload, validate_resources, validate_artifact, validate_runtime}

-- `expected_sections`
abbrev pub expected_sections : List Text
expected_sections =
    txt "project"
    ∷ txt "base"
    ∷ txt "prepared"
    ∷ txt "topology"
    ∷ txt "vm"
    ∷ txt "services"
    ∷ txt "workload"
    ∷ txt "resources"
    ∷ txt "artifact"
    ∷ txt "runtime"
    ∷ []

pub is_expected : Text → Bool
is_expected k = any (text_eq k) expected_sections

-- `set(manifest) - expected_sections`
pub unknown_sections : Fields → List Text
unfolding is_expected
unknown_sections manifest = filter_list (λ k. not (is_expected k)) (map (λ e. e.0) (items manifest))

pub check_sections : List Text → Result Error (Unit {0})
check_sections [] = ok tt
check_sections (k ∷ ks) = err (unsupported_sections (k ∷ ks))

-- `validate_manifest`, of a table
pub validate_table : World → Fields → Result Error (Unit {0})
unfolding unknown_sections check_sections reject_secrets required_table validate_project
    validate_base validate_prepared validate_topology validate_vm validate_services
    validate_workload validate_resources validate_artifact validate_runtime
validate_table w manifest = do
  check_sections (unknown_sections manifest)
  reject_secrets w (obj manifest) (txt "manifest")
  project ← required_table (get manifest "project") (txt "project")
  validate_project project
  base ← required_table (get manifest "base") (txt "base")
  validate_base base
  prepared ← required_table (get manifest "prepared") (txt "prepared")
  _ ← validate_prepared w prepared
  topology ← required_table (get manifest "topology") (txt "topology")
  nodes ← validate_topology topology
  vm ← required_table (get manifest "vm") (txt "vm")
  _ ← validate_vm w vm
  services ← required_table (get manifest "services") (txt "services")
  validate_services services
  workload ← required_table (get manifest "workload") (txt "workload")
  validate_workload (length nodes) workload
  resources ← required_table (get manifest "resources") (txt "resources")
  validate_resources w resources
  artifact ← required_table (get manifest "artifact") (txt "artifact")
  _ ← validate_artifact w artifact
  runtime ← required_table (get manifest "runtime") (txt "runtime")
  validate_runtime runtime

-- `validate_manifest`
pub validate_manifest : World → Json → Text → Result Error Json
unfolding validate_table
validate_manifest w (obj manifest) path = validate_table w manifest >> ok (obj manifest)
validate_manifest w _ path = err (blocker (txt "manifest is not a TOML table: " ++ path))
