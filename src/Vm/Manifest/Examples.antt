-- ===== src/Vm/Manifest/Examples.antt =====
-- The manifest of the repository, vm/manifest.toml, on a host that has every file and no links.
use omashiki.Common.{◌≡◌, refl, true, false, some, [], ◌∷◌, ◌++◌}
use omashiki.Common.Int.{pos}
use omashiki.Common.Text.{txt, text_eq, starts_with, contains, strip, is_space, split_on}
use omashiki.Json.{int, float, str, arr, obj, nil, cons, Fields, dict, find, get_or}
use omashiki.Kata.{is_absolute, parts, has_parent}
use omashiki.Vm.Pattern.{is_sha256, is_safe_name, is_safe_image, is_volume_prefix, starts_with_rest}
use omashiki.Vm.Manifest.{validate_manifest}
use omashiki.Vm.Manifest.Base.{World, is_sensitive, refers_to_env}
use omashiki.Vm.Manifest.Laws.{IsSafe, validate_manifest-IsSafe}

abbrev project_table : Fields
project_table = dict (
    (txt "slug", str (txt "omashiki"))
    ∷ (txt "purpose", str (txt "vm-e2e"))
    ∷ (txt "ownership_marker", str (txt "project=omashiki;purpose=vm-e2e"))
    ∷ [])

abbrev base_table : Fields
base_table = dict (
    (txt "qemu_uri", str (txt "qemu:///system"))
    ∷ (txt "pool", str (txt "images"))
    ∷ (txt "volume", str (txt "fedora44-base.qcow2"))
    ∷ (txt "path", str (txt "~/vms/base/Fedora-Cloud-Base-Generic-44-1.7.x86_64.qcow2"))
    ∷ (txt "format", str (txt "qcow2"))
    ∷ (txt "sha256", str (txt "28680fe5b371a5a82ebf43a31926e086a168e59949d03969c5093e7071f90b7f"))
    ∷ [])

abbrev prepared_table : Fields
prepared_table = dict (
    (txt "directory", str (txt "~/vms/base/omashiki-e2e"))
    ∷ (txt "pointer", str (txt "~/.cache/omashiki/vm-e2e/prepared.json"))
    ∷ (txt "pending", str (txt "~/.cache/omashiki/vm-e2e/prepared-pending.json"))
    ∷ (txt "volume_prefix", str (txt "omashiki-fedora44-e2e"))
    ∷ (txt "cloud_init", str (txt "vm/prepare-cloud-init.yaml"))
    ∷ [])

abbrev topology_table : Fields
topology_table = dict (
    (txt "variant", str (txt "service-node"))
    ∷ (txt "core", str (txt "host"))
    ∷ (txt "domain_prefix", str (txt "omashiki"))
    ∷ (txt "guest_user", str (txt "fedora"))
    ∷ (txt "nodes", arr (cons (str (txt "node-1")) (cons (str (txt "node-2")) (nil))))
    ∷ [])

abbrev vm_table : Fields
vm_table = dict (
    (txt "memory_mib", int (pos 8192))
    ∷ (txt "vcpus", int (pos 4))
    ∷ (txt "disk_gib", int (pos 40))
    ∷ (txt "network", str (txt "default"))
    ∷ (txt "bridge_interface", str (txt "virbr0"))
    ∷ (txt "cloud_init", str (txt "vm/cloud-init.yaml"))
    ∷ [])

abbrev services_table : Fields
services_table = dict (
    (txt "core_port", int (pos 4010))
    ∷ (txt "worker_port", int (pos 4011))
    ∷ (txt "fake_provider_port", int (pos 8787))
    ∷ (txt "database_internal_port", int (pos 5432))
    ∷ (txt "tunnel_port_base", int (pos 15000))
    ∷ (txt "database_image", str (txt "postgres:15-alpine"))
    ∷ [])

abbrev workload_table : Fields
workload_table = dict (
    (txt "count", int (pos 4))
    ∷ (txt "per_node_capacity", int (pos 2))
    ∷ (txt "fake_latency_ms", int (pos 10000))
    ∷ (txt "jitter_pct", int (pos 0))
    ∷ (txt "job_timeout_ms", int (pos 300000))
    ∷ (txt "expected_file", str (txt "hello.py"))
    ∷ (txt "expected_content", str (txt "print(\"Hello, World!\")" ++ (10 ∷ [])))
    ∷ (txt "expected_output", str (txt "Hello, World!" ++ (10 ∷ [])))
    ∷ (txt "repository", str (txt "fixture"))
    ∷ (txt "environment", str (txt "lt-jcode"))
    ∷ (txt "fake_scenario", str (txt "python-hello"))
    ∷ [])

abbrev resources_table : Fields
resources_table = dict (
    (txt "max_concurrent_containers", int (pos 2))
    ∷ (txt "cpu_per_container", float (txt "0.25"))
    ∷ (txt "memory_per_container", str (txt "128MB"))
    ∷ (txt "pids_limit", int (pos 128))
    ∷ [])

abbrev artifact_table : Fields
artifact_table = dict (
    (txt "image_repository", str (txt "omashiki/agent-jcode"))
    ∷ (txt "image_key", str (txt "jcode"))
    ∷ (txt "dockerfile", str (txt "agent/Dockerfile.jcode"))
    ∷ (txt "build_context", str (txt "agent"))
    ∷ (
      txt "source_excludes",
      arr (
          cons (str (txt ".git")) (
            cons (str (txt ".temp")) (
              cons (str (txt "deps")) (
                cons (str (txt "_build")) (
                  cons (str (txt "node_modules"))
                    (cons (str (txt "server/tmp")) (cons (str (txt "vm/__pycache__")) (nil)))))))),
    )
    ∷ (txt "delivery", str (txt "docker-save-load"))
    ∷ [])

abbrev runtime_kata_table : Fields
runtime_kata_table = dict (
    (txt "version", str (txt "4.1.0"))
    ∷ (txt "archive", str (txt "kata-static-4.1.0-amd64.tar.zst"))
    ∷ (
      txt "url",
      str (
          txt
            "https://github.com/kata-containers/kata-containers/releases/download/4.1.0/kata-static-4.1.0-amd64.tar.zst"),
    )
    ∷ (txt "sha256", str (txt "3dc6b69c4acb787b967b04b64599a20d02a8beb1a8eaab3084110df9d0b08c96"))
    ∷ (txt "install_root", str (txt "/opt/kata"))
    ∷ (txt "runtime_path", str (txt "/opt/kata/runtime-rs/bin/containerd-shim-kata-v2"))
    ∷ (txt "hypervisor_path", str (txt "/opt/kata/bin/cloud-hypervisor"))
    ∷ (txt "daemon_config", str (txt "/etc/docker/daemon.json"))
    ∷ (
      txt "config_path",
      str (
          txt
            "/opt/kata/share/defaults/kata-containers/runtime-rs/configuration-clh-runtime-rs.toml"),
    )
    ∷ [])

abbrev runtime_table : Fields
runtime_table = dict (
    (txt "backend", str (txt "docker"))
    ∷ (txt "variant", str (txt "runc"))
    ∷ (txt "distribution", str (txt "debian"))
    ∷ (txt "runc_id", str (txt "docker.runc.debian"))
    ∷ (txt "kata_id", str (txt "docker.kata.debian"))
    ∷ (txt "kata", obj runtime_kata_table)
    ∷ [])

abbrev manifest_table : Fields
manifest_table = dict (
    (txt "project", obj project_table)
    ∷ (txt "base", obj base_table)
    ∷ (txt "prepared", obj prepared_table)
    ∷ (txt "topology", obj topology_table)
    ∷ (txt "vm", obj vm_table)
    ∷ (txt "services", obj services_table)
    ∷ (txt "workload", obj workload_table)
    ∷ (txt "resources", obj resources_table)
    ∷ (txt "artifact", obj artifact_table)
    ∷ (txt "runtime", obj runtime_table)
    ∷ [])

abbrev host : World
host = record {
  is_symlink = λ p. false;
  resolves_inside = λ p. true;
  is_file = λ p. true;
  is_dir = λ p. true;
  absolute = λ p. [];
  lower = λ t. t;
  expanduser = λ t. some (txt "/home" ++ t);
  float_not_positive = λ t. false;
}

validate_manifest-IsSafe_example :
    (obj manifest_table ≡ obj manifest_table) × IsSafe host (obj manifest_table)
unfolding validate_manifest txt text_eq starts_with contains strip is_space split_on find get_or
    is_absolute parts has_parent is_sha256 is_safe_name is_safe_image is_volume_prefix
    starts_with_rest is_sensitive refers_to_env
validate_manifest-IsSafe_example =
    validate_manifest-IsSafe host (obj manifest_table) (txt "vm/manifest.toml") (refl)
