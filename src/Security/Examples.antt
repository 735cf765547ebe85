-- ===== src/Security/Examples.antt =====
-- internal/security/policy.go: the result at a pod with a privileged init container.
use vgpu_scheduler.Prelude.{[], false, none, ok, some, true, ◌↔◌, ◌∷◌, ◌≡◌}
use vgpu_scheduler.Security.{Pod, validate_pod_security}
use vgpu_scheduler.Security.Isolation.{IsIsolated, validate_pod_iff}

abbrev privileged_init : Pod
privileged_init = record {
  host_ipc = false;
  host_pid = false;
  host_network = false;
  containers = [];
  init_containers =
      record {
        name = "setup";
        security_context = some (record {
          privileged = some true;
          allow_privilege_escalation = none;
          host_process = none;
          proc_mount = none;
          capabilities_add = [];
        });
      }
      ∷ [];
  volumes = [];
}

validate_pod_iff_example :
    (validate_pod_security privileged_init ≡ ok tt) ↔ IsIsolated privileged_init
validate_pod_iff_example = validate_pod_iff privileged_init
