-- ===== src/Security.antt =====
-- internal/security/policy.go: the pod specifications that a vGPU pod may not have.
pub mod Isolation
mod Examples
use vgpu_scheduler.Prelude.{
  ◌≡◌, String, Bool, true, false, ◌||◌, not, Option, none, some, List, [], ◌∷◌, ◌++◌, str_eq,
  Result, ok, err, guard, check_all, ◌>>=◌, ◌>>◌,
}

-- The fields of a container's security context that the policy reads. A nil pointer is `none`; a
-- missing list of capabilities is empty.
pub record SecurityContext : Type 0 where
  pub privileged : Option Bool
  pub allow_privilege_escalation : Option Bool
  pub host_process : Option Bool
  pub proc_mount : Option String
  pub capabilities_add : List String

pub record Container : Type 0 where
  pub name : String
  pub security_context : Option SecurityContext

pub record Volume : Type 0 where
  pub host_path : Option String

pub record Pod : Type 0 where
  pub host_ipc : Bool
  pub host_pid : Bool
  pub host_network : Bool
  pub containers : List Container
  pub init_containers : List Container
  pub volumes : List Volume

pub data SecurityViolation : Type 0 where
  shares_host_namespace mounts_host_path : SecurityViolation
  runs_privileged escalates_privileges runs_host_process : String → SecurityViolation
  unmasks_proc : String → String → SecurityViolation
  adds_capability : String → String → SecurityViolation

-- `dangerousCapabilities`.
unfoldable pub is_dangerous : String → Bool
is_dangerous c =
    str_eq c "SYS_ADMIN"
    || str_eq c "SYS_PTRACE"
    || str_eq c "SYS_MODULE"
    || str_eq c "SYS_RAWIO"
    || str_eq c "DAC_READ_SEARCH"
    || str_eq c "BPF"
    || str_eq c "ALL"

-- `p != nil && *p`.
abbrev pub is_set : Option Bool → Bool
is_set none = false
is_set (some b) = b

abbrev pub is_default_proc_mount : Option String → Bool
is_default_proc_mount none = true
is_default_proc_mount (some m) = str_eq m "Default"

abbrev proc_mount_name : Option String → String
proc_mount_name none = ""
proc_mount_name (some m) = m

unfoldable pub check_context : String → SecurityContext → Result SecurityViolation (Unit {0})
unfolding is_dangerous
check_context name sc = do
  guard (not (is_set sc.privileged)) (runs_privileged name)
  guard (not (is_set sc.allow_privilege_escalation)) (escalates_privileges name)
  guard (not (is_set sc.host_process)) (runs_host_process name)
  guard (is_default_proc_mount sc.proc_mount) (unmasks_proc name (proc_mount_name sc.proc_mount))
  check_all (λ c. guard (not (is_dangerous c)) (adds_capability name c)) sc.capabilities_add

unfoldable pub check_container : Container → Result SecurityViolation (Unit {0})
unfolding check_context
check_container c = elim c.security_context [ none ↦ ok tt | some sc ↦ check_context c.name sc ]

abbrev pub has_host_path : Volume → Bool
has_host_path v = elim v.host_path [ none ↦ false | some _ ↦ true ]

unfoldable pub validate_pod_security : Pod → Result SecurityViolation (Unit {0})
unfolding check_container
validate_pod_security pod = do
  guard (not (pod.host_ipc || pod.host_pid || pod.host_network)) shares_host_namespace
  check_all check_container (pod.containers ++ pod.init_containers)
  check_all (λ v. guard (not (has_host_path v)) mounts_host_path) pod.volumes
