-- ===== src/Security/Isolation.antt =====
-- internal/security/policy.go: which pods pass, said without the order of the checks.
use vgpu_scheduler.Prelude.{
  ◌≡◌, ◌≢◌, ◌↔◌, ◌⊎◌, refl, subst, String, true, false, not, Option, none, some, List, ◌++◌, inl,
  inr, Result, ok, guard, check_all, check_all_iff, arith, str_eq_iff, All, All-map, Option-cases,
}
use vgpu_scheduler.Security.{
  SecurityContext, Container, Volume, Pod, SecurityViolation, adds_capability, is_dangerous,
  is_default_proc_mount, check_context, check_container, has_host_path, validate_pod_security,
  mounts_host_path,
}

-- The capabilities that are as good as `privileged: true`.
abbrev pub IsHarmless : String → Type 0
IsHarmless c =
    (c ≢ "SYS_ADMIN")
    × (c ≢ "SYS_PTRACE")
    × (c ≢ "SYS_MODULE")
    × (c ≢ "SYS_RAWIO")
    × (c ≢ "DAC_READ_SEARCH")
    × (c ≢ "BPF")
    × (c ≢ "ALL")

pub record IsConfined (sc : SecurityContext) : Type 0 where
  pub unprivileged : sc.privileged ≢ some true
  pub no_escalation : sc.allow_privilege_escalation ≢ some true
  pub no_host_process : sc.host_process ≢ some true
  pub masked_proc : (sc.proc_mount ≡ none) ⊎ (sc.proc_mount ≡ some "Default")
  pub harmless : All IsHarmless sc.capabilities_add

abbrev pub ContainerConfined : Container → Type 0
ContainerConfined c = (sc : SecurityContext) → c.security_context ≡ some sc → IsConfined sc

pub record IsIsolated (pod : Pod) : Type 0 where
  pub own_namespaces : (pod.host_ipc ≡ false) × (pod.host_pid ≡ false) × (pod.host_network ≡ false)
  pub confined : All ContainerConfined (pod.containers ++ pod.init_containers)
  pub no_host_paths : All (λ v. v.host_path ≡ none) pod.volumes

is_dangerous_iff : (c : String) → (is_dangerous c ≡ false) ↔ IsHarmless c
unfolding is_dangerous
is_dangerous_iff c = ground (
  arith,
  str_eq_iff c "SYS_ADMIN",
  str_eq_iff c "SYS_PTRACE",
  str_eq_iff c "SYS_MODULE",
  str_eq_iff c "SYS_RAWIO",
  str_eq_iff c "DAC_READ_SEARCH",
  str_eq_iff c "BPF",
  str_eq_iff c "ALL",
)

abbrev capability_check : String → String → Result SecurityViolation (Unit {0})
capability_check name c = guard (not (is_dangerous c)) (adds_capability name c)

capabilities_iff :
    (name : String) (cs : List String)
    → (check_all (capability_check name) cs ≡ ok tt) ↔ All IsHarmless cs
capabilities_iff name cs = (
  λ e.
      All-map cs (λ c ok_c. (is_dangerous_iff c).0 (ground (arith, ok_c)))
        ((check_all_iff (capability_check name) cs).0 e),
  λ a.
      (check_all_iff (capability_check name) cs).1
        (All-map cs (λ c h. ground (arith, (is_dangerous_iff c).1 h)) a),
)

default_iff :
    (m : Option String) → (is_default_proc_mount m ≡ true) ↔ ((m ≡ none) ⊎ (m ≡ some "Default"))
default_iff none = (λ e. inl refl, λ h. refl)
default_iff (some m) = ground (arith, str_eq_iff m "Default")

context_iff :
    (name : String) (sc : SecurityContext) → (check_context name sc ≡ ok tt) ↔ IsConfined sc
unfolding check_context
context_iff name sc = (
  λ e. record {
    unprivileged = ground arith;
    no_escalation = ground arith;
    no_host_process = ground arith;
    masked_proc = (default_iff sc.proc_mount).0 (ground arith);
    harmless = (capabilities_iff name sc.capabilities_add).0 (ground arith);
  },
  λ c. ground (
    arith,
    (default_iff sc.proc_mount).1 c.masked_proc,
    (capabilities_iff name sc.capabilities_add).1 c.harmless,
  ),
)

container_iff : (c : Container) → (check_container c ≡ ok tt) ↔ ContainerConfined c
unfolding check_container
container_iff c = elim (Option-cases c.security_context) [
  | inl e ↦ (λ _ sc h. absurd (cc), λ _. rw (e, check_container))
  | inr (sc, e) ↦ (
    λ passed sc' h. subst IsConfined (cc) ((context_iff c.name sc).0 (ground (arith, passed, e))),
    λ confined. ground (arith, e, (context_iff c.name sc).1 (confined sc e)),
  )
]

abbrev volume_check : Volume → Result SecurityViolation (Unit {0})
volume_check v = guard (not (has_host_path v)) mounts_host_path

volume_iff : (v : Volume) → (volume_check v ≡ ok tt) ↔ (v.host_path ≡ none)
volume_iff v = ground arith

-- `ValidatePodSecurity` admits a pod exactly when it shares no host namespace, mounts no host path,
-- and none of its containers, init containers included, has a security context that is privileged,
-- allows privilege escalation, runs as a Windows host process, has a proc mount other than the
-- default, or adds a dangerous capability.
pub validate_pod_iff : (pod : Pod) → (validate_pod_security pod ≡ ok tt) ↔ IsIsolated pod
unfolding validate_pod_security
validate_pod_iff pod = (
  λ e. record {
    own_namespaces = ground arith;
    confined =
        All-map all (λ c. (container_iff c).0)
          ((check_all_iff check_container all).0 (ground arith));
    no_host_paths =
        All-map pod.volumes (λ v. (volume_iff v).0)
          ((check_all_iff volume_check pod.volumes).0 (ground arith));
  },
  λ i. ground (
    arith,
    i.own_namespaces,
    (check_all_iff check_container all).1 (All-map all (λ c. (container_iff c).1) i.confined),
    (check_all_iff volume_check pod.volumes).1
        (All-map pod.volumes (λ v. (volume_iff v).1) i.no_host_paths),
  ),
)
  where
    all : List Container
    all = pod.containers ++ pod.init_containers
