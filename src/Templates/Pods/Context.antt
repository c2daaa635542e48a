-- ===== src/Templates/Pods/Context.antt =====
-- The security contexts: PodSecurityContext and ContainerSecurityContext of
-- pkg/k8sutils/templates/pod/spec.go.
use starrocks_kubernetes_ope.Base.{
  ℤ, pos, Option, none, some, Bool, true, false, eqz, if◌then◌else◌,
}
use starrocks_kubernetes_ope.Kube.{PodSecurityContext, SecurityContext}
use starrocks_kubernetes_ope.Api.{
  Spec, get_run_as_non_root, get_sysctls, get_capabilities, is_read_only_root_filesystem,
}

-- PodSecurityContext
unfoldable pub pod_security_context : Spec → PodSecurityContext
unfolding get_run_as_non_root get_sysctls
pod_security_context spec = record {
  fs_group = (get_run_as_non_root spec).1;
  fs_group_change_policy = some "OnRootMismatch";
  sysctls = get_sysctls spec;
}

non_root : Option ℤ → Option Bool
non_root none = none
non_root (some user) = if eqz user (pos 0) then none else some true

-- ContainerSecurityContext
unfoldable pub container_security_context : Spec → SecurityContext
unfolding get_run_as_non_root get_capabilities is_read_only_root_filesystem non_root
container_security_context spec = record {
  run_as_user = (get_run_as_non_root spec).0;
  run_as_group = (get_run_as_non_root spec).1;
  run_as_non_root = non_root (get_run_as_non_root spec).0;
  allow_privilege_escalation = some false;
  read_only_root_filesystem = is_read_only_root_filesystem spec;
  capabilities = get_capabilities spec;
}
