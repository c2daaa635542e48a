-- ===== src/K8sutils/Version.antt =====
-- The version of Kubernetes: CleanMinorVersion of pkg/k8sutils/k8sutils.go, and what GetKubernetesVersion
-- does with the answer of the API server.
pub mod Laws
use Prim.Native.Char.{code}
use Prim.Native.String
use starrocks_kubernetes_ope.Base.{String, is_digit, if◌then◌else◌}
use starrocks_kubernetes_ope.Kube.Client.{Settings}

-- CleanMinorVersion; the digits are those of ASCII
unfoldable pub clean_minor_version : String → String
clean_minor_version String.[] = ""
clean_minor_version (String.◌∷◌ c s) =
    let rest = clean_minor_version s in if is_digit (code c) then String.◌∷◌ c rest else rest

-- The assignments of GetKubernetesVersion, for the answer of the API server.
unfoldable pub with_server_version : (major minor : String) → Settings → Settings
unfolding clean_minor_version
with_server_version major minor settings = record settings {
  kube_major_version = major;
  kube_minor_version = clean_minor_version minor;
}
