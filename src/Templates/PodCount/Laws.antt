-- ===== src/Templates/PodCount/Laws.antt =====
-- No pod is lost or counted twice: pkg/k8sutils/templates/pod/status.go.
use starrocks_kubernetes_ope.Base.{String, ℕ, List, [], ◌∷◌, if◌then◌else◌, ◌≡◌, refl, arith, ◌+◌}
use starrocks_kubernetes_ope.Kube.{Pod}
use starrocks_kubernetes_ope.Templates.PodCount.{count_pods}
use text.Mathlib.Text.{◌==◌}

-- How often a name stands in a list.
pub occurrences : String → List String → ℕ
occurrences name [] = 0
occurrences name (x ∷ xs) = (if x == name then 1 else 0) + occurrences name xs

pub pod_names : List Pod → List String
pod_names [] = []
pod_names (pod ∷ pods) = pod.meta.name ∷ pod_names pods

-- Count sorts the pods into three classes that share none and leave none out: each name stands in
-- the three lists together as often as among the pods.
pub count_pods-occurrences :
    (name : String) (pods : List Pod)
    → occurrences name (count_pods pods).creating
        + occurrences name (count_pods pods).ready
        + occurrences name (count_pods pods).failed
      ≡ occurrences name (pod_names pods)
unfolding count_pods occurrences pod_names
count_pods-occurrences name [] = refl
count_pods-occurrences name (pod ∷ pods) = ground (arith, count_pods-occurrences name pods)
