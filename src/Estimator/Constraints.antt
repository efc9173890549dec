-- ===== src/Estimator/Constraints.antt =====
-- `canPodFitConstraints` and `toleratesTaint` (autoscaler/pkg/estimator/resource_estimator.go).
pub mod Meaning
use kubto.Prelude.{
  Bool, true, false, not, ◌&&◌, ◌||◌, Option, none, some, List, [], ◌∷◌, String, str_eq, Assoc,
  lookup, any, if◌then◌else◌,
}
use kubto.Kube.{Taint, Toleration}
use kubto.Utils.{no_schedule, no_execute}
use kubto.Monitor.Types.{PodInfo}

abbrev pub op_exists : String
op_exists = "Exists"

abbrev pub op_equal : String
op_equal = "Equal"

unfoldable pub tolerates_taint : Toleration → Taint → Bool
tolerates_taint tol taint =
    if not (str_eq tol.key "") && not (str_eq tol.key taint.key)
    then false
    else if not (str_eq tol.effect "") && not (str_eq tol.effect taint.effect)
    then false
    else if str_eq tol.operator op_exists || str_eq tol.operator ""
    then true
    else if str_eq tol.operator op_equal
    then str_eq tol.value taint.value
    else false

-- `m[k]`, which is "" where there is no entry.
abbrev pub label_at : Assoc String → String → String
label_at m k = elim (lookup k m) [ none ↦ "" | some v ↦ v ]

abbrev pub Labels : Type 0
Labels = Option (Assoc String)

-- The loop over the node selector. Only a nil map of labels is told from an empty one.
unfoldable pub selector_matches : Assoc String → Labels → Bool
selector_matches [] labels = true
selector_matches ((k, v) ∷ sel) none = false
selector_matches ((k, v) ∷ sel) (some m) =
    if str_eq (label_at m k) v then selector_matches sel (some m) else false

unfoldable pub taints_tolerated : List Toleration → List Taint → Bool
taints_tolerated tols [] = true
taints_tolerated tols (t ∷ ts) =
    if not (str_eq t.effect no_schedule) && not (str_eq t.effect no_execute)
    then taints_tolerated tols ts
    else if any (λ tol. tolerates_taint tol t) tols
    then taints_tolerated tols ts
    else false

unfoldable pub can_pod_fit_constraints : {Q : Type 0} → PodInfo Q → Labels → List Taint → Bool
can_pod_fit_constraints pod labels taints =
    if selector_matches pod.node_selector labels
    then taints_tolerated pod.tolerations taints
    else false
