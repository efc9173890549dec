-- ===== src/Estimator/Constraints/Meaning.antt =====
-- What the tests of the scheduling constraints decide.
use kubto.Prelude.{
  ◌≡◌, refl, ◌⊎◌, ◌↔◌, true, none, some, List, [], ◌∷◌, String, str_eq_iff, Assoc, lookup, any, All,
  arith,
}
use kubto.Kube.{Taint, Toleration}
use kubto.Utils.{no_schedule, no_execute}
use kubto.Monitor.Types.{PodInfo}
use kubto.Estimator.Constraints.{
  op_exists, op_equal, tolerates_taint, label_at, Labels, selector_matches, taints_tolerated,
  can_pod_fit_constraints,
}

-- A toleration covers a taint: by key, by effect and by operator.
pub record Covers (tol : Toleration) (taint : Taint) : Type 0 where
  pub key : (tol.key ≡ "") ⊎ (tol.key ≡ taint.key)
  pub effect : (tol.effect ≡ "") ⊎ (tol.effect ≡ taint.effect)
  pub operator :
      ((tol.operator ≡ op_exists) ⊎ (tol.operator ≡ ""))
      ⊎ ((tol.operator ≡ op_equal) × (tol.value ≡ taint.value))

abbrev AnyCovers : List Toleration → Taint → Type 0
AnyCovers [] t = ⊥
AnyCovers (tol ∷ tols) t = Covers tol t ⊎ AnyCovers tols t

abbrev IsBlocking : Taint → Type 0
IsBlocking t = (t.effect ≡ no_schedule) ⊎ (t.effect ≡ no_execute)

-- Each key of the selector has its value among the labels, where a label that is missing reads "".
abbrev pub Selected : Assoc String → Labels → Type 0
Selected [] labels = Unit {0}
Selected ((k, v) ∷ sel) none = ⊥
Selected ((k, v) ∷ sel) (some m) = (label_at m k ≡ v) × Selected sel (some m)

abbrev pub Tolerated : List Toleration → List Taint → Type 0
Tolerated tols = All (λ t. IsBlocking t → AnyCovers tols t)

-- What the code asks of the labels and taints of a node. Two points are its own: a label that is
-- missing reads as the empty value, and an empty operator of a toleration covers any value.
abbrev pub Meets : {Q : Type 0} → PodInfo Q → Labels → List Taint → Type 0
Meets pod labels taints = Selected pod.node_selector labels × Tolerated pod.tolerations taints

tolerates_taint-Covers :
    (tol : Toleration) (t : Taint) → (tolerates_taint tol t ≡ true) ↔ Covers tol t
unfolding tolerates_taint
tolerates_taint-Covers tol t = ground (
  arith,
  str_eq_iff tol.key "",
  str_eq_iff tol.key t.key,
  str_eq_iff tol.effect "",
  str_eq_iff tol.effect t.effect,
  str_eq_iff tol.operator op_exists,
  str_eq_iff tol.operator "",
  str_eq_iff tol.operator op_equal,
  str_eq_iff tol.value t.value,
)

any-AnyCovers :
    (tols : List Toleration) (t : Taint)
    → (any (λ tol. tolerates_taint tol t) tols ≡ true) ↔ AnyCovers tols t
any-AnyCovers [] t = ((λ h. cc), (λ h. absurd h))
any-AnyCovers (tol ∷ tols) t = ground (arith, tolerates_taint-Covers tol t, any-AnyCovers tols t)

selector_matches-Selected :
    (sel : Assoc String) (labels : Labels)
    → (selector_matches sel labels ≡ true) ↔ Selected sel labels
unfolding selector_matches
selector_matches-Selected [] labels = ((λ _. tt), (λ _. refl))
selector_matches-Selected ((k, v) ∷ sel) none = ((λ h. cc), (λ h. absurd h))
selector_matches-Selected ((k, v) ∷ sel) (some m) =
    ground (arith, str_eq_iff (label_at m k) v, selector_matches-Selected sel (some m))

taints_tolerated-Tolerated :
    (tols : List Toleration) (ts : List Taint)
    → (taints_tolerated tols ts ≡ true) ↔ Tolerated tols ts
unfolding taints_tolerated
taints_tolerated-Tolerated tols [] = ((λ _. tt), (λ _. refl))
taints_tolerated-Tolerated tols (t ∷ ts) = ground (
  arith,
  str_eq_iff t.effect no_schedule,
  str_eq_iff t.effect no_execute,
  any-AnyCovers tols t,
  taints_tolerated-Tolerated tols ts,
)

-- A pod fits a node's labels and taints exactly when its selector is met by the labels and every
-- blocking taint is covered by one of its tolerations.
pub can_fit_iff :
    {Q : Type 0} (pod : PodInfo Q) (labels : Labels) (taints : List Taint)
    → (can_pod_fit_constraints pod labels taints ≡ true) ↔ Meets pod labels taints
unfolding can_pod_fit_constraints
can_fit_iff pod labels taints = ground (
  arith,
  selector_matches-Selected pod.node_selector labels,
  taints_tolerated-Tolerated pod.tolerations taints,
)

-- A selector that asks for labels with the empty value is met by every node whose labels are not
-- nil and lack all of these keys.
pub empty_value_matches_missing :
    (sel : Assoc String) (m : Assoc String)
    → All (λ (k, v). (v ≡ "") × (lookup k m ≡ none)) sel
    → selector_matches sel (some m) ≡ true
unfolding selector_matches
empty_value_matches_missing [] m h = refl
empty_value_matches_missing ((k, v) ∷ sel) m h =
    ground (arith, str_eq_iff "" v, empty_value_matches_missing sel m h.1)
