-- ===== src/Tests/Audit.antt =====
-- The theorems on engine/evaluator.py and checks/kubernetes.py at concrete inputs.
use cloudops_guard.Prelude.{◌↔◌, ◌⊎◌, [], ◌∷◌, ◌++◌, ◌≡◌, refl, true, none, some, length}
use mathlib.Core.List.Memᴰ.{head}
use cloudops_guard.Ingestion.Models.{DateTime}
use cloudops_guard.Audit.Models.{
  deployment_kind, DeploymentInfo, total, pod_kind, Severity, ClusterSnapshot, PodInfo,
  ContainerInfo,
}
use cloudops_guard.Audit.Evaluator.{evaluate}
use cloudops_guard.Prelude.Text.{text_eq, key_eq}
use cloudops_guard.Audit.Evaluator.Coverage.{evaluate-covers}
use cloudops_guard.Audit.Checks.{evaluate_container}
use cloudops_guard.Audit.Evaluator.Summary.{evaluate-summary, of_severity, field_of}
use mathlib.Core.List.{Memᴰ}
use cloudops_guard.Audit.Checks.Containers.{evaluate_container_lem, is_clean}
use cloudops_guard.Prelude.Within.{Within}

abbrev now : DateTime
now = record { micros = 7; aware = true }

-- `r:5/app:v`
abbrev app : ContainerInfo
app = record {
  name = 97 ∷ [];
  image = (114 ∷ b':' ∷ 53 ∷ []) ++ b'/' ∷ ((97 ∷ []) ++ b':' ∷ (118 ∷ []));
  resources = record {
    cpu_request = some (49 ∷ []);
    memory_request = none;
    cpu_limit = none;
    memory_limit = none;
  };
}

abbrev pod : PodInfo
pod = record {
  name = 112 ∷ [];
  namespace = 110 ∷ [];
  containers = app ∷ [];
  container_statuses = [];
  owning_deployment = none;
}

abbrev snapshot : ClusterSnapshot
snapshot = record {
  context = 99 ∷ [];
  collected_at = now;
  namespaces = [];
  pods = pod ∷ [];
  deployments = [];
}

evaluate-summary_example :
    let report = evaluate snapshot 3 none now in
    ((s : Severity) → field_of s report.summary ≡ of_severity s report.findings)
    × (total report.summary ≡ length report.findings)
evaluate-summary_example = evaluate-summary snapshot 3 none now

evaluate-covers_example :
    let report = evaluate snapshot 3 none now in
    Within
      (evaluate_container pod_kind pod.name pod.namespace app snapshot.context now)
      report.findings
    ⊎ ((d : DeploymentInfo) × (Memᴰ d snapshot.deployments
          × ((d.namespace ≡ pod.namespace)
              × ((pod.owning_deployment ≡ some d.name)
                  × ((e : ContainerInfo)
                      → Memᴰ e d.containers
                      → Within
                          (evaluate_container deployment_kind d.name d.namespace e snapshot.context
                            now)
                          report.findings)))))
evaluate-covers_example = evaluate-covers snapshot 3 none now pod app (head refl) (head refl)

evaluate_container_lem_example :
    (evaluate_container pod_kind (112 ∷ []) (110 ∷ []) app (99 ∷ []) now ≡ [])
    ↔ (is_clean app ≡ true)
evaluate_container_lem_example =
    evaluate_container_lem pod_kind (112 ∷ []) (110 ∷ []) app (99 ∷ []) now
