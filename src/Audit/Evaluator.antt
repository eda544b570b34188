-- ===== src/Audit/Evaluator.antt =====
-- engine/evaluator.py: `evaluate`, and the summary of its findings.
pub mod Coverage
pub mod Summary
use cloudops_guard.Prelude.{
  ◌+◌, Option, none, some, ℕ, zero, List, [], ◌∷◌, ◌++◌, Bool, true, false, ◌||◌, ◌&&◌, ite,
  if◌then◌else◌,
}
use cloudops_guard.Audit.Models.{
  critical, high, medium, low, medium, high, critical, AuditReport, pod_kind,
  ContainerRuntimeStatus, deployment_kind, ContainerInfo, ClusterSnapshot, PodInfo, DeploymentInfo,
  ResourceKind, Finding, AuditSummary, Severity,
}
use cloudops_guard.Prelude.Text.{text_eq, key_eq, ◌≟◌, Key, Text}
use cloudops_guard.Ingestion.Models.{DateTime}
use cloudops_guard.Audit.Checks.{evaluate_container_restarts, evaluate_container}

-- `_summarize`: the field of a severity is one more
unfoldable pub count_severity : Severity → AuditSummary → AuditSummary
count_severity critical s = record s { critical = s.critical + 1 }
count_severity high s = record s { high = s.high + 1 }
count_severity medium s = record s { medium = s.medium + 1 }
count_severity low s = record s { low = s.low + 1 }

unfoldable pub summarize_from : AuditSummary → List Finding → AuditSummary
summarize_from s [] = s
summarize_from s (f ∷ fs) = summarize_from (count_severity f.severity s) fs

unfoldable pub summarize : List Finding → AuditSummary
summarize fs = summarize_from (record { critical = 0; high = 0; medium = 0; low = 0 }) fs

unfoldable pub containers_findings :
    ResourceKind → Text → Text → Text → DateTime → List ContainerInfo → List Finding
containers_findings kind name namespace context now [] = []
containers_findings kind name namespace context now (c ∷ cs) =
    evaluate_container kind name namespace c context now
    ++ containers_findings kind name namespace context now cs

unfoldable pub deployments_findings : Text → DateTime → List DeploymentInfo → List Finding
deployments_findings context now [] = []
deployments_findings context now (d ∷ ds) =
    containers_findings deployment_kind d.name d.namespace context now d.containers
    ++ deployments_findings context now ds

-- `(namespace, name) in deployment_keys`
unfoldable pub has_deployment : Key → List DeploymentInfo → Bool
has_deployment key [] = false
has_deployment key (d ∷ ds) = ite ((d.namespace, d.name) ≟ key) true (has_deployment key ds)

unfoldable pub is_verified_deployment_owned : List DeploymentInfo → PodInfo → Bool
is_verified_deployment_owned ds pod = elim pod.owning_deployment [
  | none ↦ false
  | some owner ↦ has_deployment (pod.namespace, owner) ds
]

unfoldable pub statuses_findings :
    PodInfo → Text → ℕ → DateTime → List ContainerRuntimeStatus → List Finding
statuses_findings pod context threshold now [] = []
statuses_findings pod context threshold now (s ∷ ss) =
    let rest = statuses_findings pod context threshold now ss in
    elim (evaluate_container_restarts pod s context threshold now) [
      | none ↦ rest
      | some finding ↦ finding ∷ rest
    ]

unfoldable pub pod_findings : List DeploymentInfo → Text → ℕ → DateTime → PodInfo → List Finding
pod_findings ds context threshold now pod =
    (if is_verified_deployment_owned ds pod
      then []
      else containers_findings pod_kind pod.name pod.namespace context now pod.containers)
    ++ statuses_findings pod context threshold now pod.container_statuses

unfoldable pub pods_findings :
    List DeploymentInfo → Text → ℕ → DateTime → List PodInfo → List Finding
pods_findings ds context threshold now [] = []
pods_findings ds context threshold now (p ∷ ps) =
    pod_findings ds context threshold now p ++ pods_findings ds context threshold now ps

unfoldable pub all_findings : ClusterSnapshot → ℕ → DateTime → List Finding
all_findings snapshot threshold now =
    deployments_findings snapshot.context now snapshot.deployments
    ++ pods_findings snapshot.deployments snapshot.context threshold now snapshot.pods

-- `evaluate`; `now` is the reading of the clock at its start
unfoldable pub evaluate : ClusterSnapshot → ℕ → Option Text → DateTime → AuditReport
evaluate snapshot restart_threshold namespace_filter now =
    let findings = all_findings snapshot restart_threshold now in
    record {
      cluster_context = snapshot.context;
      namespace_filter = namespace_filter;
      generated_at = now;
      findings = findings;
      summary = summarize findings;
    }
