-- ===== src/Audit/Models.antt =====
-- models.py: what is collected from a cluster, and what an audit of it reports.
use cloudops_guard.Prelude.{Option, ℕ, List, Bool, ◌+◌}
use cloudops_guard.Prelude.Text.{Text}
use cloudops_guard.Ingestion.Models.{DateTime}

pub data Severity : Type 0 where
  critical high medium low : Severity

pub data ResourceKind : Type 0 where
  namespace_kind pod_kind deployment_kind : ResourceKind

-- raw quantities, `None` where they are not set
pub record ResourceRequirements : Type 0 where
  pub cpu_request : Option Text
  pub memory_request : Option Text
  pub cpu_limit : Option Text
  pub memory_limit : Option Text

pub record ContainerInfo : Type 0 where
  pub name : Text
  pub image : Text
  pub resources : ResourceRequirements

-- The count of restarts that a cluster reports is not negative.
pub record ContainerRuntimeStatus : Type 0 where
  pub container_name : Text
  pub restart_count : ℕ
  pub ready : Bool
  pub waiting_reason : Option Text
  pub last_termination_reason : Option Text

pub record PodInfo : Type 0 where
  pub name : Text
  pub namespace : Text
  pub containers : List ContainerInfo
  pub container_statuses : List ContainerRuntimeStatus
  pub owning_deployment : Option Text

pub record DeploymentInfo : Type 0 where
  pub name : Text
  pub namespace : Text
  pub uid : Option Text
  pub replicas : ℕ
  pub containers : List ContainerInfo

pub record NamespaceInfo : Type 0 where
  pub name : Text

pub record ClusterSnapshot : Type 0 where
  pub context : Text
  pub collected_at : DateTime
  pub namespaces : List NamespaceInfo
  pub pods : List PodInfo
  pub deployments : List DeploymentInfo

pub record Finding : Type 0 where
  pub check_id : Text
  pub title : Text
  pub severity : Severity
  pub cluster_context : Text
  pub namespace : Text
  pub resource_kind : ResourceKind
  pub resource_name : Text
  pub container_name : Option Text
  pub evidence : Text
  pub impact : Text
  pub recommendation : Text
  pub auto_remediable : Bool
  pub audited_at : DateTime

pub record AuditSummary : Type 0 where
  pub critical : ℕ
  pub high : ℕ
  pub medium : ℕ
  pub low : ℕ

-- `AuditSummary.total`
abbrev pub total : AuditSummary → ℕ
total s = s.critical + s.high + s.medium + s.low

pub record AuditReport : Type 0 where
  pub cluster_context : Text
  pub namespace_filter : Option Text
  pub generated_at : DateTime
  pub findings : List Finding
  pub summary : AuditSummary
