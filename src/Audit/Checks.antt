-- ===== src/Audit/Checks.antt =====
-- checks/kubernetes.py: the checks of a container and of its restarts.
pub mod Images
pub mod Containers
use cloudops_guard.Prelude.{
  Option, none, some, ℕ, List, [], ◌∷◌, ◌++◌, Bool, true, false, ◌==◌, not, ltb, ite, if◌then◌else◌,
}
use cloudops_guard.Prelude.Text.{text_eq, key_eq, decimal, ◌≟◌, has_char, text, Text}
use cloudops_guard.Audit.Models.{
  pod_kind, Finding, ContainerRuntimeStatus, high, medium, PodInfo, ContainerInfo, ResourceKind,
}
use cloudops_guard.Ingestion.Models.{DateTime}
use cloudops_guard.Audit.ImageTag.{observed, image_tag, is_fixed_tag, is_pinned_by_digest}

abbrev pub check_no_cpu_request : Text
check_no_cpu_request = text "K8S-RES-001"

abbrev pub check_no_memory_request : Text
check_no_memory_request = text "K8S-RES-002"

abbrev pub check_no_cpu_limit : Text
check_no_cpu_limit = text "K8S-RES-003"

abbrev pub check_no_memory_limit : Text
check_no_memory_limit = text "K8S-RES-004"

abbrev pub check_mutable_image_tag_id : Text
check_mutable_image_tag_id = text "K8S-IMG-001"

abbrev pub check_excessive_restarts : Text
check_excessive_restarts = text "K8S-REL-001"

-- the truth of a `str | None`
abbrev pub is_set : Option Text → Bool
is_set none = false
is_set (some []) = false
is_set (some (c ∷ t)) = true

abbrev pub Check : Type 0
Check = ResourceKind → Text → Text → ContainerInfo → Text → DateTime → Option Finding

-- the evidence of a setting that is missing
abbrev unset : ContainerInfo → Text → Text
unset container setting =
    text "Container '"
    ++ container.name
    ++ text "' (image: "
    ++ container.image
    ++ text ") does not set "
    ++ setting

unfoldable pub check_cpu_request : Check
check_cpu_request kind resource_name namespace container context now =
    if is_set container.resources.cpu_request
    then none
    else some (record {
      check_id = check_no_cpu_request;
      title = text "Container has no CPU request";
      severity = medium;
      cluster_context = context;
      namespace = namespace;
      resource_kind = kind;
      resource_name = resource_name;
      container_name = some container.name;
      evidence = unset container (text "resources.requests.cpu");
      impact =
          text "Without a CPU request the scheduler cannot reserve capacity for "
          ++ text "this container, increasing the risk of CPU contention with other "
          ++ text "workloads on the same node.";
      recommendation = text "Set resources.requests.cpu based on observed usage.";
      auto_remediable = false;
      audited_at = now;
    })

unfoldable pub check_memory_request : Check
check_memory_request kind resource_name namespace container context now =
    if is_set container.resources.memory_request
    then none
    else some (record {
      check_id = check_no_memory_request;
      title = text "Container has no memory request";
      severity = medium;
      cluster_context = context;
      namespace = namespace;
      resource_kind = kind;
      resource_name = resource_name;
      container_name = some container.name;
      evidence = unset container (text "resources.requests.memory");
      impact =
          text "Without a memory request the scheduler cannot reserve capacity "
          ++ text "for this container, increasing the risk of scheduling it onto an "
          ++ text "already memory-pressured node.";
      recommendation = text "Set resources.requests.memory based on observed usage.";
      auto_remediable = false;
      audited_at = now;
    })

unfoldable pub check_cpu_limit : Check
check_cpu_limit kind resource_name namespace container context now =
    if is_set container.resources.cpu_limit
    then none
    else some (record {
      check_id = check_no_cpu_limit;
      title = text "Container has no CPU limit";
      severity = medium;
      cluster_context = context;
      namespace = namespace;
      resource_kind = kind;
      resource_name = resource_name;
      container_name = some container.name;
      evidence = unset container (text "resources.limits.cpu");
      impact =
          text "Without a CPU limit this container can consume unbounded CPU on "
          ++ text "its node, starving other workloads during load spikes.";
      recommendation = text "Set resources.limits.cpu to cap worst-case CPU usage.";
      auto_remediable = false;
      audited_at = now;
    })

unfoldable pub check_memory_limit : Check
check_memory_limit kind resource_name namespace container context now =
    if is_set container.resources.memory_limit
    then none
    else some (record {
      check_id = check_no_memory_limit;
      title = text "Container has no memory limit";
      severity = high;
      cluster_context = context;
      namespace = namespace;
      resource_kind = kind;
      resource_name = resource_name;
      container_name = some container.name;
      evidence = unset container (text "resources.limits.memory");
      impact =
          text "Without a memory limit this container can consume unbounded "
          ++ text "memory, risking node-level out-of-memory conditions that can "
          ++ text "evict or kill unrelated workloads.";
      recommendation = text "Set resources.limits.memory to cap worst-case memory usage.";
      auto_remediable = false;
      audited_at = now;
    })

unfoldable pub check_mutable_image_tag : Check
check_mutable_image_tag kind resource_name namespace container context now =
    if is_pinned_by_digest container.image
    then none
    else if is_fixed_tag (image_tag container.image)
    then none
    else some (record {
      check_id = check_mutable_image_tag_id;
      title = text "Container image uses a mutable tag";
      severity = high;
      cluster_context = context;
      namespace = namespace;
      resource_kind = kind;
      resource_name = resource_name;
      container_name = some container.name;
      evidence =
          text "Container '"
          ++ container.name
          ++ text "' uses image '"
          ++ container.image
          ++ text "' (tag: "
          ++ observed (image_tag container.image)
          ++ text ")";
      impact =
          text "A mutable tag such as 'latest', or no tag at all, means the exact "
          ++ text "image content running today may differ from what runs after the "
          ++ text "next pod restart, undermining reproducibility, rollback safety "
          ++ text "and supply-chain traceability. A specific version tag (e.g. "
          ++ text "app:1.4.2) is a meaningful improvement over 'latest', but a tag "
          ++ text "can still be overwritten and re-pushed in the registry — it is "
          ++ text "not itself a guarantee of immutability.";
      recommendation =
          text "Pin the image to a specific version tag at minimum. For a "
          ++ text "content-addressed, truly immutable reference, pin to a digest "
          ++ text "instead or in addition (e.g. app@sha256:...).";
      auto_remediable = false;
      audited_at = now;
    })

-- `_CONTAINER_CHECKS`
abbrev pub container_checks : List Check
container_checks =
    check_cpu_request ∷ check_memory_request ∷ check_cpu_limit ∷ check_memory_limit
    ∷ check_mutable_image_tag ∷ []

-- the loop over the checks
unfoldable pub run_checks :
    List Check → ResourceKind → Text → Text → ContainerInfo → Text → DateTime → List Finding
run_checks [] kind resource_name namespace container context now = []
run_checks (check ∷ checks) kind resource_name namespace container context now =
    let rest = run_checks checks kind resource_name namespace container context now in
    elim (check kind resource_name namespace container context now) [
      | none ↦ rest
      | some finding ↦ finding ∷ rest
    ]

unfoldable pub evaluate_container :
    ResourceKind → Text → Text → ContainerInfo → Text → DateTime → List Finding
evaluate_container kind resource_name namespace container context now =
    run_checks container_checks kind resource_name namespace container context now

-- a reason, where there is one
abbrev reason : Text → Option Text → Text
reason label none = []
reason label (some []) = []
reason label (some (c ∷ t)) = label ++ c ∷ t

abbrev restarts : PodInfo → ContainerRuntimeStatus → ℕ → Text
restarts pod status threshold =
    text "Container '"
    ++ status.container_name
    ++ text "' in pod '"
    ++ pod.name
    ++ text "' has restarted "
    ++ decimal status.restart_count
    ++ text " time(s) (cumulative for the pod's current lifetime), "
    ++ text "meeting or exceeding the configured threshold of "
    ++ decimal threshold
    ++ reason (text "; current waiting reason: ") status.waiting_reason
    ++ reason (text "; last termination reason: ") status.last_termination_reason

unfoldable pub evaluate_container_restarts :
    PodInfo → ContainerRuntimeStatus → Text → ℕ → DateTime → Option Finding
evaluate_container_restarts pod status context threshold now =
    if ltb status.restart_count threshold
    then none
    else some (record {
      check_id = check_excessive_restarts;
      title = text "Container has an excessive restart count";
      severity = high;
      cluster_context = context;
      namespace = pod.namespace;
      resource_kind = pod_kind;
      resource_name = pod.name;
      container_name = some status.container_name;
      evidence = restarts pod status threshold;
      impact =
          text "Frequent restarts typically indicate crash looping, failing "
          ++ text "health checks, or resource exhaustion, and reduce the reliability "
          ++ text "of the workload.";
      recommendation =
          text "Inspect this container's events and state for the root cause "
          ++ text "(crash, OOMKill, failed probe) before increasing replica count or "
          ++ text "ignoring the symptom.";
      auto_remediable = false;
      audited_at = now;
    })
