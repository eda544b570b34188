-- ===== src/Audit/Checks/Containers.antt =====
-- checks/kubernetes.py: when a container has no finding, and what every finding of one has.
use cloudops_guard.Prelude.{◌≡◌, ◌↔◌, arith, Bool, true, ◌||◌, ◌&&◌, []}
use cloudops_guard.Audit.Models.{ContainerInfo, ResourceKind}
use cloudops_guard.Audit.Checks.{
  check_mutable_image_tag, check_memory_limit, check_cpu_limit, check_memory_request,
  check_cpu_request, run_checks, evaluate_container, is_set,
}
use cloudops_guard.Prelude.Text.{Text}
use cloudops_guard.Ingestion.Models.{DateTime}
use cloudops_guard.Audit.ImageTag.{is_pinned_by_digest, is_fixed_tag, image_tag}

-- Every setting is made, and the image is pinned by its digest or has a tag that is not `latest`.
abbrev pub is_clean : ContainerInfo → Bool
is_clean c =
    is_set c.resources.cpu_request
    && is_set c.resources.memory_request
    && is_set c.resources.cpu_limit
    && is_set c.resources.memory_limit
    && (is_pinned_by_digest c.image || is_fixed_tag (image_tag c.image))

module _ (kind : ResourceKind) (resource_name namespace : Text) (c : ContainerInfo) (context : Text)
    (now : DateTime) where
  clean-evaluate_container :
      is_clean c ≡ true → evaluate_container kind resource_name namespace c context now ≡ []
  unfolding evaluate_container run_checks check_cpu_request check_memory_request check_cpu_limit
      check_memory_limit check_mutable_image_tag
  clean-evaluate_container e = ground (arith, e)

  evaluate_container-clean :
      evaluate_container kind resource_name namespace c context now ≡ [] → is_clean c ≡ true
  unfolding evaluate_container run_checks check_cpu_request check_memory_request check_cpu_limit
      check_memory_limit check_mutable_image_tag
  evaluate_container-clean e = ground (arith, e)

  -- A container has no finding exactly when its CPU and memory requests and limits are all set to a
  -- text that is not empty, and its image is pinned by a digest or has a tag other than `latest`.
  pub evaluate_container_lem :
      (evaluate_container kind resource_name namespace c context now ≡ []) ↔ (is_clean c ≡ true)
  evaluate_container_lem = (evaluate_container-clean, clean-evaluate_container)
