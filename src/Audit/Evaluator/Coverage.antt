-- ===== src/Audit/Evaluator/Coverage.antt =====
-- engine/evaluator.py: what no report leaves out.
use cloudops_guard.Prelude.{
  inr, inl, Bool-cases, Option-cases, ◌⊎◌, ◌∙◌, sym, subst, ap, ℕ, List, [], ◌∷◌, ◌≡◌, refl, arith,
  Option,
}
use cloudops_guard.Prelude.Text.{◌≟◌, key_eq}
use mathlib.Core.List.{Memᴰ}
use mathlib.Core.List.Memᴰ.{head, tail}
use cloudops_guard.Audit.Models.{
  pod_kind, ClusterSnapshot, PodInfo, deployment_kind, ContainerInfo, DeploymentInfo, ResourceKind,
}
use cloudops_guard.Audit.Evaluator.{
  false, all_findings, is_verified_deployment_owned, some, evaluate, pod_findings, pods_findings,
  containers_findings, true, has_deployment, deployments_findings,
}
use cloudops_guard.Prelude.Within.{Within, first, later, earlier}
use cloudops_guard.Prelude.Text.{Key, Text}
use cloudops_guard.Ingestion.Models.{DateTime}
use cloudops_guard.Audit.Checks.{evaluate_container}

module _ (kind : ResourceKind) (name namespace context : Text) (now : DateTime) where
  container-Within :
      (c : ContainerInfo) (cs : List ContainerInfo)
      → Memᴰ c cs
      → Within
          (evaluate_container kind name namespace c context now)
          (containers_findings kind name namespace context now cs)
  unfolding containers_findings
  container-Within c [] m = elim m [ ]
  container-Within c (d ∷ cs) (head same) =
      subst
        (λ x.
          Within (evaluate_container kind name namespace x context now)
            (containers_findings kind name namespace context now (d ∷ cs)))
        (sym same) (first _ _)
  container-Within c (d ∷ cs) (tail m) = later _ _ _ (container-Within c cs m)

deployment-Within :
    (context : Text) (now : DateTime) (d : DeploymentInfo) (ds : List DeploymentInfo)
    → Memᴰ d ds
    → Within
        (containers_findings deployment_kind d.name d.namespace context now d.containers)
        (deployments_findings context now ds)
unfolding deployments_findings
deployment-Within context now d [] m = elim m [ ]
deployment-Within context now d (e ∷ ds) (head same) =
    subst
      (λ x.
        Within (containers_findings deployment_kind x.name x.namespace context now x.containers)
          (deployments_findings context now (e ∷ ds)))
      (sym same) (first _ _)
deployment-Within context now d (e ∷ ds) (tail m) =
    later _ _ _ (deployment-Within context now d ds m)

module _ (ds : List DeploymentInfo) (context : Text) (threshold : ℕ) (now : DateTime) where
  pod-Within :
      (p : PodInfo) (ps : List PodInfo)
      → Memᴰ p ps
      → Within (pod_findings ds context threshold now p) (pods_findings ds context threshold now ps)
  unfolding pods_findings
  pod-Within p [] m = elim m [ ]
  pod-Within p (q ∷ ps) (head same) =
      subst
        (λ x.
          Within (pod_findings ds context threshold now x)
            (pods_findings ds context threshold now (q ∷ ps)))
        (sym same) (first _ _)
  pod-Within p (q ∷ ps) (tail m) = later _ _ _ (pod-Within p ps m)

Within-trans {ℓ} : {A : Type ℓ} (xs ys zs : List A) → Within xs ys → Within ys zs → Within xs zs
Within-trans xs ys zs xy (before, (after, eq)) =
    subst (Within xs) (sym eq) (later _ _ before (earlier _ _ after xy))

has_deployment-Mem :
    (key : Key) (ds : List DeploymentInfo)
    → has_deployment key ds ≡ true
    → (d : DeploymentInfo) × (Memᴰ d ds × ((d.namespace, d.name) ≡ key))
unfolding has_deployment
has_deployment-Mem key [] e = ground (arith, e)
has_deployment-Mem key (d ∷ ds) e = elim ((d.namespace, d.name) ≟ key) [
  | yes same ↦ (d, (head refl, same))
  | no other ↦
      let (found, (m, same)) = has_deployment-Mem key ds (ground (arith, e, other)) in
      (found, (tail m, same))
]

unowned-Within :
    (ds : List DeploymentInfo) (context : Text) (threshold : ℕ) (now : DateTime) (p : PodInfo)
    → is_verified_deployment_owned ds p ≡ false
    → Within
        (containers_findings pod_kind p.name p.namespace context now p.containers)
        (pod_findings ds context threshold now p)
unfolding pod_findings
unowned-Within ds context threshold now p free = rw (pod_findings, free) (first _ _)

owned-Mem :
    (ds : List DeploymentInfo) (p : PodInfo)
    → is_verified_deployment_owned ds p ≡ true
    → (d : DeploymentInfo) × (Memᴰ d ds
        × ((d.namespace ≡ p.namespace) × (p.owning_deployment ≡ some d.name)))
unfolding is_verified_deployment_owned
owned-Mem ds p owned = elim (Option-cases p.owning_deployment) [
  | inl none_eq ↦ ground (arith, owned, none_eq)
  | inr (owner, some_eq) ↦
      let (d, (m, same)) =
        has_deployment-Mem (p.namespace, owner) ds (ground (arith, owned, some_eq)) in
      (d, (m, (ap (λ k. k.0) same, some_eq ∙ ap (λ k. some k.1) (sym same))))
]

-- The findings of a container of a collected pod stand in the report, one after the other, unless
-- the pod names as its owner a Deployment that was collected in its namespace; then those of every
-- container of that Deployment do.
pub evaluate-covers :
    (snapshot : ClusterSnapshot) (threshold : ℕ) (filter : Option Text) (now : DateTime)
    (pod : PodInfo) (c : ContainerInfo)
    → Memᴰ pod snapshot.pods
    → Memᴰ c pod.containers
    → let report = evaluate snapshot threshold filter now in
      Within
        (evaluate_container pod_kind pod.name pod.namespace c snapshot.context now)
        report.findings
      ⊎ ((d : DeploymentInfo) × (Memᴰ d snapshot.deployments
            × ((d.namespace ≡ pod.namespace)
                × ((pod.owning_deployment ≡ some d.name)
                    × ((e : ContainerInfo)
                        → Memᴰ e d.containers
                        → Within
                            (evaluate_container deployment_kind d.name d.namespace e
                              snapshot.context now)
                            report.findings)))))
unfolding evaluate all_findings
evaluate-covers snapshot threshold filter now pod c in_pods in_pod =
    let ds = snapshot.deployments in
    elim (Bool-cases (is_verified_deployment_owned ds pod)) [
      | inr free ↦ inl (
          later _ _ (deployments_findings snapshot.context now ds) (
            Within-trans _ _ _
              (container-Within pod_kind pod.name pod.namespace snapshot.context now c _ in_pod)
              (Within-trans _ _ _ (unowned-Within ds snapshot.context threshold now pod free)
                (pod-Within ds snapshot.context threshold now pod _ in_pods))))
      | inl owned ↦
          let (d, (m, (same_ns, named))) = owned-Mem ds pod owned in
          inr (
            d,
            (
              m,
              (
                same_ns,
                (
                  named,
                  λ e in_d. earlier _ _ _ (
                      Within-trans _ _ _
                        (container-Within deployment_kind d.name d.namespace snapshot.context now e
                          _ in_d)
                        (deployment-Within snapshot.context now d ds m)),
                ),
              ),
            ),
          )
    ]
