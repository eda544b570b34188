-- ===== src/Http/Isolation.antt =====
-- ingestion_api/app.py: a request reaches the records and reports of one tenant only.
use cloudops_guard.Prelude.{arith, true, [], ◌∷◌, ◌≡◌, ◌≢◌, refl, sym, ◌⊎◌, inl, inr, subst}
use cloudops_guard.Prelude.Text.{Key, ◌≟◌, text_eq, key_eq}
use cloudops_guard.Prelude.Result.{ok}
use cloudops_guard.Ingestion.Models.{TokenScope}
use cloudops_guard.Ingestion.Auth.{Principal}
use cloudops_guard.Ingestion.Metadata.{get}
use cloudops_guard.Api.{World, IsConsistent}
use cloudops_guard.Api.Requests.{
  submit, read, remove, retain, purge, Request, submit, read, remove, serve, serve-IsConsistent,
  AreMarked,
}
use cloudops_guard.Api.Tenants.{
  Untouched, Untouched-refl, create_ingestion-Untouched, expire-records, retire-records,
}
use cloudops_guard.Http.{HttpRequest, Server, Environment}
use cloudops_guard.Http.Handlers.{admit_request}
use cloudops_guard.Http.Dispatch.{app}
use cloudops_guard.Http.Access.{Allowed, app_refines}

Allowed-Untouched :
    (j : Key) (p : Principal) (scope : TokenScope) (r : Request) (w : World)
    → Allowed p scope r
    → p.tenant_id ≢ j.0
    → Untouched j w (serve r w)
unfolding serve get
Allowed-Untouched j p scope (submit source t fingerprint b key) w own other =
    create_ingestion-Untouched j t (λ same. other (ground (arith, own, same))) source fingerprint b
      key w
Allowed-Untouched j p scope (read later (t, i)) w own other = record {
  record_same = expire-records j t (λ same. other (ground (arith, own, same))) later i w.metadata;
  bytes_same = λ k h. refl;
}
Allowed-Untouched j p scope (remove later (t, i) at) w own other = record {
  record_same =
      retire-records j t (λ same. other (ground (arith, own, same))) later i at _ w.metadata;
  bytes_same = λ k h. refl;
}
Allowed-Untouched j p scope (retain period at later) w own other = ground (arith, own)
Allowed-Untouched j p scope (purge later later' fault key at) w own other = ground (arith, own)

all_marked : (r : Request) → AreMarked (λ j. true) (r ∷ [])
unfolding AreMarked
all_marked (submit source t fingerprint b key) = ((λ n faulty. refl), tt)
all_marked (read later key) = tt
all_marked (remove later key at) = tt
all_marked (retain period at later) = tt
all_marked (purge later later' fault key at) = tt

module _ (env : Environment) (q : HttpRequest) (s : Server) where
  -- One HTTP request leaves the record of an ingestion and its report bytes as they are, or it was
  -- admitted for a principal of the tenant of this ingestion.
  pub tenant_isolation :
      (j : Key)
      → Untouched j s.world (app env q s).1.world
        ⊎ ((scope : TokenScope) × ((p : Principal) × (((admit_request env q scope s).0 ≡ ok p)
                × (p.tenant_id ≡ j.0))))
  tenant_isolation j = elim (app_refines env q s) [
    | inl kept ↦ inl (subst (Untouched j s.world) (sym kept) (Untouched-refl j s.world))
    | inr h ↦ elim (h.principal.tenant_id ≟ j.0) [
      | yes same ↦ inr (h.scope, (h.principal, (h.admitted, same)))
      | no other ↦ inl (
          subst (Untouched j s.world) (sym h.effect)
            (Allowed-Untouched j h.principal h.scope h.operation s.world h.allowed other))
    ]
  ]

  -- One HTTP request, with any outcome and failures, keeps the metadata store valid, with the report
  -- bytes of every record that is received or retired.
  pub app-IsConsistent :
      IsConsistent (λ j. true) s.world → IsConsistent (λ j. true) (app env q s).1.world
  app-IsConsistent h = elim (app_refines env q s) [
    | inl kept ↦ subst (IsConsistent (λ j. true)) (sym kept) h
    | inr p ↦
        subst (IsConsistent (λ j. true)) (sym p.effect)
          (serve-IsConsistent (λ j. true) p.operation [] s.world (all_marked p.operation) h).0
  ]
