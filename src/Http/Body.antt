-- ===== src/Http/Body.antt =====
-- ingestion_api/app.py and bounded_body.py: when the body of a request is read, and how much of it.
use cloudops_guard.Prelude.{
  ℕ, ◌+◌, ◌≤◌, ◌<◌, true, Bool-cases, arith, ◌≡◌, refl, ◌⊎◌, inl, inr, List, [], ◌∷◌, ◌++◌, length,
  length-append, ltb,
}
use cloudops_guard.Prelude.Codes.{Code}
use cloudops_guard.Prelude.Result.{ok, Result-cases}
use cloudops_guard.Ingestion.Models.{reports_write, reports_read, reports_delete}
use cloudops_guard.Ingestion.Auth.{Principal}
use cloudops_guard.Ingestion.Tokens.{split}
use cloudops_guard.Ingestion.Blobs.{Bytes}
use cloudops_guard.Http.{HttpRequest, Server, Environment}
use cloudops_guard.Http.Headers.{read_chunks, reject}
use cloudops_guard.Http.Handlers.{
  admit_request, capabilities, check_capabilities_rate_limits, check_headers, reports_collection,
  get_report_item, delete_report_item, read_record, retire_record,
}
use cloudops_guard.Http.Dispatch.{
  Route, to_capabilities, to_reports, to_item, unsupported_version, no_route, dispatch_route,
  dispatch, app, handle_capabilities, handle_reports_collection, handle_report_item, route_of, same,
  post_method,
}
use cloudops_guard.Http.Access.{admit_request-world, app-dispatch}

-- the bytes that a stream brings, and their number
abbrev pub joined : List Bytes → Bytes
joined [] = []
joined (chunk ∷ chunks) = chunk ++ joined chunks

-- The request goes to the submission of reports, its headers pass the checks, and it is admitted with
-- the scope for it.
pub record MayBeRead (env : Environment) (q : HttpRequest) (s : Server) : Type 0 where
  pub route : route_of (split b'/' q.path) ≡ to_reports
  pub method : same q.method post_method ≡ true
  pub headers : check_headers q ≡ ok tt
  pub principal : Principal
  pub admitted : (admit_request env q reports_write s).0 ≡ ok principal

module _ (env : Environment) (q : HttpRequest) where
  read_item-pending :
      (ingestion_id : List ℕ) (s : Server)
      → (get_report_item env q ingestion_id s).1.pending ≡ s.pending
  unfolding get_report_item read_record
  read_item-pending ingestion_id s = ground (arith, admit_request-world env q reports_read s)

  delete_item-pending :
      (ingestion_id : List ℕ) (s : Server)
      → (delete_report_item env q ingestion_id s).1.pending ≡ s.pending
  unfolding delete_report_item retire_record
  delete_item-pending ingestion_id s = ground (arith, admit_request-world env q reports_delete s)

  item-pending :
      (ingestion_id : List ℕ) (s : Server)
      → (handle_report_item env q ingestion_id s).1.pending ≡ s.pending
  unfolding handle_report_item
  item-pending ingestion_id s =
      ground (arith, read_item-pending ingestion_id s, delete_item-pending ingestion_id s)

  capabilities-pending : (s : Server) → (handle_capabilities env q s).1.pending ≡ s.pending
  unfolding handle_capabilities capabilities check_capabilities_rate_limits
  capabilities-pending s = ground arith

  collection-pending :
      (s : Server)
      → route_of (split b'/' q.path) ≡ to_reports
      → ((handle_reports_collection env q s).1.pending ≡ s.pending) ⊎ MayBeRead env q s
  unfolding handle_reports_collection reports_collection
  collection-pending s here = elim (Bool-cases (same q.method post_method)) [
    | inr not_post ↦ inl (rw (not_post) refl)
    | inl is_post ↦ elim (Result-cases (check_headers q)) [
      | inr (e, bad) ↦ inl (rw (is_post, bad, reports_collection) refl)
      | inl (tt, good) ↦ elim (Result-cases (admit_request env q reports_write s).0) [
        | inr (e, bad) ↦ inl (
            rw (is_post, good, bad, reports_collection)
              (admit_request-world env q reports_write s).1)
        | inl (p, admitted) ↦ inr (record {
          route = here;
          method = is_post;
          headers = good;
          principal = p;
          admitted = admitted;
        })
      ]
    ]
  ]

  route-pending :
      (r : Route) (s : Server)
      → route_of (split b'/' q.path) ≡ r
      → ((dispatch_route r env q s).1.pending ≡ s.pending) ⊎ MayBeRead env q s
  unfolding dispatch_route
  route-pending to_capabilities s here = inl (capabilities-pending s)
  route-pending to_reports s here = collection-pending s here
  route-pending (to_item ingestion_id) s here = inl (item-pending ingestion_id s)
  route-pending unsupported_version s here = inl refl
  route-pending no_route s here = inl refl

  -- No byte of a body is asked for, unless the request is a `POST` to the submission of reports, its
  -- headers pass all checks, and it was admitted for a principal with the scope to write.
  pub body_unread : (s : Server) → ((app env q s).1.pending ≡ s.pending) ⊎ MayBeRead env q s
  unfolding dispatch
  body_unread s = rw (app-dispatch env q s) (route-pending (route_of (split b'/' q.path)) s refl)

read_chunks-over :
    (limit total : ℕ) (so_far : Bytes) (chunks : List Bytes)
    → limit < total + length (joined chunks)
    → total ≤ limit
    → (read_chunks limit total so_far chunks).0 ≡ reject Code.payload_too_large
unfolding read_chunks
read_chunks-over limit total so_far [] over below = ground (arith, over, below)
read_chunks-over limit total so_far (chunk ∷ chunks) over below = ground (
  arith,
  over,
  length-append chunk (joined chunks),
  read_chunks-over limit (total + length chunk) (so_far ++ chunk) chunks,
)

append_assoc : (xs ys zs : Bytes) → (xs ++ ys) ++ zs ≡ xs ++ (ys ++ zs)
append_assoc [] ys zs = refl
append_assoc (x ∷ xs) ys zs = rw (append_assoc xs ys zs) refl

append_nil : (xs : Bytes) → xs ++ [] ≡ xs
append_nil [] = refl
append_nil (x ∷ xs) = rw (append_nil xs) refl

read_chunks-within :
    (limit total : ℕ) (so_far : Bytes) (chunks : List Bytes)
    → total + length (joined chunks) ≤ limit
    → read_chunks limit total so_far chunks ≡ (ok (so_far ++ joined chunks), [])
unfolding read_chunks
read_chunks-within limit total so_far [] within = ground (arith, append_nil so_far)
read_chunks-within limit total so_far (chunk ∷ chunks) within = ground (
  arith,
  within,
  length-append chunk (joined chunks),
  append_assoc so_far chunk (joined chunks),
  read_chunks-within limit (total + length chunk) (so_far ++ chunk) chunks,
)

-- The bounded read of a body returns all bytes of the stream if they are at most the limit, and is
-- refused as too large otherwise, however the bytes are cut into chunks.
pub read_chunks_lem :
    (limit : ℕ) (chunks : List Bytes)
    → ((length (joined chunks) ≤ limit)
        × (read_chunks limit 0 [] chunks ≡ (ok (joined chunks), [])))
      ⊎ ((limit < length (joined chunks))
          × ((read_chunks limit 0 [] chunks).0 ≡ reject Code.payload_too_large))
read_chunks_lem limit chunks = elim (Bool-cases (ltb limit (length (joined chunks)))) [
  | inl over ↦ inr (
    ground (arith, over),
    read_chunks-over limit 0 [] chunks (ground (arith, over)) (omega arith),
  )
  | inr within ↦
      inl (ground (arith, within), read_chunks-within limit 0 [] chunks (ground (arith, within)))
]
