-- ===== src/Lib.antt =====
-- cloudops-guard audits a Kubernetes cluster or a GitLab project and takes the reports of such
-- audits in over an HTTP API. This library models that API from a parsed request down to its
-- storage, the client that uploads a report to it, and both audits.
--
-- PARTS
-- Prelude: shared names; Python texts as lists of code points (Text), dictionaries in insertion
-- order (Dict), exceptions as values (Result), the error codes of
-- src/cloudops_guard/ingestion_api/errors.py (Codes), decoded JSON (Json), strict UTF-8 (Utf8).
-- Ingestion/Models: src/cloudops_guard/ingestion/models.py, the records IngestionRecord, Tombstone,
-- PurgeClaim and TokenRecord with the validators that pydantic runs; `ingestion_record`,
-- `tombstone` and `token_record` are the constructor calls.
-- Ingestion/Metadata, Ingestion/Metadata/Lifecycle, Ingestion/Metadata/Sweep:
-- `InMemoryMetadataStore` of src/cloudops_guard/ingestion/reference.py; `Store` has its
-- dictionaries, and each method is a function of the same name. Ingestion/Metadata/Invariant states
-- what a store keeps (`IsValid`); Creation and Transitions follow it through the operations; Calls
-- has sequences of calls; Claims and Exclusive are about the purge claims, Dedup and Replay about
-- requests that are sent again, Entries about the keys of its records, Deletion about the life of
-- one record.
-- Ingestion/Blobs: `InMemoryReportBlobStore` of the same file.
-- Ingestion/StorageKeys: src/cloudops_guard/ingestion/storage_keys.py.
-- Ingestion/Tokens: src/cloudops_guard/ingestion/token_format.py.
-- Ingestion/Limits: `InMemoryAttemptLimiter` and `InMemoryRequestRateLimiter` of reference.py, and
-- src/cloudops_guard/ingestion/abuse_protection.py.
-- Ingestion/Auth: src/cloudops_guard/ingestion/authenticator.py with `InMemoryTokenStore` of
-- reference.py; Auth/Attempts and Auth/Abuse are about sequences of calls of `authenticate`.
-- Api/Coordinator: `create_ingestion` of src/cloudops_guard/ingestion_api/coordinator.py, the safe
-- write of a report to the metadata store and the blob store, which share no transaction;
-- Coordinator/Reservation and Coordinator/SafeWrite follow the bytes that it reserves.
-- Api/Lifecycle: `run_retention_sweep` and `purge_retired_ingestion` of
-- src/cloudops_guard/ingestion_api/lifecycle.py. Lifecycle/Sweep and Lifecycle/Retention follow the
-- sweep. Api states when the two stores agree (`IsConsistent`), Api/Requests has sequences of
-- requests.
-- Api/Tenants: what an operation in one tenant leaves alone.
-- Http: one run of the application of src/cloudops_guard/ingestion_api/app.py, from a parsed
-- request to its response. Http/Headers has the checks of the raw header list and bounded_body.py,
-- Http/Envelope envelope.py, Http/Validation report_validation.py and limits.py, Http/Responses
-- responses.py, Http/Handlers the handlers and Http/Dispatch the routing; a `Server` is what the
-- objects of `IngestionApiConfig` hold, with the chunks of the body that were not asked for, and
-- the `Environment` is what comes from outside. Http/Access, Http/Isolation, Http/Body and
-- Http/Routes are about which requests do what.
-- Uploader: src/cloudops_guard/uploader/. Hostname and Endpoint are endpoint.py, LocalReport
-- local_report.py and envelope.py, Timestamp and Response response.py, Transport transport.py,
-- Upload service.py with confirmation.py and credentials.py; `run_upload` returns what it did
-- outside, in order, beside its outcome. Endpoint/Sound, Upload/Order, Response/Understood,
-- Response/Written and Response/RoundTrip are about them. The client of a response is the one of
-- Http: the round trips join the two.
-- Audit/Gitlab, Audit/GitlabSettings, Audit/GitlabTimeout, Audit/GitlabImages:
-- src/cloudops_guard/checks/gitlab.py; Audit/GitlabModels: the GitLab part of
-- src/cloudops_guard/models.py; Audit/GitlabEvaluator: `evaluate_gitlab` of
-- src/cloudops_guard/engine/evaluator.py.
-- Audit/Models, Audit/ImageTag, Audit/Checks, Audit/Evaluator: src/cloudops_guard/models.py,
-- src/cloudops_guard/checks/kubernetes.py and `evaluate` of src/cloudops_guard/engine/evaluator.py.
-- Collectors: of src/cloudops_guard/collectors/gitlab.py what is taken from the answers of a GitLab
-- instance. Fields has the required fields, Metadata, Settings and Branches normalize the metadata,
-- the project and a protected branch, CiEntries, CiReferences, CiImages and CiLint the merged CI
-- configuration; Yaml is what `yaml.safe_load` makes of it. Each function is that of the same name,
-- without the leading underscore. Fields/Sanitized, CiEntries/Effective says what a job runs in;
-- CiEntries/Sanitized, CiImages/Sanitized and Settings/Sanitized follow what may be raised,
-- CiImages/Coverage what is kept, Branches/Levels the role levels, Collect is `GitLabCollector`
-- over the answers of its client, and CiLint/Audited and Collect/Audited are about the audit of
-- what was collected.
-- Tests: the theorems at concrete inputs.
--
-- MODELLING
-- A method of a store or a limiter runs under the lock of its object, so threads are sequences of
-- calls; `authenticate` takes no lock around its steps, so its calls are taken one after another,
-- without an interleaving of the steps of two; a method that may raise returns the object beside
-- its outcome. A reading of a clock is an argument: `now` at the head of a method, `later` in
-- `_expire_tombstone_if_needed`. An instant is a natural number of microseconds with a flag that
-- says whether it has an offset; instants are not bounded above as `datetime` is; the age of a
-- tombstone stops at 0, which its one comparison does not tell from a negative age, and a retention
-- period that reaches back before the year 1 raises. The methods of the in-memory stores raise only
-- what they check; a turn of `create_ingestion` and a purge take further failures as arguments, of
-- stores that may fail: `put_if_absent` and `create_or_get_received` after their work or before it,
-- `delete` before it. The report fingerprint (rfc8785 and SHA-256) and the verifier of a secret
-- (Argon2id) are arguments, and either may raise. `create_ingestion` makes at most
-- `MAX_INGESTION_ID_GENERATION_ATTEMPTS` turns, which is the recursion of `attempts`; every other
-- loop runs over a list; an `int` of a declared length is read from at most 4300 digits, Python's
-- default; `decimal` has one more unit of fuel than its number, which is enough, since each digit
-- divides by ten (Prelude/Decimal).
--
-- NOT MODELLED
-- The GitLab client with its transport, pages, base URL and token, the canonical form of a project
-- identifier, the collector of a cluster, reports and command line, hashing, and the Postgres and
-- Azure backends. Of the HTTP application: the ASGI framework, which hands over a parsed request
-- and writes the response out, the lifespan messages and the log. Of the uploader: the texts of its
-- messages and the summary that it prints. The strict JSON decoder, the pydantic models of a
-- report, `json.dumps`, the fingerprint, `isoformat`, `yaml.safe_load`, Unicode's decimal digits,
-- `urlsplit`, `ip_address` and urllib3 are arguments of the definitions that use them.
pub mod Prelude
pub mod Audit
pub mod Collectors
pub mod Ingestion
pub mod Api
pub mod Http
pub mod Uploader
pub mod Tests
