-- ===== src/Uploader/Transport.antt =====
-- uploader/transport.py: the reading of one HTTP response. What urllib3 gives or raises is the argument.
use Prim.Native.Nat.{◌*◌}
use cloudops_guard.Prelude.{
  ℕ, ◌+◌, ltb, leb, ◌&&◌, Option, none, some, List, [], ◌∷◌, ◌++◌, if◌then◌else◌, length,
}
use cloudops_guard.Prelude.Result.{Result, ok, err, ◌>>=◌, value_error, upload_transport_error}
use cloudops_guard.Ingestion.Blobs.{Bytes}
use cloudops_guard.Uploader.Response.{TransportResponse}

abbrev pub max_response_body_bytes : ℕ
max_response_body_bytes = 64 * 1024

-- A response of urllib3, each part as it is or as its access raises: its status, if it is an `int` and
-- not negative; its `Content-Length`, with what `int` makes of it, a negative length as 0; its chunks;
-- and how `release_conn` ends.
pub record RawResponse : Type 0 where
  pub status : Result (Option ℕ)
  pub declared_length : Result (Option (Result ℕ))
  pub chunks : List (Result Bytes)
  pub release : Result (Unit {0})

-- `UploadTransportError` with a message that names neither code nor request
abbrev pub transport_error {ℓ} : {A : Type ℓ} → Result A
transport_error = err (upload_transport_error none)

-- `_validate_status`
unfoldable pub validate_status : Option ℕ → Result ℕ
validate_status none = transport_error
validate_status (some status) =
    if leb 100 status && leb status 599 then ok status else transport_error

-- `_read_bounded`
unfoldable pub read_bounded : ℕ → ℕ → Bytes → List (Result Bytes) → Result Bytes
read_bounded max_bytes total so_far [] = ok so_far
read_bounded max_bytes total so_far (err e ∷ chunks) = err e
read_bounded max_bytes total so_far (ok chunk ∷ chunks) =
    let more = read_bounded max_bytes (total + length chunk) (so_far ++ chunk) chunks in
    if ltb max_bytes (total + length chunk) then transport_error else more

-- the check of the declared length: one that does not parse is passed over
unfoldable pub check_length : Option (Result ℕ) → Result (Unit {0})
check_length none = ok tt
check_length (some (ok n)) = if ltb max_response_body_bytes n then transport_error else ok tt
check_length (some (err value_error)) = ok tt
check_length (some (err e)) = err e

-- past the status
unfoldable pub read_body : RawResponse → ℕ → Result TransportResponse
read_body raw status =
    if leb 300 status && ltb status 400
    then transport_error
    else raw.declared_length
      >>= (λ declared. check_length declared)
      >>= (λ u. read_bounded max_response_body_bytes 0 [] raw.chunks)
      >>= (λ body. ok (record { status = status; body = body }))

-- `_read_response_body`
unfoldable pub read_response_body : RawResponse → Result TransportResponse
read_response_body raw =
    raw.status >>= (λ value. validate_status value) >>= (λ status. read_body raw status)

-- `_finalize_response`: any other exception is classified, and a failing release is one too
unfoldable pub finalize_response : RawResponse → Result TransportResponse
finalize_response raw = elim (read_response_body raw) [
  | err (upload_transport_error named) ↦ err (upload_transport_error named)
  | err e ↦ transport_error
  | ok response ↦ elim raw.release [ err e ↦ transport_error | ok u ↦ ok response ]
]

-- `Urllib3UploadTransport.post`, of what `pool.request` returned or raised
unfoldable pub post : Result RawResponse → Result TransportResponse
post (err e) = transport_error
post (ok raw) = finalize_response raw
