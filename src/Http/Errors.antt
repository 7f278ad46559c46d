-- ===== src/Http/Errors.antt =====
-- nestjs-project/src/common/exceptions/domain.exception.ts and the two filters of
-- nestjs-project/src/common/filters.
use videum_video_platform.Common.{
  ℕ, ◌≤◌, ◌<◌, ◌≡◌, ◌≢◌, refl, List, [], ◌∷◌, Option, none, some, Text, codes, text_eq, Exception,
  email_already_exists, invalid_credentials, email_not_confirmed, invalid_token, token_expired,
  token_reuse_detected, video_not_found, not_video_owner, upload_already_finalized,
  upload_object_missing, upload_size_mismatch, video_not_ready, internal, if◌then◌else◌, arith,
}

-- The arguments of a subclass's `super(…)`; what is no `DomainException` has none.
pub record DomainException : Type 0 where
  pub error_code : Text
  pub http_status : ℕ
  pub message : Text

unfoldable pub domain_exception : Exception → Option DomainException
domain_exception email_already_exists = some (record {
  error_code = codes "EMAIL_ALREADY_EXISTS";
  http_status = 409;
  message = codes "Email is already registered";
})
domain_exception invalid_credentials = some (record {
  error_code = codes "INVALID_CREDENTIALS";
  http_status = 401;
  message = codes "Invalid email or password";
})
domain_exception email_not_confirmed = some (record {
  error_code = codes "EMAIL_NOT_CONFIRMED";
  http_status = 403;
  message = codes "Email address has not been confirmed";
})
domain_exception invalid_token = some (record {
  error_code = codes "INVALID_TOKEN";
  http_status = 401;
  message = codes "Token is invalid";
})
domain_exception token_expired = some (record {
  error_code = codes "TOKEN_EXPIRED";
  http_status = 401;
  message = codes "Token has expired";
})
domain_exception token_reuse_detected = some (record {
  error_code = codes "TOKEN_REUSE_DETECTED";
  http_status = 401;
  message = codes "Token reuse detected — all sessions revoked";
})
domain_exception video_not_found = some (record {
  error_code = codes "VIDEO_NOT_FOUND";
  http_status = 404;
  message = codes "Video not found";
})
domain_exception not_video_owner = some (record {
  error_code = codes "NOT_VIDEO_OWNER";
  http_status = 403;
  message = codes "You are not the owner of this video";
})
domain_exception upload_already_finalized = some (record {
  error_code = codes "UPLOAD_ALREADY_FINALIZED";
  http_status = 409;
  message = codes "Upload has already been finalized";
})
domain_exception upload_object_missing = some (record {
  error_code = codes "UPLOAD_OBJECT_MISSING";
  http_status = 422;
  message = codes "Uploaded object was not found in storage";
})
domain_exception upload_size_mismatch = some (record {
  error_code = codes "UPLOAD_SIZE_MISMATCH";
  http_status = 422;
  message = codes "Uploaded size does not match the declared size";
})
domain_exception video_not_ready = some (record {
  error_code = codes "VIDEO_NOT_READY";
  http_status = 409;
  message = codes "Video is not ready for playback";
})
domain_exception internal = none

-- `ApiErrorEnvelope`: a message is a list where the validation gives several.
pub data Message : Type 0 where
  one : Text → Message
  many : List Text → Message

pub record ApiErrorEnvelope : Type 0 where
  pub status_code : ℕ
  pub error : Text
  pub message : Message

abbrev pub envelope_of : Option DomainException → Option ApiErrorEnvelope
envelope_of none = none
envelope_of (some e) =
    some (record { status_code = e.http_status; error = e.error_code; message = one e.message })

-- `DomainExceptionFilter.catch`; the filter does not catch other errors.
unfoldable pub filter_domain_exception : Exception → Option ApiErrorEnvelope
unfolding domain_exception
filter_domain_exception e = envelope_of (domain_exception e)

abbrev pub as_list : Message → List Text
as_list (one text) = text ∷ []
as_list (many texts) = texts

-- `ValidationExceptionFilter.catch`, from the message of the `BadRequestException`.
unfoldable pub filter_validation_exception : Message → ApiErrorEnvelope
filter_validation_exception raw = record {
  status_code = 400;
  error = codes "VALIDATION_ERROR";
  message = many (as_list raw);
}

-- The error that a client reads from a code.
abbrev pub exception_of_code : Text → Exception
exception_of_code code =
    if text_eq code (codes "EMAIL_ALREADY_EXISTS")
    then email_already_exists
    else if text_eq code (codes "INVALID_CREDENTIALS")
    then invalid_credentials
    else if text_eq code (codes "EMAIL_NOT_CONFIRMED")
    then email_not_confirmed
    else if text_eq code (codes "INVALID_TOKEN")
    then invalid_token
    else if text_eq code (codes "TOKEN_EXPIRED")
    then token_expired
    else if text_eq code (codes "TOKEN_REUSE_DETECTED")
    then token_reuse_detected
    else if text_eq code (codes "VIDEO_NOT_FOUND")
    then video_not_found
    else if text_eq code (codes "NOT_VIDEO_OWNER")
    then not_video_owner
    else if text_eq code (codes "UPLOAD_ALREADY_FINALIZED")
    then upload_already_finalized
    else if text_eq code (codes "UPLOAD_OBJECT_MISSING")
    then upload_object_missing
    else if text_eq code (codes "UPLOAD_SIZE_MISMATCH")
    then upload_size_mismatch
    else video_not_ready

-- Every error of the domain is answered with a client error, from whose code it can be read back.
pub exception_of_code-filter :
    (e : Exception)
    → e ≢ internal
    → (reply : ApiErrorEnvelope) × (filter_domain_exception e ≡ some reply)
      × (exception_of_code reply.error ≡ e)
      × (400 ≤ reply.status_code)
      × (reply.status_code < 500)
unfolding filter_domain_exception text_eq
exception_of_code-filter internal other = absurd (other refl)
exception_of_code-filter _ other = (_, refl, refl, omega arith, omega arith)
