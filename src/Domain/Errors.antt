-- ===== src/Domain/Errors.antt =====
-- packages/domain/src/errors.ts: the error codes that the public interface shows, and what each says.
use scribe_drop.Common.{ℕ, Bool, true, false, List, [], ◌∷◌}

pub data PublicErrorCode : Type 0 where
  invalid_request unauthenticated forbidden not_found conflict rate_limited unsupported_media_type
        file_too_large too_many_active_jobs upload_expired source_not_found source_size_mismatch
        source_etag_changed invalid_state processing_failed artifact_not_ready internal_error :
      PublicErrorCode

pub data ErrorKind : Type 0 where
  authentication authorization conflict dependency internal not_found rate_limit validation :
      ErrorKind

pub record PublicErrorDescriptor : Type 0 where
  pub http_status : ℕ
  pub kind : ErrorKind
  pub retryable : Bool

abbrev pub public_error_codes : List PublicErrorCode
public_error_codes =
    PublicErrorCode.invalid_request ∷ PublicErrorCode.unauthenticated ∷ PublicErrorCode.forbidden
    ∷ PublicErrorCode.not_found ∷ PublicErrorCode.conflict ∷ PublicErrorCode.rate_limited
    ∷ PublicErrorCode.unsupported_media_type ∷ PublicErrorCode.file_too_large
    ∷ PublicErrorCode.too_many_active_jobs ∷ PublicErrorCode.upload_expired
    ∷ PublicErrorCode.source_not_found ∷ PublicErrorCode.source_size_mismatch
    ∷ PublicErrorCode.source_etag_changed ∷ PublicErrorCode.invalid_state
    ∷ PublicErrorCode.processing_failed ∷ PublicErrorCode.artifact_not_ready
    ∷ PublicErrorCode.internal_error ∷ []

unfoldable pub get_public_error_descriptor : PublicErrorCode → PublicErrorDescriptor
get_public_error_descriptor PublicErrorCode.artifact_not_ready = record {
  http_status = 409;
  kind = ErrorKind.conflict;
  retryable = true;
}
get_public_error_descriptor PublicErrorCode.conflict = record {
  http_status = 409;
  kind = ErrorKind.conflict;
  retryable = false;
}
get_public_error_descriptor PublicErrorCode.file_too_large = record {
  http_status = 413;
  kind = ErrorKind.validation;
  retryable = false;
}
get_public_error_descriptor PublicErrorCode.forbidden = record {
  http_status = 403;
  kind = ErrorKind.authorization;
  retryable = false;
}
get_public_error_descriptor PublicErrorCode.internal_error = record {
  http_status = 500;
  kind = ErrorKind.internal;
  retryable = true;
}
get_public_error_descriptor PublicErrorCode.invalid_request = record {
  http_status = 400;
  kind = ErrorKind.validation;
  retryable = false;
}
get_public_error_descriptor PublicErrorCode.invalid_state = record {
  http_status = 409;
  kind = ErrorKind.conflict;
  retryable = false;
}
get_public_error_descriptor PublicErrorCode.not_found = record {
  http_status = 404;
  kind = ErrorKind.not_found;
  retryable = false;
}
get_public_error_descriptor PublicErrorCode.processing_failed = record {
  http_status = 422;
  kind = ErrorKind.dependency;
  retryable = true;
}
get_public_error_descriptor PublicErrorCode.rate_limited = record {
  http_status = 429;
  kind = ErrorKind.rate_limit;
  retryable = true;
}
get_public_error_descriptor PublicErrorCode.source_etag_changed = record {
  http_status = 409;
  kind = ErrorKind.conflict;
  retryable = false;
}
get_public_error_descriptor PublicErrorCode.source_not_found = record {
  http_status = 422;
  kind = ErrorKind.dependency;
  retryable = true;
}
get_public_error_descriptor PublicErrorCode.source_size_mismatch = record {
  http_status = 422;
  kind = ErrorKind.validation;
  retryable = false;
}
get_public_error_descriptor PublicErrorCode.too_many_active_jobs = record {
  http_status = 409;
  kind = ErrorKind.conflict;
  retryable = true;
}
get_public_error_descriptor PublicErrorCode.unauthenticated = record {
  http_status = 401;
  kind = ErrorKind.authentication;
  retryable = false;
}
get_public_error_descriptor PublicErrorCode.unsupported_media_type = record {
  http_status = 415;
  kind = ErrorKind.validation;
  retryable = false;
}
get_public_error_descriptor PublicErrorCode.upload_expired = record {
  http_status = 410;
  kind = ErrorKind.conflict;
  retryable = false;
}
