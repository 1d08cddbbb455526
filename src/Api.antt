-- ===== src/Api.antt =====
-- crates/santi-api/src: the surface of the services (surface/error.rs and this module's children) and
-- the replies that the protocol's clients follow.
pub mod Session
pub mod Replies
pub mod Log
pub mod Replayed
pub mod Stim
pub mod Operations
pub mod Submissions
pub mod Fresh
pub mod Later
pub mod Followed
pub mod Concluded
pub mod Submitted
pub mod StimExamples
pub mod Examples
use santi.Base.{ℕ, String}

-- surface/error.rs
pub data ApiError : Type 0 where
  not_found conflict validation unsupported bad_request internal : String → ApiError

-- schema/common.rs
pub record ErrorResponse : Type 0 where
  pub code : String
  pub message : String

-- The status and the body.
unfoldable pub into_error_response : ApiError → ℕ × ErrorResponse
into_error_response (ApiError.not_found m) = (404, record { code = "not_found"; message = m })
into_error_response (ApiError.conflict m) = (409, record { code = "conflict"; message = m })
into_error_response (ApiError.validation m) =
    (400, record { code = "validation_error"; message = m })
into_error_response (ApiError.unsupported m) =
    (501, record { code = "not_implemented"; message = m })
into_error_response (ApiError.bad_request m) = (400, record { code = "bad_request"; message = m })
into_error_response (ApiError.internal m) = (500, record { code = "internal_error"; message = m })
