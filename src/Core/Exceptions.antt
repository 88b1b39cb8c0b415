-- ===== src/Core/Exceptions.antt =====
-- backend/app/core/exceptions.py: what a service raises, and the HTTP status that the registered handler
-- answers with.
use book_club.Prelude.{ℕ}

-- The `code` of an error, one constructor for each string that the modelled services raise; `not_permitted`
-- is "PERMISSION_DENIED".
pub data Code : Type 0 where
  user_book_not_found active_session_exists session_not_found session_already_ended : Code
  session_too_short manual_session_out_of_range heatmap_range_invalid : Code
  book_not_found book_already_in_library : Code
  invalid_product invalid_receipt purchase_not_found : Code
  challenge_not_found challenge_ended already_joined not_participant challenge_expired : Code
  badge_not_owned badge_not_found : Code
  club_not_found club_full club_not_public owner_cannot_leave not_member not_permitted : Code
  event_not_found message_not_found room_not_found pro_required : Code
  presenter_not_member invalid_status_transition : Code
  agenda_not_found already_published topic_not_found invalid_topic_set agenda_ai_unavailable : Code
  comment_not_found max_reply_depth_exceeded : Code
  content_empty content_too_long too_many_images image_key_forbidden post_not_found : Code
  unsupported_content_type comment_depth_exceeded : Code
  quote_empty quote_too_long unsupported_visibility highlight_not_found : Code
  unsupported_emoji feed_event_not_found body_empty body_too_long : Code
  follow_self follow_blocked follow_already_exists : Code
  block_self block_already_exists report_duplicate : Code

-- The subclasses of `DomainError`.
pub data ErrorClass : Type 0 where
  not_found conflict permission_denied auth external_service rate_limited not_configured :
      ErrorClass

abbrev pub status_code : ErrorClass → ℕ
status_code not_found = 404
status_code conflict = 409
status_code permission_denied = 403
status_code auth = 401
status_code external_service = 502
status_code rate_limited = 429
status_code not_configured = 503

-- An exception that leaves a service: a `DomainError`, a class of a service's own that carries a status
-- and a code but is no `DomainError`, what SQLAlchemy raises, or Python.
pub data Raised : Type 0 where
  domain_error : ErrorClass → Code → Raised
  service_error : ℕ → Code → Raised
  integrity_error : Raised
  multiple_results_found : Raised
  -- RuntimeError
  runtime_error : Raised

-- The answer of the application: only `DomainError` has a handler, anything else is a server error.
unfoldable pub http_status : Raised → ℕ
http_status (domain_error c code) = status_code c
http_status (service_error status code) = 500
http_status integrity_error = 500
http_status multiple_results_found = 500
http_status runtime_error = 500

-- NotFoundError(…, code=…), ConflictError(…, code=…) and PermissionDeniedError(…, code=…)
abbrev pub not_found_error : Code → Raised
not_found_error code = domain_error not_found code

abbrev pub conflict_error : Code → Raised
conflict_error code = domain_error conflict code

abbrev pub permission_denied_error : Code → Raised
permission_denied_error code = domain_error permission_denied code
