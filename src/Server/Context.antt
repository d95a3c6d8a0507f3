-- ===== src/Server/Context.antt =====
-- The context of a request (internal/observability/requestid.go) and `RequestContext`
-- (internal/delivery/rest/middleware/request_context.go).
use booking_orchestration_se.Base.{String, Option, none, some, is_empty, if◌then◌else◌}

-- The two values that a context carries, none where it was not given one.
pub record Context : Type 0 where
  pub request_id_value : Option String
  pub distributor_value : Option String

abbrev pub background : Context
background = record { request_id_value = none; distributor_value = none }

abbrev pub with_request_id : Context → String → Context
with_request_id ctx id = record ctx { request_id_value = some id }

abbrev pub with_distributor : Context → String → Context
with_distributor ctx id = record ctx { distributor_value = some id }

-- A missing value reads as the empty string.
abbrev pub text_of : Option String → String
text_of none = ""
text_of (some s) = s

unfoldable pub request_id : Context → String
request_id ctx = text_of ctx.request_id_value

unfoldable pub distributor : Context → String
distributor ctx = text_of ctx.distributor_value

-- `RequestIDPtr`.
unfoldable pub request_id_ptr : Context → Option String
request_id_ptr ctx = if is_empty (request_id ctx) then none else some (request_id ctx)

-- `RequestContext`: the header's id, or a new one, and the context that carries it.
abbrev pub chosen_id : String → String → String
chosen_id header fresh = if is_empty header then fresh else header

unfoldable pub request_context : String → String → Context → Context
request_context header fresh ctx = with_request_id ctx (chosen_id header fresh)
