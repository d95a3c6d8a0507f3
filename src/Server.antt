-- ===== src/Server.antt =====
-- The HTTP engine (internal/delivery/rest): the request's context, the routes with what guards
-- them, and what is sent back.
pub mod Context
pub mod Response
pub mod Engine
pub mod Laws
pub mod Tests
