-- ===== src/Server.antt =====
-- gateway/internal/server, gateway/internal/apierr and gateway/internal/httpx: what stands between a request and the
-- components: the errors, the credentials and the pages of a list.
pub mod ApiErrors
pub mod Answers
pub mod Auth
pub mod Paging
pub mod Admission
pub mod Completions
mod Tests
