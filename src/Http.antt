-- ===== src/Http.antt =====
-- What the program uses of Go's `net/http`: headers, whose keys are canonical, and the writer of
-- a response.
pub mod Header
pub mod Request
pub mod Writer
