-- ===== src/Http.antt =====
-- src/http: the HTTP request, its parser, and the response.
pub mod Text
pub mod Request
pub mod Lines
pub mod Post
pub mod Context
pub mod Matching
pub mod Parse
pub mod RoundTrip
pub mod Response
pub mod Printing
mod Tests
