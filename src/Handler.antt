-- ===== src/Handler.antt =====
-- src/handler: what `PreHandler` asks of the HTTP services and makes of their replies.
pub mod Url
pub mod GenerateUrl
pub mod TraceRequest
pub mod TraceResponse
pub mod Person
pub mod Request
