-- ===== src/Webchannel.antt =====
-- internal/webchannel: what a session keeps, and the frames of gRPC-Web.
pub mod Session
pub mod Channel
