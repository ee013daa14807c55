-- ===== src/Programs.antt =====
-- The programs of the repository that use the two libraries.
pub mod TestMsg
pub mod TestClient
pub mod EchoServer
pub mod MulticastTest
