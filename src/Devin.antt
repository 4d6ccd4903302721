-- ===== src/Devin.antt =====
-- app/devin: the transport, the session client's requests and the translation of its answers.
pub mod Transport
pub mod Answers
pub mod Client
