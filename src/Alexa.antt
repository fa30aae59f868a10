-- ===== src/Alexa.antt =====
-- alexa.go and the writing of responses in handlers.go.
pub mod Envelope
pub mod Title
pub mod Dispatch
pub mod Spoken
mod Examples
