-- ===== src/Edhoc/Handshake.antt =====
-- edhoc/initiator.go and edhoc/responder.go: an initiator and a responder that hand each other their
-- messages.
pub mod Steps
pub mod Accepted
pub mod Agreement
pub mod Start
pub mod Negotiation
