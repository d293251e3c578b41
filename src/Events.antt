-- ===== src/Events.antt =====
-- events/events.go: envelopes become maps of fields.
pub mod Envelope
pub mod Convert
pub mod Annotate
pub mod Select
pub mod Extra
