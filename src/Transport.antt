-- ===== src/Transport.antt =====
-- The transport of the node (bloc-node/internal/app): the frames of a stream, and envelopes.
pub mod Frame
pub mod Envelope
