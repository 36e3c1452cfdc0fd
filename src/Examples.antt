-- ===== src/Examples.antt =====
-- Tests and concrete instances of the theorems: small networks, toy codes and hashes.
mod Bba
mod Rbc
mod Acs
mod Slot
mod Inclusion
mod Calldata
mod Mempool
mod Transport
mod Node
mod Bte
mod Decision
mod Envelope
