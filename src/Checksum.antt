-- ===== src/Checksum.antt =====
-- The two checksums: Fletcher's over a link state advertisement, and the Internet checksum over
-- packets.
pub mod Fletcher
pub mod Internet
