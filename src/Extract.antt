-- ===== src/Extract.antt =====
-- The payload extractors of include/sni_extractor.h and src/sni_extractor.cpp, one module each.
pub mod Tls
pub mod Http
pub mod Dns
pub mod Quic
