-- ===== src/Mux.antt =====
-- Mux (source/xray-core/common/mux): many sessions over one connection.
pub mod Frame
pub mod Sessions
