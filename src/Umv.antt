-- ===== src/Umv.antt =====
-- UMV: the memory server. One child for its state, one for each group of operations.
pub mod Estado
pub mod Espacio
pub mod Segmentos
pub mod Bytes
pub mod Consola
pub mod Sesion
pub mod Conexion
