-- ===== src/Kernel.antt =====
-- kernel/kernel.c: the scheduler. One child for its state, one for each group of operations.
pub mod Estado
pub mod Colas
pub mod Cpus
pub mod Servicios
pub mod Planificador
pub mod Configuracion
pub mod Programas
pub mod Invariante
pub mod Conexion
pub mod Seleccion
