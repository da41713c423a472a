-- ===== src/Cpu.antt =====
-- CPU/cpu.c: a CPU, which runs the instructions of a program for a quantum. One child for its state, one
-- for each group of operations.
pub mod Estado
pub mod Contexto
pub mod Variables
pub mod Llamadas
pub mod Servicios
pub mod Primitiva
pub mod Turno
pub mod Pila
pub mod Segura
pub mod Conexion
