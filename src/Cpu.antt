-- ===== src/Cpu.antt =====
-- cpu/: descriptor tables, model-specific registers and the task state segment.
pub mod Descriptors
pub mod Interrupts
pub mod Registers
mod Tests
