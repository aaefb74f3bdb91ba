-- ===== src/Cmdparse.antt =====
-- internal/cmdparse: what a shell command does, for the lines that the terminal shows.
pub mod Shlex
pub mod Operands
