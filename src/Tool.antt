-- ===== src/Tool.antt =====
-- zsr/tool_zsr.c, the command-line tool.
pub mod Actions
pub mod Main
pub mod Program
pub mod Buffers
pub mod Release
