-- ===== src/Zhemon.antt =====
-- src/zhemon: the monitor that reads commands from the console. `Cursor` and `Parser` are the line,
-- `Monitor` the commands and the main loop.
pub mod Cursor
pub mod Parser
pub mod Monitor
