-- ===== src/Terminal.antt =====
-- src/terminal.c: the commands of the prompt.
pub mod Scan
pub mod Session
pub mod Tables
pub mod Queue
pub mod Command
pub mod Prompt
pub mod Names
pub mod Input
pub mod Follows
pub mod Keeps
pub mod Deletes
pub mod Schedule
pub mod Init
