-- ===== src/Server.antt =====
-- src/server.c, src/parser.c and src/api-key-generate.c: the HTTP server in front of the tables.
pub mod Text
pub mod Keys
pub mod Auth
pub mod Request
pub mod Tables
pub mod Sync
pub mod Reply
pub mod Actions
pub mod Routes
pub mod Connection
pub mod Connections
pub mod Worker
pub mod Runs
