-- ===== src/Command.antt =====
-- COMMAND.COM, the command processor, firmware/src/main/dos/command.c.
pub mod Env
pub mod Redirect
pub mod Text
pub mod Batch
pub mod Percent
pub mod Set
pub mod Startup
pub mod Parse
