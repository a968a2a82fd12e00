-- ===== src/Shell.antt =====
-- shlab-handout/tsh.c: the tiny shell, its job list, its parser, its commands and its signals.
pub mod Jobs
pub mod Parse
pub mod Signals
pub mod Eval
pub mod Main
pub mod Groups
