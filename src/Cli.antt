-- ===== src/Cli.antt =====
-- src/cli/common.rs and the options of src/command.rs that it checks.
pub mod Options
pub mod Counting
pub mod Valid
pub mod Values
mod Tests
