-- ===== src/Installer.antt =====
-- internal/installer: consent, the recorded state and the step machine that install.go runs, the
-- install's own steps, the shell's PATH block and the uninstaller's plan.
pub mod Consent
pub mod Machine
pub mod Resume
pub mod PathBlock
pub mod Deps
pub mod Plan
pub mod Steps
pub mod Install
pub mod Uninstall
mod Tests
