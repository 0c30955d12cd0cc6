-- ===== src/Services.antt =====
-- internal/services: the output and audio services, and the actions that every surface shares. The
-- services are wired with each other, as internal/services/factory.go leaves them.
pub mod Io
pub mod Audio
pub mod Hotkeys
pub mod Startup
pub mod Actions
