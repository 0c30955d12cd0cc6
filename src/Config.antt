-- ===== src/Config.antt =====
-- The configuration: config/models, config/validators, config/security, and the service that
-- publishes it, internal/services/config_service.go. `Clean` is Go's path/filepath.Clean.
pub mod Model
pub mod Clean
pub mod Validate
pub mod Sane
pub mod Security
pub mod Service
pub mod Load
