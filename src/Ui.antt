-- ===== src/Ui.antt =====
-- internal/ui, internal/notify and internal/services/ui_service.go: what the user sees.
pub mod Languages
pub mod Items
pub mod Tray
pub mod Clicks
pub mod Window
pub mod Notify
pub mod Service
