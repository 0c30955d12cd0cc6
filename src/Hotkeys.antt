-- ===== src/Hotkeys.antt =====
-- The hotkey subsystem: hotkeys/utils, hotkeys/providers, hotkeys/adapters and hotkeys/manager.
pub mod Parser
pub mod Keys
pub mod Evdev
pub mod Dbus
pub mod Adapter
pub mod Manager
