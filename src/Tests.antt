-- ===== src/Tests.antt =====
-- Concrete runs: one instance of each result that has parameters.
pub mod HotkeyRuns
pub mod ConfigRuns
pub mod SocketRuns
pub mod ServiceRuns
pub mod ChangeRuns
mod IpcRuns
mod FileRuns
mod DesktopRuns
mod UiRuns
