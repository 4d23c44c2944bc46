-- ===== src/Wayland.antt =====
-- The Wayland side of the compositor: src/wayland/.
pub mod Types
pub mod Shm
pub mod Positioner
pub mod Core
pub mod Windows
pub mod Subsurface
pub mod Layer
pub mod Commit
pub mod Input
pub mod Color
pub mod Primary
pub mod Clipboard
pub mod Loop
pub mod Icons
pub mod Requests
pub mod Steps
pub mod Links
pub mod Quiet
pub mod Safety
pub mod Tests
