-- ===== src/Wayland/Loop/Safety.antt =====
-- The event loop of src/wayland/mod.rs keeps going.
use wayland_macos.Wayland.Clipboard
