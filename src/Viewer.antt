-- ===== src/Viewer.antt =====
-- viewer/desktop/src: the viewer for desktops.
pub mod Receive
