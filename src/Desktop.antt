-- ===== src/Desktop.antt =====
-- desktop/shell: the desktop version, a window over the console and the server in one process. The
-- tray and its messages are in Desktop/Tray, the tip of the icon in Desktop/Tip, the wait for the
-- server in Desktop/Wait, and the start and the end of the program in Desktop/Boot.
pub mod Tray
pub mod Tip
pub mod Wait
pub mod Boot
