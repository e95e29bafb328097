-- ===== src/Gui.antt =====
-- src/gui: the controller between the window and the daemon, and the rows that the window shows.
pub mod Ring
pub mod Fifo
pub mod Controller
pub mod Borrow
pub mod Events
pub mod Model
pub mod Rows
mod Tests
