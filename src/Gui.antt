-- ===== src/Gui.antt =====
-- The keypad, and the dialogs that it controls: kernel/drivers/keypad.c,
-- kernel/modules/module_manager.c and modules/clock/time-dialog.c.
pub mod Keypad
pub mod TimeDialog
pub mod Manager
pub mod Keys
pub mod Choices
pub mod Selection
mod Tests
