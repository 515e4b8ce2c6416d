-- ===== src/Screen.antt =====
-- kernel/drivers/lcd.c and kernel/charset/charset.c, and struct img565 of kernel/gui.
pub mod Charset
pub mod Draw
pub mod Lcd
pub mod Pixels
pub mod Shapes
pub mod Text
pub mod Image
pub mod Bmp
pub mod Decoded
mod Tests
