-- ===== src/Screen/Lcd.antt =====
-- The two frame buffers of kernel/drivers/lcd.c, and the functions that draw into the back one.
use osext.Common.{ℕ, Bool, true, false, ltb, if◌then◌else◌, List}
use osext.Screen.Draw.{
  Buffer, framebuffer_setpixel, framebuffer_fillrect, framebuffer_write10pchar,
  framebuffer_write10pstring,
}

-- `lcd_upbase` is the register at `LCD_UPBASE`, and `front` the physical address of `framebuffer1`.
pub record Lcd : Type 0 where
  pub own_framebuffer : Bool
  pub framebuffer1 : Buffer
  pub framebuffer2 : Buffer
  pub front : ℕ
  pub lcd_upbase : ℕ
  pub old_framebuffer : ℕ

-- 320 * 240 words.
unfoldable pub clear_buffer : Buffer → Buffer
clear_buffer buff i = if ltb i 76800 then 0 else buff i

unfoldable pub claim_lcd : Lcd → Lcd
claim_lcd l = if l.own_framebuffer then l else record l {
  own_framebuffer = true;
  old_framebuffer = l.lcd_upbase;
  framebuffer1 = clear_buffer l.framebuffer1;
  framebuffer2 = clear_buffer l.framebuffer2;
  lcd_upbase = l.front;
}

unfoldable pub free_lcd : Lcd → Lcd
free_lcd l =
    if l.own_framebuffer
    then record l { own_framebuffer = false; lcd_upbase = l.old_framebuffer }
    else l

unfoldable pub blit_lcd_buffer : Lcd → Lcd
blit_lcd_buffer l =
    if l.own_framebuffer
    then record l { framebuffer1 = λ i. if ltb i 76800 then l.framebuffer2 i else l.framebuffer1 i }
    else l

-- Each of these draws by `lcd_setpixel`, which does nothing without an own frame buffer.
unfoldable pub on_back : (Buffer → Buffer) → Lcd → Lcd
on_back f l = if l.own_framebuffer then record l { framebuffer2 = f l.framebuffer2 } else l

unfoldable pub lcd_setpixel : (hw_w : Bool) → (x y r g b : ℕ) → Lcd → Lcd
lcd_setpixel hw_w x y r g b l = on_back (framebuffer_setpixel hw_w x y r g b) l

unfoldable pub lcd_fillrect : (hw_w : Bool) → (xs ys w h r g b : ℕ) → Lcd → Lcd
lcd_fillrect hw_w xs ys w h r g b l = on_back (framebuffer_fillrect hw_w xs ys w h r g b) l

unfoldable pub lcd_write10pchar :
    (hw_w : Bool) → (charset_ascii : ℕ → ℕ) → (xx yy r g b charn : ℕ) → Lcd → Lcd
lcd_write10pchar hw_w charset_ascii xx yy r g b charn l =
    on_back (framebuffer_write10pchar hw_w charset_ascii xx yy r g b charn) l

unfoldable pub lcd_write10pstring :
    (hw_w : Bool) → (charset_ascii : ℕ → ℕ) → (string : List ℕ) → (xx yy r g b : ℕ) → Lcd → Lcd
lcd_write10pstring hw_w charset_ascii string xx yy r g b l =
    on_back (framebuffer_write10pstring hw_w charset_ascii string xx yy r g b) l
