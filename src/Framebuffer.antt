-- ===== src/Framebuffer.antt =====
-- The text writer of kernel/src/framebuffer.rs, which draws characters into the frame buffer.
--
-- Not code of the kernel, and so a parameter: the font of the crate noto_sans_mono_bitmap, with what
-- its documentation says of a raster, in the record `Font`. Sums and products of `usize` are taken
-- modulo 2 ^ 64.
pub mod Pixel
pub mod Tests
pub mod Text
use bayos.Base.{
  ℕ, zero, suc, ◌+◌, ◌-◌, ◌*◌, ◌/◌, ◌%◌, ◌^◌, ◌≤◌, ◌≡◌, Bool, true, false, ◌&&◌, Option, none, some,
  List, [], ◌∷◌, length, set, All, ltb, leb, ◌==◌, if◌then◌else◌, Exec, ok, panic, ◌>>=◌, ◌>>◌,
  expect, assert,
}

abbrev pub line_spacing : ℕ
line_spacing = 2

abbrev pub letter_spacing : ℕ
letter_spacing = 0

abbrev pub border_padding : ℕ
border_padding = 1

-- '�'
abbrev pub backup_char : ℕ
backup_char = 0xfffd

abbrev pub usize_add : ℕ → ℕ → ℕ
usize_add a b = (a + b) % 2 ^ 64

-- `PixelFormat` of the boot loader's interface, as far as the code looks at it.
pub data PixelFormat : Type 0 where
  rgb bgr u8 other : PixelFormat

-- `FrameBufferInfo`
pub record FrameBufferInfo : Type 0 where
  pub width : ℕ
  pub height : ℕ
  pub stride : ℕ
  pub bytes_per_pixel : ℕ
  pub pixel_format : PixelFormat

-- `RasterizedChar`: rows of intensities.
pub record RasterizedChar : Type 0 where
  pub raster : List (List ℕ)
  pub width : ℕ

-- The font in the weight and the height that the code asks for: `CHAR_RASTER_WIDTH`, the height's
-- `val()`, and `get_raster`. A raster has as many rows as the height, each as wide as the font's
-- characters are.
pub record Font : Type 0 where
  pub raster_width : ℕ
  pub raster_height : ℕ
  pub get_raster : ℕ → Option RasterizedChar
  pub rows : (c : ℕ) (r : RasterizedChar) → get_raster c ≡ some r → length r.raster ≡ raster_height
  pub columns :
      (c : ℕ) (r : RasterizedChar)
      → get_raster c ≡ some r
      → All (λ row. length row ≡ raster_width) r.raster
  pub width : (c : ℕ) (r : RasterizedChar) → get_raster c ≡ some r → r.width ≡ raster_width
  pub backup : RasterizedChar
  pub has_backup : get_raster backup_char ≡ some backup

-- `FrameBufferWriter`
pub record FrameBufferWriter : Type 0 where
  pub framebuffer : List ℕ
  pub info : FrameBufferInfo
  pub x_pos : ℕ
  pub y_pos : ℕ

-- `self.framebuffer.fill(0)`
abbrev pub fill : List ℕ → ℕ → List ℕ
fill [] b = []
fill (x ∷ xs) b = b ∷ fill xs b

unfoldable pub clear : FrameBufferWriter → FrameBufferWriter
clear w = record w {
  framebuffer = fill w.framebuffer 0;
  x_pos = border_padding;
  y_pos = border_padding;
}

-- `FrameBufferWriter::new`
unfoldable pub new : List ℕ → FrameBufferInfo → FrameBufferWriter
unfolding clear
new framebuffer info =
    clear (record { framebuffer = framebuffer; info = info; x_pos = 0; y_pos = 0 })

unfoldable pub carriage_return : FrameBufferWriter → FrameBufferWriter
carriage_return w = record w { x_pos = border_padding }

-- The color of a pixel; `none` where the pixel format is not supported.
abbrev pub color : PixelFormat → ℕ → Option (List ℕ)
color rgb i = some (i ∷ i ∷ i / 2 ∷ 0 ∷ [])
color bgr i = some (i / 2 ∷ i ∷ i ∷ 0 ∷ [])
color u8 i = some ((if ltb 200 i then 0xf else 0) ∷ 0 ∷ 0 ∷ 0 ∷ [])
color other i = none

-- `framebuffer[at..at + n].copy_from_slice(&color[..n])`, in range.
unfoldable pub copy_from_slice : ℕ → ℕ → List ℕ → List ℕ → List ℕ
copy_from_slice zero at color framebuffer = framebuffer
copy_from_slice (suc n) at [] framebuffer = framebuffer
copy_from_slice (suc n) at (b ∷ color) framebuffer =
    copy_from_slice n (at + 1) color (set framebuffer at b)

unfoldable pub write_pixel : ℕ → ℕ → ℕ → FrameBufferWriter → Exec FrameBufferWriter
write_pixel x y intensity w = do
  bytes ← expect (color w.info.pixel_format intensity)
  let n = w.info.bytes_per_pixel
  let byte_offset = ((y * w.info.stride + x) * n) % 2 ^ 64
  let end = usize_add byte_offset n
  assert (leb byte_offset end && leb end (length w.framebuffer))
  assert (leb n (length bytes))
  assert (ltb byte_offset (length w.framebuffer))
  ok (record w { framebuffer = copy_from_slice n byte_offset bytes w.framebuffer })

-- The inner loop, from column `x` of the character on.
unfoldable pub write_row : ℕ → ℕ → List ℕ → FrameBufferWriter → Exec FrameBufferWriter
write_row x y [] w = ok w
write_row x y (byte ∷ row) w = do
  w' ← write_pixel (usize_add w.x_pos x) (usize_add w.y_pos y) byte w
  write_row (x + 1) y row w'

-- The outer loop, from row `y` of the character on.
unfoldable pub write_rows : ℕ → List (List ℕ) → FrameBufferWriter → Exec FrameBufferWriter
write_rows y [] w = ok w
write_rows y (row ∷ rows) w = do w' ← write_row 0 y row w; write_rows (y + 1) rows w'

unfoldable pub write_rendered_char : RasterizedChar → FrameBufferWriter → Exec FrameBufferWriter
write_rendered_char r w = do
  w' ← write_rows 0 r.raster w
  ok (record w' { x_pos = usize_add w'.x_pos (usize_add r.width letter_spacing) })

module _ (font : Font) where
  unfoldable pub newline : FrameBufferWriter → FrameBufferWriter
  unfolding carriage_return
  newline w =
      carriage_return
        (record w { y_pos = usize_add w.y_pos (usize_add font.raster_height line_spacing) })

  unfoldable pub get_char_raster : ℕ → Exec RasterizedChar
  get_char_raster c = elim (font.get_raster c) [
    | some r ↦ ok r
    | none ↦ expect (font.get_raster backup_char)
  ]

  -- The writer once there is room for a character: on a new line, or on a screen that is cleared.
  unfoldable pub make_room : FrameBufferWriter → FrameBufferWriter
  unfolding newline clear
  make_room w =
      let new_xpos = usize_add w.x_pos font.raster_width in
      let w1 = if leb w.info.width new_xpos then newline w else w in
      let new_ypos = usize_add (usize_add w1.y_pos font.raster_height) border_padding in
      if leb w1.info.height new_ypos then clear w1 else w1

  unfoldable pub write_char : ℕ → FrameBufferWriter → Exec FrameBufferWriter
  write_char c w =
      if c == b'\n'
      then ok (newline w)
      else if c == b'\r'
      then ok (carriage_return w)
      else (do r ← get_char_raster c; write_rendered_char r (make_room w))

  -- `write_str` over the characters of a text.
  unfoldable pub write_str : List ℕ → FrameBufferWriter → Exec FrameBufferWriter
  write_str [] w = ok w
  write_str (c ∷ cs) w = do w' ← write_char c w; write_str cs w'
