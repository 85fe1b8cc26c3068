-- ===== src/Framebuffer/Tests.antt =====
-- The text writer with a font of one pixel for each character.
use bayos.Base.{
  ℕ, ◌≡◌, refl, subst, Option, some, List, [], ◌∷◌, arith, length, replicate, All, ok, panic,
}
use bayos.Framebuffer.{
  PixelFormat, rgb, other, FrameBufferInfo, FrameBufferWriter, RasterizedChar, Font, color,
  copy_from_slice, write_pixel, write_str, new,
}
use bayos.Framebuffer.Pixel.{IsScreen}
use bayos.Framebuffer.Text.{Fits, IsReady, write_str_lem}

abbrev dot : RasterizedChar
dot = record { raster = (200 ∷ []) ∷ []; width = 1 }

abbrev get_dot : ℕ → Option RasterizedChar
get_dot c = some dot

pub dot_rows : (c : ℕ) (r : RasterizedChar) → get_dot c ≡ some r → length r.raster ≡ 1
dot_rows c r e =
    let same : dot ≡ r = cc in subst (λ (x : RasterizedChar). length x.raster ≡ 1) same refl

pub dot_columns :
    (c : ℕ) (r : RasterizedChar) → get_dot c ≡ some r → All (λ row. length row ≡ 1) r.raster
dot_columns c r e =
    let same : dot ≡ r = cc in
    subst (λ (x : RasterizedChar). All (λ row. length row ≡ 1) x.raster) same (refl, tt)

pub dot_width : (c : ℕ) (r : RasterizedChar) → get_dot c ≡ some r → r.width ≡ 1
dot_width c r e = let same : dot ≡ r = cc in subst (λ (x : RasterizedChar). x.width ≡ 1) same refl

abbrev pub dots : Font
dots = record {
  raster_width = 1;
  raster_height = 1;
  get_raster = get_dot;
  rows = dot_rows;
  columns = dot_columns;
  width = dot_width;
  backup = dot;
  has_backup = refl;
}

abbrev info : FrameBufferInfo
info = record { width = 4; height = 4; stride = 4; bytes_per_pixel = 1; pixel_format = rgb }

abbrev buffer : List ℕ
buffer = replicate 16 7

abbrev pub writer : FrameBufferWriter
writer = record { framebuffer = replicate 16 0; info = info; x_pos = 1; y_pos = 1 }

-- Three characters: two on the first line, and one on the screen that is cleared for the third.
write_str_runs :
    write_str dots (b'a' ∷ b'b' ∷ b'c' ∷ []) writer
    ≡ ok (record writer { framebuffer = 0 ∷ 0 ∷ 0 ∷ 0 ∷ 0 ∷ 200 ∷ replicate 10 0; x_pos = 2 })
unfolding write_str bayos.Framebuffer.write_char bayos.Framebuffer.make_room
    bayos.Framebuffer.get_char_raster bayos.Framebuffer.write_rendered_char
    bayos.Framebuffer.write_rows bayos.Framebuffer.write_row write_pixel copy_from_slice
    bayos.Framebuffer.clear
write_str_runs = refl

info-IsScreen : IsScreen info 16
info-IsScreen = record {
  supported = λ e. cc;
  some_bytes = omega arith;
  few_bytes = omega arith;
  wide = omega arith;
  holds = omega arith;
  small = omega arith;
  width_small = omega arith;
  height_small = omega arith;
}

info-Fits : Fits dots info
info-Fits = record { across = omega arith; down = omega arith }

writer-IsReady : IsReady dots writer
writer-IsReady = record { screen = info-IsScreen; fits = info-Fits; x_inside = omega arith }

-- A pixel format that is not supported panics.
write_pixel_unsupported :
    write_pixel 1 1 200 (record writer { info = record info { pixel_format = other } }) ≡ panic
unfolding write_pixel
write_pixel_unsupported = refl

write_str_lem_example :
    (w' : FrameBufferWriter) × (write_str dots (b'a' ∷ b'b' ∷ b'\n' ∷ b'c' ∷ []) writer ≡ ok w')
    × IsReady dots w'
    × (w'.info ≡ info)
write_str_lem_example =
    write_str_lem dots (b'a' ∷ b'b' ∷ b'\n' ∷ b'c' ∷ []) writer writer-IsReady (omega arith)
