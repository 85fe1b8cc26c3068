-- ===== src/Framebuffer/Pixel.antt =====
-- `write_pixel`: which bytes a pixel is, and that they are in the frame buffer.
use bayos.Base.{
  ℕ, zero, suc, ◌+◌, ◌*◌, ◌%◌, ◌^◌, ◌≤◌, ◌<◌, ◌≡◌, ◌≢◌, refl, ◌∙◌, true, some, List, [], ◌∷◌, arith,
  length, length-set, set, ok, leb, ltb,
}
use bayos.Framebuffer.{
  PixelFormat, rgb, bgr, u8, other, FrameBufferInfo, FrameBufferWriter, color, copy_from_slice,
  write_pixel,
}

-- The frame buffer holds the screen that its description promises: a supported pixel format of one to
-- four bytes, lines at least as long as the screen is wide, and as many of them as it is high.
pub record IsScreen (info : FrameBufferInfo) (size : ℕ) : Type 0 where
  pub supported : info.pixel_format ≢ other
  pub some_bytes : 1 ≤ info.bytes_per_pixel
  pub few_bytes : info.bytes_per_pixel ≤ 4
  pub wide : info.width ≤ info.stride
  pub holds : info.height * info.stride * info.bytes_per_pixel ≤ size
  pub small : size < 2 ^ 62
  pub width_small : info.width < 2 ^ 62
  pub height_small : info.height < 2 ^ 62

-- Only bytes of the frame buffer differ.
pub record SameButPixels (w w' : FrameBufferWriter) : Type 0 where
  pub info : w'.info ≡ w.info
  pub size : length w'.framebuffer ≡ length w.framebuffer
  pub x_pos : w'.x_pos ≡ w.x_pos
  pub y_pos : w'.y_pos ≡ w.y_pos

pub SameButPixels-refl : (w : FrameBufferWriter) → SameButPixels w w
SameButPixels-refl w = record { info = refl; size = refl; x_pos = refl; y_pos = refl }

pub SameButPixels-trans :
    (u v w : FrameBufferWriter) → SameButPixels u v → SameButPixels v w → SameButPixels u w
SameButPixels-trans u v w p q = record {
  info = q.info ∙ p.info;
  size = q.size ∙ p.size;
  x_pos = q.x_pos ∙ p.x_pos;
  y_pos = q.y_pos ∙ p.y_pos;
}

color_total :
    (f : PixelFormat) (i : ℕ)
    → f ≢ other
    → (bytes : List ℕ) × (color f i ≡ some bytes) × (length bytes ≡ 4)
color_total rgb i h = (_, refl, refl)
color_total bgr i h = (_, refl, refl)
color_total u8 i h = (_, refl, refl)
color_total other i h = absurd (h refl)

length-copy_from_slice :
    (n at : ℕ) (bytes buffer : List ℕ) → length (copy_from_slice n at bytes buffer) ≡ length buffer
unfolding copy_from_slice
length-copy_from_slice zero at bytes buffer = refl
length-copy_from_slice (suc n) at [] buffer = refl
length-copy_from_slice (suc n) at (b ∷ bytes) buffer =
    length-copy_from_slice n (at + 1) bytes (set buffer at b) ∙ length-set buffer at b

index_lt : (y h x s : ℕ) → y < h → x < s → y * s + x < h * s
index_lt y h x s p q = grind arith

scaled : (k m n : ℕ) → k < m → k * n + n ≤ m * n
scaled k m n h = grind arith

-- The bytes of a pixel of the screen end in the frame buffer.
pixel_inside :
    (info : FrameBufferInfo) (size x y : ℕ)
    → IsScreen info size
    → x < info.width
    → y < info.height
    → (y * info.stride + x) * info.bytes_per_pixel + info.bytes_per_pixel ≤ size
pixel_inside info size x y s hx hy =
    let place = index_lt y info.height x info.stride hy (omega (arith, s.wide)) in
    omega (
      arith,
      s.holds,
      scaled (y * info.stride + x) (info.height * info.stride) info.bytes_per_pixel place,
    )

-- For a pixel of a screen that the frame buffer holds, in a format with colors, `write_pixel` does
-- not panic: it writes the bytes of the color at the pixel's byte offset, which does not wrap, and
-- changes nothing else of the writer.
write_pixel_lem :
    (x y i : ℕ) (w : FrameBufferWriter)
    → IsScreen w.info (length w.framebuffer)
    → x < w.info.width
    → y < w.info.height
    → (bytes : List ℕ) × (color w.info.pixel_format i ≡ some bytes)
      × (write_pixel x y i w
          ≡ ok (record w {
            framebuffer =
                copy_from_slice w.info.bytes_per_pixel
                  ((y * w.info.stride + x) * w.info.bytes_per_pixel)
                  bytes
                  w.framebuffer;
          }))
unfolding write_pixel
write_pixel_lem x y i w s hx hy =
    let n = w.info.bytes_per_pixel in
    let offset = (y * w.info.stride + x) * n in
    let inside = pixel_inside w.info (length w.framebuffer) x y s hx hy in
    let (bytes, colored, four) = color_total w.info.pixel_format i s.supported in
    let whole : offset % 2 ^ 64 ≡ offset = omega (arith, s.small, inside) in
    let sum : (offset + n) % 2 ^ 64 ≡ offset + n = omega (arith, s.small, inside) in
    let ordered : leb offset (offset + n) ≡ true = ground arith in
    let ends : leb (offset + n) (length w.framebuffer) ≡ true = ground (arith, inside) in
    let enough : leb n (length bytes) ≡ true = ground (arith, s.few_bytes, four) in
    let starts : ltb offset (length w.framebuffer) ≡ true = ground (arith, inside, s.some_bytes) in
    (
      bytes,
      colored,
      rw (colored, write_pixel) (rw whole (rw sum (rw (ordered, ends, enough, starts)))),
    )

pub write_pixel-Same :
    (x y i : ℕ) (w : FrameBufferWriter)
    → IsScreen w.info (length w.framebuffer)
    → x < w.info.width
    → y < w.info.height
    → (w' : FrameBufferWriter) × (write_pixel x y i w ≡ ok w') × SameButPixels w w'
write_pixel-Same x y i w s hx hy =
    let n = w.info.bytes_per_pixel in
    let (bytes, _, run) = write_pixel_lem x y i w s hx hy in
    (
      _,
      run,
      record {
        info = refl;
        size = length-copy_from_slice n ((y * w.info.stride + x) * n) bytes w.framebuffer;
        x_pos = refl;
        y_pos = refl;
      },
    )
