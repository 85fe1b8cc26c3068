-- ===== src/Framebuffer/Text.antt =====
-- `write_char` and `write_str`: every character is drawn on the screen.
use bayos.Base.{
  ℕ, suc, ◌+◌, ◌*◌, ◌^◌, ◌≤◌, ◌<◌, ◌≡◌, refl, sym, ap, subst, ◌∙◌, inl, inr, List, [], ◌∷◌, arith,
  All, length, ok, ◌>>=◌, leb, ◌==◌, Bool-cases, Option-cases, if◌then◌else◌,
}
use bayos.Framebuffer.{
  FrameBufferInfo, FrameBufferWriter, Font, RasterizedChar, backup_char, border_padding,
  line_spacing, usize_add, write_row, write_rows, write_rendered_char, fill, clear, carriage_return,
  newline, get_char_raster, make_room, write_char, write_str, new,
}
use bayos.Framebuffer.Pixel.{
  IsScreen, SameButPixels, SameButPixels-refl, SameButPixels-trans, write_pixel-Same,
}

IsScreen-Same :
    (w w' : FrameBufferWriter)
    → SameButPixels w w'
    → IsScreen w.info (length w.framebuffer)
    → IsScreen w'.info (length w'.framebuffer)
IsScreen-Same w w' same s =
    subst (λ i. IsScreen i (length w'.framebuffer)) (sym same.info)
      (subst (IsScreen w.info) (sym same.size) s)

write_row-Same :
    (x y : ℕ) (row : List ℕ) (w : FrameBufferWriter)
    → IsScreen w.info (length w.framebuffer)
    → w.x_pos + x + length row ≤ w.info.width
    → w.y_pos + y < w.info.height
    → (w' : FrameBufferWriter) × (write_row x y row w ≡ ok w') × SameButPixels w w'
unfolding write_row
write_row-Same x y [] w s hx hy = (w, refl, SameButPixels-refl w)
write_row-Same x y (byte ∷ row) w s hx hy =
    let column : usize_add w.x_pos x ≡ w.x_pos + x = omega (arith, s.width_small) in
    let line : usize_add w.y_pos y ≡ w.y_pos + y = omega (arith, s.height_small) in
    let (w1, run, same) =
      write_pixel-Same (usize_add w.x_pos x) (usize_add w.y_pos y) byte w s (omega arith)
        (omega arith) in
    let width' = ap (λ (i : FrameBufferInfo). i.width) same.info in
    let height' = ap (λ (i : FrameBufferInfo). i.height) same.info in
    let (w2, rest, same') =
      write_row-Same (x + 1) y row w1 (IsScreen-Same w w1 same s)
        (omega (arith, width', same.x_pos)) (omega (arith, height', same.y_pos)) in
    (w2, rw run rest, SameButPixels-trans w w1 w2 same same')

write_rows-Same :
    (y width : ℕ) (rows : List (List ℕ)) (w : FrameBufferWriter)
    → IsScreen w.info (length w.framebuffer)
    → All (λ row. length row ≡ width) rows
    → w.x_pos + width ≤ w.info.width
    → w.y_pos + y + length rows ≤ w.info.height
    → (w' : FrameBufferWriter) × (write_rows y rows w ≡ ok w') × SameButPixels w w'
unfolding write_rows
write_rows-Same y width [] w s all hx hy = (w, refl, SameButPixels-refl w)
write_rows-Same y width (row ∷ rows) w s all hx hy =
    let (w1, run, same) = write_row-Same 0 y row w s (omega (arith, all.0)) (omega arith) in
    let width' = ap (λ (i : FrameBufferInfo). i.width) same.info in
    let height' = ap (λ (i : FrameBufferInfo). i.height) same.info in
    let (w2, rest, same') =
      write_rows-Same (y + 1) width rows w1 (IsScreen-Same w w1 same s) all.1
        (omega (arith, width', same.x_pos)) (omega (arith, height', same.y_pos)) in
    (w2, rw run rest, SameButPixels-trans w w1 w2 same same')

length-fill : (buffer : List ℕ) (b : ℕ) → length (fill buffer b) ≡ length buffer
length-fill [] b = refl
length-fill (x ∷ xs) b = ap suc (length-fill xs b)

module _ (font : Font) where
  -- The screen has room for one character inside its padding.
  pub record Fits (info : FrameBufferInfo) : Type 0 where
    pub across : border_padding + font.raster_width ≤ info.width
    pub down : border_padding + font.raster_height ≤ info.height

  -- The writer's screen is as described, and the next character starts on it or at its right edge.
  pub record IsReady (w : FrameBufferWriter) : Type 0 where
    pub screen : IsScreen w.info (length w.framebuffer)
    pub fits : Fits w.info
    pub x_inside : w.x_pos ≤ w.info.width

  -- What is left alone by drawing, and how far down the next character may be.
  pub record Drawn (w w' : FrameBufferWriter) : Type 0 where
    pub is_ready : IsReady w'
    pub info : w'.info ≡ w.info
    pub down : w'.y_pos ≤ w.y_pos + font.raster_height + line_spacing

  abbrev Placed : FrameBufferWriter → FrameBufferWriter → Type 0
  Placed w w' =
      IsScreen w'.info (length w'.framebuffer)
      × (w'.x_pos + font.raster_width ≤ w'.info.width)
      × (w'.y_pos + font.raster_height ≤ w'.info.height)
      × (w'.info ≡ w.info)
      × (w'.y_pos ≤ w.y_pos + font.raster_height + line_spacing)

  abbrev bottom : FrameBufferWriter → ℕ
  bottom w = usize_add (usize_add w.y_pos font.raster_height) border_padding

  clear_if_low :
      (w w1 : FrameBufferWriter)
      → w1.info ≡ w.info
      → IsScreen w1.info (length w1.framebuffer)
      → Fits w1.info
      → w1.x_pos + font.raster_width ≤ w1.info.width
      → w1.y_pos ≤ w.y_pos + font.raster_height + line_spacing
      → w.y_pos < 2 ^ 62
      → Placed w (if leb w1.info.height (bottom w1) then clear w1 else w1)
  unfolding clear
  clear_if_low w w1 same s fits across down low =
      elim (Bool-cases (leb w1.info.height (bottom w1))) [
        | inl full ↦ rw full (
          subst (IsScreen w1.info) (sym (length-fill w1.framebuffer 0)) s,
          fits.across,
          fits.down,
          same,
          omega arith,
        )
        | inr room ↦ rw room (s, across, ground (arith, s.height_small, fits.down), same, down)
      ]

  -- After `make_room` the character fits on the screen, where the writer stands.
  make_room_lem :
      (w : FrameBufferWriter) → IsReady w → w.y_pos < 2 ^ 62 → Placed w (make_room font w)
  unfolding make_room
  make_room_lem w r low =
      let line : usize_add w.y_pos (usize_add font.raster_height line_spacing)
          ≡ w.y_pos + font.raster_height + line_spacing =
        omega (arith, r.screen.height_small, r.fits.down) in
      elim (Bool-cases (leb w.info.width (usize_add w.x_pos font.raster_width))) [
        | inl wrap ↦ rw wrap (
            clear_if_low w (newline font w) refl r.screen r.fits r.fits.across (omega (arith, line))
              low)
        | inr fits ↦ rw fits (
            clear_if_low w w refl r.screen r.fits
              (ground (arith, r.screen.width_small, r.fits.across, r.x_inside)) (omega arith) low)
      ]

  get_char_raster_lem :
      (c : ℕ)
      → (r : RasterizedChar) × (get_char_raster font c ≡ ok r)
        × (length r.raster ≡ font.raster_height)
        × All (λ row. length row ≡ font.raster_width) r.raster
        × (r.width ≡ font.raster_width)
  unfolding get_char_raster
  get_char_raster_lem c = elim (Option-cases (font.get_raster c)) [
    | inl missing ↦
        let e = font.has_backup in
        (
          font.backup,
          ground (arith, missing, e),
          font.rows backup_char font.backup e,
          font.columns backup_char font.backup e,
          font.width backup_char font.backup e,
        )
    | inr (r, e) ↦ (r, ground (arith, e), font.rows c r e, font.columns c r e, font.width c r e)
  ]

  -- Drawing a character, once there is room for it.
  draw :
      (c : ℕ) (w w1 : FrameBufferWriter)
      → IsReady w
      → Placed w w1
      → (w' : FrameBufferWriter) × ((do r ← get_char_raster font c; write_rendered_char r w1)
          ≡ ok w')
        × Drawn w w'
  unfolding write_rendered_char
  draw c w w1 ready (screen, across, down, info, low) =
      let (r, got, rows, columns, width) = get_char_raster_lem c in
      let (w2, run, same) =
        write_rows-Same 0 font.raster_width r.raster w1 screen columns across (omega arith) in
      let width' = ap (λ (i : FrameBufferInfo). i.width) same.info in
      (
        record w2 { x_pos = usize_add w2.x_pos (usize_add r.width 0) },
        rw got (rw run),
        record {
          is_ready = record {
            screen = IsScreen-Same w1 w2 same screen;
            fits = subst Fits (sym (same.info ∙ info)) ready.fits;
            x_inside = omega (arith, width', same.x_pos, screen.width_small);
          };
          info = same.info ∙ info;
          down = omega (arith, same.y_pos);
        },
      )

  -- From a writer whose next character starts on the screen or at its right edge, `write_char` does
  -- not panic on any character: a printable one is drawn inside the screen, on the next line or on a
  -- cleared screen where there is no room. The writer is left as it was required to be, with the same
  -- screen, at most one line further down.
  pub write_char_lem :
      (c : ℕ) (w : FrameBufferWriter)
      → IsReady w
      → w.y_pos < 2 ^ 62
      → (w' : FrameBufferWriter) × (write_char font c w ≡ ok w') × Drawn w w'
  unfolding write_char newline carriage_return
  write_char_lem c w r low =
      let line : usize_add w.y_pos (usize_add font.raster_height line_spacing)
          ≡ w.y_pos + font.raster_height + line_spacing =
        omega (arith, r.screen.height_small, r.fits.down) in
      let (w', run, drawn) = draw c w (make_room font w) r (make_room_lem w r low) in
      elim (Bool-cases (c == b'\n')) [
        | inl feed ↦ (
          newline font w,
          rw feed,
          record {
            is_ready = record {
              screen = r.screen;
              fits = r.fits;
              x_inside = omega (arith, r.fits.across);
            };
            info = refl;
            down = omega (arith, line);
          },
        )
        | inr no_feed ↦ elim (Bool-cases (c == b'\r')) [
          | inl return ↦ (
            carriage_return w,
            rw (no_feed, return),
            record {
              is_ready = record {
                screen = r.screen;
                fits = r.fits;
                x_inside = omega (arith, r.fits.across);
              };
              info = refl;
              down = omega arith;
            },
          )
          | inr printable ↦ (w', rw (no_feed, printable) run, drawn)
        ]
      ]

  -- From a writer whose frame buffer holds its screen, whose screen has room for a character inside
  -- its padding, and whose column is on the screen, `write_str` does not panic on any text, so long
  -- as the lines of the text, each character counted as one, do not reach 2 ^ 62; it leaves such a
  -- writer, with the same screen.
  pub write_str_lem :
      (text : List ℕ) (w : FrameBufferWriter)
      → IsReady w
      → w.y_pos + length text * (font.raster_height + line_spacing) < 2 ^ 62
      → (w' : FrameBufferWriter) × (write_str font text w ≡ ok w') × IsReady w' × (w'.info ≡ w.info)
  unfolding write_str
  write_str_lem [] w r low = (w, refl, r, refl)
  write_str_lem (c ∷ text) w r low =
      let (w1, run, drawn) = write_char_lem c w r (omega arith) in
      let (w2, rest, r', info) = write_str_lem text w1 drawn.is_ready (omega (arith, drawn.down)) in
      (w2, rw run rest, r', info ∙ drawn.info)

  -- A new writer is cleared and ready for its first character.
  pub new-IsReady :
      (framebuffer : List ℕ) (info : FrameBufferInfo)
      → IsScreen info (length framebuffer)
      → Fits info
      → IsReady (new framebuffer info)
        × ((new framebuffer info).framebuffer ≡ fill framebuffer 0)
        × ((new framebuffer info).y_pos ≡ border_padding)
  unfolding new
  new-IsReady framebuffer info s fits = (
    record {
      screen = subst (IsScreen info) (sym (length-fill framebuffer 0)) s;
      fits = fits;
      x_inside = omega (arith, fits.across);
    },
    refl,
    refl,
  )
