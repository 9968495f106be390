-- ===== src/Images.antt =====
-- The pixel loops of src/front-end/src/presentation/utils/image-utils.ts: `frameResponseToDataUrl`, which
-- fills an RGBA array from a frame of any number of channels, and `rasterizeImageToRgb`, which reads three
-- channels back. Arrays are lists of bytes; the canvas between the two is a parameter of Canvas.antt.
pub mod Pixels
pub mod RoundTrip
pub mod Canvas
mod Tests
use learning_cuda.Base.{
  ℕ, zero, suc, ◌+◌, ◌*◌, List, [], ◌==◌, leb, if◌then◌else◌, get_or, set, length, replicate,
}

-- The four writes of a pixel, from an offset on.
unfoldable pub write_pixel : List ℕ → ℕ → ℕ → ℕ → ℕ → ℕ → List ℕ
write_pixel rgba offset r g b a =
    set (set (set (set rgba offset r) (offset + 1) g) (offset + 2) b) (offset + 3) a

module _ (bytes : List ℕ) where
  -- channels === 1; the first argument counts the rounds left
  unfoldable pub fill_gray : ℕ → ℕ → List ℕ → List ℕ
  unfolding write_pixel
  fill_gray zero index rgba = rgba
  fill_gray (suc rounds) index rgba =
      let value = get_or bytes index 0 in
      fill_gray rounds (index + 1) (write_pixel rgba (index * 4) value value value 255)

  -- channels === 3
  unfoldable pub fill_rgb : ℕ → ℕ → List ℕ → List ℕ
  unfolding write_pixel
  fill_rgb zero index rgba = rgba
  fill_rgb (suc rounds) index rgba =
      let src = index * 3 in
      fill_rgb rounds (index + 1) (
        write_pixel rgba (index * 4) (get_or bytes src 0) (get_or bytes (src + 1) 0)
          (get_or bytes (src + 2) 0) 255)

  -- any other number of channels
  unfoldable pub fill_channels : ℕ → ℕ → ℕ → List ℕ → List ℕ
  unfolding write_pixel
  fill_channels channels zero index rgba = rgba
  fill_channels channels (suc rounds) index rgba =
      let src = index * channels in
      fill_channels channels rounds (index + 1) (
        write_pixel rgba (index * 4) (get_or bytes src 0) (get_or bytes (src + 1) 0)
          (get_or bytes (src + 2) 0) (if leb 4 channels then get_or bytes (src + 3) 255 else 255))

  -- The array that `frameResponseToDataUrl` puts on its canvas.
  unfoldable pub frame_rgba : ℕ → ℕ → ℕ → List ℕ
  unfolding fill_gray fill_rgb fill_channels
  frame_rgba width height channels =
      let rgba = replicate (width * height * 4) 0 in
      if channels == 1
      then fill_gray (width * height) 0 rgba
      else if channels == 3
      then fill_rgb (width * height) 0 rgba
      else fill_channels channels (width * height) 0 rgba

  -- The loop of `rasterizeImageToRgb` over the canvas's bytes: while index < raster.data.length, with
  -- the rounds that are left.
  unfoldable pub read_rgb : ℕ → ℕ → ℕ → List ℕ → List ℕ
  read_rgb zero index pixel rgb = rgb
  read_rgb (suc rounds) index pixel rgb =
      let next = read_rgb rounds (index + 4) (pixel + 3) (
        set (set (set rgb pixel (get_or bytes index 0)) (pixel + 1) (get_or bytes (index + 1) 0))
          (pixel + 2) (get_or bytes (index + 2) 0)) in
      if leb (length bytes) index then rgb else next

  -- The result of `rasterizeImageToRgb`; one round for each byte is more than it takes.
  unfoldable pub raster_rgb : ℕ → ℕ → List ℕ
  unfolding read_rgb
  raster_rgb width height = read_rgb (length bytes) 0 0 (replicate (width * height * 3) 0)
