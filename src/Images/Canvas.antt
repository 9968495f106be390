-- ===== src/Images/Canvas.antt =====
-- A frame that is shown and read back: `frameResponseToDataUrl` puts the RGBA array on a canvas and makes
-- a PNG of it, `rasterizeImageToRgb` draws that image on a canvas of its own and reads its bytes, of
-- src/front-end/src/presentation/utils/image-utils.ts. The canvases and the image are the browser's, so
-- what they do to an array is a parameter.
use learning_cuda.Base.{
  ℕ, zero, suc, ◌+◌, ◌*◌, ◌<◌, ◌≡◌, refl, sym, ap, subst, ◌∙◌, List, [], ◌∷◌, All, get_or, length,
  arith,
}
use learning_cuda.Images.{frame_rgba, raster_rgb}
use learning_cuda.Images.Pixels.{pixels, frame_pixels}
use learning_cuda.Images.RoundTrip.{length-pixels, raster-frame}

abbrev pub IsByte : ℕ → Type 0
IsByte n = n < 256

-- Whole pixels of bytes, whose alpha is 255.
abbrev pub IsOpaque : List ℕ → Type 0
IsOpaque [] = Unit
IsOpaque (r ∷ []) = ⊥
IsOpaque (r ∷ g ∷ []) = ⊥
IsOpaque (r ∷ g ∷ b ∷ []) = ⊥
IsOpaque (r ∷ g ∷ b ∷ a ∷ rest) = IsByte r × IsByte g × IsByte b × (a ≡ 255) × IsOpaque rest

get_or-IsByte : (bytes : List ℕ) (i : ℕ) → All IsByte bytes → IsByte (get_or bytes i 0)
get_or-IsByte [] i a = omega arith
get_or-IsByte (x ∷ bytes) zero a = a.0
get_or-IsByte (x ∷ bytes) (suc i) a = get_or-IsByte bytes i a.1

pixels-IsOpaque : (bytes : List ℕ) (p n : ℕ) → All IsByte bytes → IsOpaque (pixels bytes 3 p n)
pixels-IsOpaque bytes p zero a = tt
pixels-IsOpaque bytes p (suc n) a = (
  get_or-IsByte bytes _ a,
  get_or-IsByte bytes _ a,
  get_or-IsByte bytes _ a,
  refl,
  pixels-IsOpaque bytes (p + 1) n a,
)

-- Where the canvases and the PNG between them give back an opaque image of positive size as it was: the
-- three channels that are read from the shown image of a frame of three bytes a pixel are that frame.
pub canvas_keeps_frame :
    (canvas : List ℕ → ℕ → ℕ → List ℕ)
    (keeps_opaque : (rgba : List ℕ) (width height : ℕ)
      → 0 < width
      → 0 < height
      → length rgba ≡ width * height * 4
      → IsOpaque rgba
      → canvas rgba width height ≡ rgba)
    (bytes : List ℕ) (width height : ℕ)
    → 0 < width
    → 0 < height
    → length bytes ≡ width * height * 3
    → All IsByte bytes
    → raster_rgb (canvas (frame_rgba bytes width height 3) width height) width height ≡ bytes
canvas_keeps_frame canvas keeps_opaque bytes width height w h e a =
    let rgba = frame_pixels bytes width height 3 in
    let kept : canvas (frame_rgba bytes width height 3) width height
        ≡ frame_rgba bytes width height 3 =
      keeps_opaque (frame_rgba bytes width height 3) width height w h
        (ap length rgba ∙ length-pixels bytes 3 0 (width * height))
        (subst IsOpaque (sym rgba) (pixels-IsOpaque bytes 0 (width * height) a)) in
    ap (λ l. raster_rgb l width height) kept ∙ raster-frame bytes width height e
