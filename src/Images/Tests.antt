-- ===== src/Images/Tests.antt =====
-- The theorems about pixels at concrete frames.
use learning_cuda.Base.{ℕ, zero, suc, ap, arith, ◌*◌, ◌≡◌, refl, List, [], ◌∷◌}
use learning_cuda.Images.{frame_rgba, raster_rgb}
use learning_cuda.Images.Pixels.{pixels, frame_pixels}
use learning_cuda.Images.Canvas.{IsOpaque, canvas_keeps_frame}

abbrev two_pixels : List ℕ
two_pixels = 10 ∷ 20 ∷ 30 ∷ 40 ∷ 50 ∷ 60 ∷ []

-- A gray frame whose last byte is missing.
gray_frame : frame_rgba (7 ∷ []) 2 1 1 ≡ 7 ∷ 7 ∷ 7 ∷ 255 ∷ 0 ∷ 0 ∷ 0 ∷ 255 ∷ []
unfolding frame_rgba
gray_frame = refl

frame_pixels_example : frame_rgba two_pixels 2 1 3 ≡ pixels two_pixels 3 0 (2 * 1)
frame_pixels_example = frame_pixels two_pixels 2 1 3

-- A canvas keeps no color where nothing is drawn.
without_transparent : List ℕ → List ℕ
without_transparent [] = []
without_transparent (r ∷ []) = r ∷ []
without_transparent (r ∷ g ∷ []) = r ∷ g ∷ []
without_transparent (r ∷ g ∷ b ∷ []) = r ∷ g ∷ b ∷ []
without_transparent (r ∷ g ∷ b ∷ zero ∷ rest) = 0 ∷ 0 ∷ 0 ∷ 0 ∷ without_transparent rest
without_transparent (r ∷ g ∷ b ∷ suc a ∷ rest) = r ∷ g ∷ b ∷ suc a ∷ without_transparent rest

keeps_opaque : (rgba : List ℕ) → IsOpaque rgba → without_transparent rgba ≡ rgba
unfolding without_transparent
keeps_opaque [] o = refl
keeps_opaque (r ∷ []) o = refl
keeps_opaque (r ∷ g ∷ []) o = refl
keeps_opaque (r ∷ g ∷ b ∷ []) o = refl
keeps_opaque (r ∷ g ∷ b ∷ zero ∷ rest) o = absurd (omega (arith, o.3))
keeps_opaque (r ∷ g ∷ b ∷ suc a ∷ rest) o = ap (λ l. r ∷ g ∷ b ∷ suc a ∷ l) (keeps_opaque rest o.4)

canvas_keeps_frame_example :
    raster_rgb (without_transparent (frame_rgba two_pixels 2 1 3)) 2 1 ≡ two_pixels
canvas_keeps_frame_example =
    canvas_keeps_frame (λ rgba w h. without_transparent rgba)
      (λ rgba w h p q e o. keeps_opaque rgba o) two_pixels 2 1 (omega arith) (omega arith) refl
      (omega arith, (omega arith, (omega arith, (omega arith, (omega arith, (omega arith, tt))))))
