-- ===== src/FrameTransport/Raster.antt =====
-- The pixels of a frame: the loop of `rasterizeImageData` in
-- src/front-end/src/infrastructure/transport/webrtc-frame-transport.ts, from RGBA to RGB.
use learning_cuda.Base.{
  ℕ, zero, suc, ◌+◌, ◌*◌, ◌<◌, ◌≡◌, refl, sym, ap, ◌∙◌, List, [], ◌∷◌, length, get_elem?, arith,
}

-- The canvas gives four bytes a pixel; the loop keeps the first three of each.
unfoldable pub to_rgb : List ℕ → List ℕ
to_rgb (r ∷ g ∷ b ∷ a ∷ rest) = r ∷ g ∷ b ∷ to_rgb rest
to_rgb _ = []

-- One more pixel in front.
next_pixel :
    (n r g b a : ℕ) (rgb rgba : List ℕ)
    → ((p j : ℕ) → p < n → j < 3 → get_elem? rgb (3 * p + j) ≡ get_elem? rgba (4 * p + j))
    → (p j : ℕ) → p < suc n
    → j < 3
    → get_elem? (r ∷ g ∷ b ∷ rgb) (3 * p + j) ≡ get_elem? (r ∷ g ∷ b ∷ a ∷ rgba) (4 * p + j)
next_pixel n r g b a rgb rgba same zero zero h k = refl
next_pixel n r g b a rgb rgba same zero (suc zero) h k = refl
next_pixel n r g b a rgb rgba same zero (suc (suc zero)) h k = refl
next_pixel n r g b a rgb rgba same zero (suc (suc (suc j))) h k = absurd (omega arith)
next_pixel n r g b a rgb rgba same (suc p) j h k =
    let three : 3 * suc p + j ≡ suc (suc (suc (3 * p + j))) = omega arith in
    let four : 4 * suc p + j ≡ suc (suc (suc (suc (4 * p + j)))) = omega arith in
    ap (get_elem? (r ∷ g ∷ b ∷ rgb)) three
    ∙ same p j (omega arith) k
    ∙ sym (ap (get_elem? (r ∷ g ∷ b ∷ a ∷ rgba)) four)

-- From the four bytes of each of n pixels there come three a pixel, and channel j of pixel p is the
-- canvas's channel j of pixel p.
pub to_rgb_channels :
    (n : ℕ) (data_bytes : List ℕ)
    → length data_bytes ≡ 4 * n
    → (length (to_rgb data_bytes) ≡ 3 * n)
      × ((p j : ℕ)
          → p < n
          → j < 3
          → get_elem? (to_rgb data_bytes) (3 * p + j) ≡ get_elem? data_bytes (4 * p + j))
unfolding to_rgb
to_rgb_channels zero [] e = (refl, λ p j h k. absurd (omega arith))
to_rgb_channels zero (r ∷ rest) e = absurd (omega (arith, e))
to_rgb_channels (suc n) [] e = absurd (omega (arith, e))
to_rgb_channels (suc n) (r ∷ []) e = absurd (omega (arith, e))
to_rgb_channels (suc n) (r ∷ g ∷ []) e = absurd (omega (arith, e))
to_rgb_channels (suc n) (r ∷ g ∷ b ∷ []) e = absurd (omega (arith, e))
to_rgb_channels (suc n) (r ∷ g ∷ b ∷ a ∷ rest) e =
    let (len, same) = to_rgb_channels n rest (omega (arith, e)) in
    (omega (arith, len), next_pixel n r g b a (to_rgb rest) rest same)
