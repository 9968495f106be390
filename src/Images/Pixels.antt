-- ===== src/Images/Pixels.antt =====
-- The RGBA array pixel by pixel: one description of a pixel, and the three loops that fill the array.
use learning_cuda.Base.{
  ℕ, zero, suc, ◌+◌, ◌*◌, ◌≡◌, refl, sym, ap, ◌∙◌, List, [], ◌∷◌, ◌++◌, ◌==◌, leb, false,
  if◌then◌else◌, get_or, set, length, replicate, append_assoc, length-append, arith, inl, inr,
  ==_iff, Bool-cases,
}
use learning_cuda.Images.{write_pixel, fill_gray, fill_rgb, fill_channels, frame_rgba}

-- A write behind a prefix.
pub set-append :
    (before rest : List ℕ) (i k v : ℕ)
    → i ≡ length before + k
    → set (before ++ rest) i v ≡ before ++ set rest k v
set-append [] rest i k v e = ap (λ j. set rest j v) (omega (arith, e))
set-append (x ∷ before) rest zero k v e = absurd (omega (arith, e))
set-append (x ∷ before) rest (suc i) k v e =
    ap (◌∷◌ x) (set-append before rest i k v (omega (arith, e)))

write_pixel-append :
    (before rest : List ℕ) (offset r g b a w x y z : ℕ)
    → offset ≡ length before
    → write_pixel (before ++ w ∷ x ∷ y ∷ z ∷ rest) offset r g b a
      ≡ (before ++ r ∷ g ∷ b ∷ a ∷ []) ++ rest
unfolding write_pixel
write_pixel-append before rest offset r g b a w x y z e =
    ap (λ l. set (set (set l (offset + 1) g) (offset + 2) b) (offset + 3) a)
      (set-append before (w ∷ x ∷ y ∷ z ∷ rest) offset 0 r (omega (arith, e)))
    ∙ ap (λ l. set (set l (offset + 2) b) (offset + 3) a)
        (set-append before (r ∷ x ∷ y ∷ z ∷ rest) (offset + 1) 1 g (omega (arith, e)))
    ∙ ap (λ l. set l (offset + 3) a)
        (set-append before (r ∷ g ∷ y ∷ z ∷ rest) (offset + 2) 2 b (omega (arith, e)))
    ∙ set-append before (r ∷ g ∷ b ∷ z ∷ rest) (offset + 3) 3 a (omega (arith, e))
    ∙ sym (append_assoc before (r ∷ g ∷ b ∷ a ∷ []) rest)

module _ (bytes : List ℕ) where
  -- Channel j of pixel p of a frame that has `channels` bytes a pixel: gray is copied, an absent alpha
  -- channel is opaque, and missing bytes are black.
  abbrev pub color : ℕ → ℕ → ℕ → ℕ
  color channels p j = get_or bytes (if channels == 1 then p else p * channels + j) 0

  abbrev pub alpha : ℕ → ℕ → ℕ
  alpha channels p = if leb 4 channels then get_or bytes (p * channels + 3) 255 else 255

  -- The n pixels from p on, in order.
  abbrev pub pixels : ℕ → ℕ → ℕ → List ℕ
  pixels channels p zero = []
  pixels channels p (suc n) =
      color channels p 0
      ∷ color channels p 1
      ∷ color channels p 2
      ∷ alpha channels p
      ∷ pixels channels (p + 1) n

  -- A loop that writes such a pixel in each round.
  abbrev Fills : ℕ → (ℕ → ℕ → List ℕ → List ℕ) → Type 0
  Fills channels fill =
      (n p : ℕ) (before : List ℕ)
      → length before ≡ p * 4
      → fill n p (before ++ replicate (n * 4) 0) ≡ before ++ pixels channels p n

  module _ (channels p n : ℕ) (before : List ℕ) (e : length before ≡ p * 4)
      (fill : ℕ → ℕ → List ℕ → List ℕ)
      (ih : (q : ℕ) (done : List ℕ)
        → length done ≡ q * 4
        → fill n q (done ++ replicate (n * 4) 0) ≡ done ++ pixels channels q n) where
    fill_round :
        (r g b a : ℕ)
        → r ≡ color channels p 0
        → g ≡ color channels p 1
        → b ≡ color channels p 2
        → a ≡ alpha channels p
        → fill n (p + 1) (write_pixel (before ++ replicate (suc n * 4) 0) (p * 4) r g b a)
          ≡ before ++ pixels channels p (suc n)
    fill_round r g b a er eg eb ea =
        let pixel = r ∷ g ∷ b ∷ a ∷ [] in
        let room : suc n * 4 ≡ suc (suc (suc (suc (n * 4)))) = omega arith in
        ap (λ k. fill n (p + 1) (write_pixel (before ++ replicate k 0) (p * 4) r g b a)) room
        ∙ ap (fill n (p + 1))
            (write_pixel-append before (replicate (n * 4) 0) (p * 4) r g b a 0 0 0 0 (sym e))
        ∙ ih (p + 1) (before ++ pixel) (omega (arith, e, length-append before pixel))
        ∙ append_assoc before pixel (pixels channels (p + 1) n)
        ∙ rw (er, eg, eb, ea) refl

  at : (channels p : ℕ) → get_or bytes (p * channels) 0 ≡ get_or bytes (p * channels + 0) 0
  at channels p = ap (λ i. get_or bytes i 0) (omega arith)

  fill_gray-Fills : Fills 1 (fill_gray bytes)
  unfolding fill_gray
  fill_gray-Fills zero p before e = refl
  fill_gray-Fills (suc n) p before e =
      fill_round 1 p n before e (fill_gray bytes) (fill_gray-Fills n) _ _ _ _ refl refl refl refl

  fill_rgb-Fills : Fills 3 (fill_rgb bytes)
  unfolding fill_rgb
  fill_rgb-Fills zero p before e = refl
  fill_rgb-Fills (suc n) p before e =
      fill_round 3 p n before e (fill_rgb bytes) (fill_rgb-Fills n) _ _ _ _ (at 3 p) refl refl refl

  fill_channels-Fills :
      (channels : ℕ) → (channels == 1) ≡ false → Fills channels (fill_channels bytes channels)
  unfolding fill_channels
  fill_channels-Fills channels ne zero p before e = refl
  fill_channels-Fills channels ne (suc n) p before e =
      fill_round channels p n before e (fill_channels bytes channels)
        (fill_channels-Fills channels ne n) _ _ _ _ (rw ne (at channels p)) (rw ne refl)
        (rw ne refl) refl

  whole :
      (channels c n : ℕ) (fill : ℕ → ℕ → List ℕ → List ℕ)
      → channels ≡ c
      → Fills c fill
      → fill n 0 (replicate (n * 4) 0) ≡ pixels channels 0 n
  whole channels c n fill e fills = fills n 0 [] (omega arith) ∙ ap (λ i. pixels i 0 n) (sym e)

  -- The array holds width * height pixels in order, whichever of the three loops fills it: each has the
  -- color that the frame's bytes give (a gray byte is copied, a missing byte is black), and is opaque
  -- unless the frame has four channels or more and the alpha byte is there.
  pub frame_pixels :
      (width height channels : ℕ)
      → frame_rgba bytes width height channels ≡ pixels channels 0 (width * height)
  unfolding frame_rgba
  frame_pixels width height channels =
      let n = width * height in
      elim (Bool-cases (channels == 1)) [
        | inl one ↦
            rw one
              (whole channels 1 n (fill_gray bytes) ((==_iff channels 1).0 one) fill_gray-Fills)
        | inr ne ↦ elim (Bool-cases (channels == 3)) [
          | inl three ↦
              rw (ne, three)
                (whole channels 3 n (fill_rgb bytes) ((==_iff channels 3).0 three) fill_rgb-Fills)
          | inr other ↦
              rw (ne, other)
                (whole channels channels n (fill_channels bytes channels) refl
                  (fill_channels-Fills channels ne))
        ]
      ]
