-- ===== src/Images/RoundTrip.antt =====
-- The loop of `rasterizeImageToRgb` that reads three channels back, in
-- src/front-end/src/presentation/utils/image-utils.ts.
use learning_cuda.Base.{
  ℕ, zero, suc, ◌+◌, ◌*◌, ◌≤◌, ◌≡◌, refl, sym, ap, ◌∙◌, List, [], ◌∷◌, ◌++◌, leb, true, false,
  get_or, set, length, replicate, append_assoc, length-append, arith,
}
use learning_cuda.FrameTransport.Raster.{to_rgb}
use learning_cuda.Images.{frame_rgba, read_rgb, raster_rgb}
use learning_cuda.Images.Pixels.{set-append, pixels, frame_pixels}

get_or-append :
    (before rest : List ℕ) (i k : ℕ)
    → i ≡ length before + k
    → get_or (before ++ rest) i 0 ≡ get_or rest k 0
get_or-append [] rest i k e = ap (λ j. get_or rest j 0) (omega (arith, e))
get_or-append (x ∷ before) rest zero k e = absurd (omega (arith, e))
get_or-append (x ∷ before) rest (suc i) k e = get_or-append before rest i k (omega (arith, e))

-- Three writes behind a prefix.
write_rgb :
    (before rest : List ℕ) (i r g b x y z : ℕ)
    → i ≡ length before
    → set (set (set (before ++ x ∷ y ∷ z ∷ rest) i r) (i + 1) g) (i + 2) b
      ≡ (before ++ r ∷ g ∷ b ∷ []) ++ rest
write_rgb before rest i r g b x y z e =
    ap (λ l. set (set l (i + 1) g) (i + 2) b)
      (set-append before (x ∷ y ∷ z ∷ rest) i 0 r (omega (arith, e)))
    ∙ ap (λ l. set l (i + 2) b)
        (set-append before (r ∷ y ∷ z ∷ rest) (i + 1) 1 g (omega (arith, e)))
    ∙ set-append before (r ∷ g ∷ z ∷ rest) (i + 2) 2 b (omega (arith, e))
    ∙ sym (append_assoc before (r ∷ g ∷ b ∷ []) rest)

-- The loop, with `seen` behind it and `rgb` written.
read_rgb-to_rgb :
    (n rounds index pixel : ℕ) (seen rest rgb : List ℕ)
    → n ≤ rounds
    → index ≡ length seen
    → pixel ≡ length rgb
    → length rest ≡ n * 4
    → read_rgb (seen ++ rest) rounds index pixel (rgb ++ replicate (n * 3) 0) ≡ rgb ++ to_rgb rest
unfolding read_rgb to_rgb
read_rgb-to_rgb zero zero index pixel seen [] rgb h i j e = refl
read_rgb-to_rgb zero (suc rounds) index pixel seen [] rgb h i j e =
    let at_end : leb (length (seen ++ [])) index ≡ true = ground (arith, length-append seen []) in
    rw at_end refl
read_rgb-to_rgb zero rounds index pixel seen (r ∷ rest) rgb h i j e = absurd (omega (arith, e))
read_rgb-to_rgb (suc n) zero index pixel seen rest rgb h i j e = absurd (omega (arith, h))
read_rgb-to_rgb (suc n) (suc rounds) index pixel seen [] rgb h i j e = absurd (omega (arith, e))
read_rgb-to_rgb (suc n) (suc rounds) index pixel seen (r ∷ []) rgb h i j e =
    absurd (omega (arith, e))
read_rgb-to_rgb (suc n) (suc rounds) index pixel seen (r ∷ g ∷ []) rgb h i j e =
    absurd (omega (arith, e))
read_rgb-to_rgb (suc n) (suc rounds) index pixel seen (r ∷ g ∷ b ∷ []) rgb h i j e =
    absurd (omega (arith, e))
read_rgb-to_rgb (suc n) (suc rounds) index pixel seen (r ∷ g ∷ b ∷ a ∷ rest) rgb h i j e =
    let four = r ∷ g ∷ b ∷ a ∷ [] in
    let three = r ∷ g ∷ b ∷ [] in
    let all = seen ++ r ∷ g ∷ b ∷ a ∷ rest in
    let inside : leb (length (seen ++ r ∷ g ∷ b ∷ a ∷ rest)) index ≡ false =
      ground (arith, length-append seen (r ∷ g ∷ b ∷ a ∷ rest)) in
    let room : suc n * 3 ≡ suc (suc (suc (n * 3))) = omega arith in
    let read =
      λ (k : ℕ). get_or-append seen (r ∷ g ∷ b ∷ a ∷ rest) (index + k) k (omega (arith, i)) in
    rw
      (inside, get_or-append seen (r ∷ g ∷ b ∷ a ∷ rest) index 0 (omega (arith, i)), read 1, read 2)
      (ap
          (λ k.
            read_rgb all rounds (index + 4) (pixel + 3)
              (set (set (set (rgb ++ replicate k 0) pixel r) (pixel + 1) g) (pixel + 2) b))
          room
        ∙ ap (read_rgb all rounds (index + 4) (pixel + 3))
            (write_rgb rgb (replicate (n * 3) 0) pixel r g b 0 0 0 j)
        ∙ ap
            (λ l. read_rgb l rounds (index + 4) (pixel + 3) ((rgb ++ three) ++ replicate (n * 3) 0))
            (sym (append_assoc seen four rest))
        ∙ read_rgb-to_rgb n rounds (index + 4) (pixel + 3) (seen ++ four) rest (rgb ++ three)
            (omega arith) (omega (arith, i, length-append seen four))
            (omega (arith, j, length-append rgb three)) (omega (arith, e))
        ∙ append_assoc rgb three (to_rgb rest))

-- The array that is read back holds the first three bytes of each of the canvas's pixels, in order.
pub raster-to_rgb :
    (bytes : List ℕ) (width height : ℕ)
    → length bytes ≡ width * height * 4
    → raster_rgb bytes width height ≡ to_rgb bytes
unfolding raster_rgb
raster-to_rgb bytes width height e =
    read_rgb-to_rgb (width * height) (length bytes) 0 0 [] bytes [] (omega (arith, e)) refl refl e

pub length-pixels : (bytes : List ℕ) (channels p n : ℕ) → length (pixels bytes channels p n) ≡ n * 4
length-pixels bytes channels p zero = omega arith
length-pixels bytes channels p (suc n) = omega (arith, length-pixels bytes channels (p + 1) n)

to_rgb-pixels :
    (n p : ℕ) (seen rest : List ℕ)
    → length seen ≡ p * 3
    → length rest ≡ n * 3
    → to_rgb (pixels (seen ++ rest) 3 p n) ≡ rest
unfolding to_rgb
to_rgb-pixels zero p seen [] e f = refl
to_rgb-pixels zero p seen (r ∷ rest) e f = absurd (omega (arith, f))
to_rgb-pixels (suc n) p seen [] e f = absurd (omega (arith, f))
to_rgb-pixels (suc n) p seen (r ∷ []) e f = absurd (omega (arith, f))
to_rgb-pixels (suc n) p seen (r ∷ g ∷ []) e f = absurd (omega (arith, f))
to_rgb-pixels (suc n) p seen (r ∷ g ∷ b ∷ rest) e f =
    let three = r ∷ g ∷ b ∷ [] in
    let read = λ (k : ℕ). get_or-append seen (r ∷ g ∷ b ∷ rest) (p * 3 + k) k (omega (arith, e)) in
    rw (read 0, read 1, read 2)
      (ap (λ l. r ∷ g ∷ b ∷ to_rgb (pixels l 3 (p + 1) n)) (sym (append_assoc seen three rest))
        ∙ ap (λ l. r ∷ g ∷ b ∷ l)
            (to_rgb-pixels n (p + 1) (seen ++ three) rest
              (omega (arith, e, length-append seen three)) (omega (arith, f))))

-- The two pixel loops undo one another: the three channels that are read from the array filled with a
-- frame of three bytes a pixel are that frame.
pub raster-frame :
    (bytes : List ℕ) (width height : ℕ)
    → length bytes ≡ width * height * 3
    → raster_rgb (frame_rgba bytes width height 3) width height ≡ bytes
raster-frame bytes width height e =
    ap (λ l. raster_rgb l width height) (frame_pixels bytes width height 3)
    ∙ raster-to_rgb (pixels bytes 3 0 (width * height)) width height
        (length-pixels bytes 3 0 (width * height))
    ∙ to_rgb-pixels (width * height) 0 [] bytes (omega arith) e
