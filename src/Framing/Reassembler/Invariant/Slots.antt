-- ===== src/Framing/Reassembler/Invariant/Slots.antt =====
-- The chunk slots of one message.
use learning_cuda.Base.{
  ℕ, zero, suc, ◌≤◌, ◌≡◌, ◌≢◌, refl, ap, Option, none, some, List, [], ◌∷◌, ◌++◌, arith, length,
  get_elem?, set, replicate,
}
use learning_cuda.Framing.Reassembler.{copy_chunks, type_error}
use learning_cuda.Framing.Reassembler.Invariant.{filled}

module _ {ℓ} {A : Type ℓ} where
  pub filled-le-length : (xs : List (Option A)) → filled xs ≤ length xs
  filled-le-length [] = omega arith
  filled-le-length (none ∷ xs) = omega (arith, filled-le-length xs)
  filled-le-length (some x ∷ xs) = omega (arith, filled-le-length xs)

  pub filled-set :
      (xs : List (Option A)) (i : ℕ) (v : A)
      → get_elem? xs i ≡ some none
      → filled (set xs i (some v)) ≡ suc (filled xs)
  filled-set [] i v h = cc
  filled-set (none ∷ xs) zero v h = refl
  filled-set (some x ∷ xs) zero v h = cc
  filled-set (none ∷ xs) (suc i) v h = filled-set xs i v h
  filled-set (some x ∷ xs) (suc i) v h = ap suc (filled-set xs i v h)

pub filled-replicate {ℓ} : (A : Type ℓ) (n : ℕ) → filled {A = A} (replicate n none) ≡ 0
filled-replicate A zero = refl
filled-replicate A (suc n) = filled-replicate A n

-- With every slot filled no `c!` is null.
pub copy_chunks_full :
    (out : List ℕ) (xs : List (Option (List ℕ)))
    → filled xs ≡ length xs
    → copy_chunks out xs ≢ type_error
unfolding copy_chunks
copy_chunks_full out [] h = λ e. cc
copy_chunks_full out (none ∷ xs) h = absurd (omega (arith, filled-le-length xs))
copy_chunks_full out (some x ∷ xs) h = copy_chunks_full (out ++ x) xs (omega arith)
