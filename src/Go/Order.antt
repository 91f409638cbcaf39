-- ===== src/Go/Order.antt =====
-- The order of strings, byte by byte.
use m3_repoworker.Prelude.{
  ◌≡◌, refl, Bool, true, false, ltb, ◌==◌, [], ◌∷◌, Bytes, bytes_eq, if◌then◌else◌, arith,
}

unfoldable pub text_before : Bytes → Bytes → Bool
text_before [] [] = false
text_before [] (b ∷ t) = true
text_before (a ∷ s) [] = false
text_before (a ∷ s) (b ∷ t) = let rest = text_before s t in if a == b then rest else ltb a b

-- No string is before one that is not after it.
pub text_before_trans :
    (a b c : Bytes) → text_before b a ≡ false → text_before c b ≡ false → text_before c a ≡ false
unfolding text_before
text_before_trans [] b [] h k = refl
text_before_trans (x ∷ a) [] [] h k = cc
text_before_trans (x ∷ a) (y ∷ b) [] h k = cc
text_before_trans [] b (z ∷ c) h k = refl
text_before_trans (x ∷ a) [] (z ∷ c) h k = cc
text_before_trans (x ∷ a) (y ∷ b) (z ∷ c) h k = ground (arith, text_before_trans a b c)

pub text_before-asym : (a b : Bytes) → text_before a b ≡ true → text_before b a ≡ false
unfolding text_before
text_before-asym [] [] h = refl
text_before-asym [] (y ∷ b) h = refl
text_before-asym (x ∷ a) [] h = cc
text_before-asym (x ∷ a) (y ∷ b) h = ground (arith, text_before-asym a b)

pub text_before-before :
    (a b c : Bytes) → text_before a b ≡ true → text_before b c ≡ true → text_before a c ≡ true
unfolding text_before
text_before-before [] [] [] h k = cc
text_before-before [] (y ∷ b) [] h k = cc
text_before-before [] b (z ∷ c) h k = refl
text_before-before (x ∷ a) [] c h k = cc
text_before-before (x ∷ a) (y ∷ b) [] h k = cc
text_before-before (x ∷ a) (y ∷ b) (z ∷ c) h k = ground (arith, text_before-before a b c)

pub text_before_apart : (a b : Bytes) → text_before a b ≡ true → bytes_eq b a ≡ false
unfolding text_before bytes_eq
text_before_apart [] [] h = cc
text_before_apart [] (y ∷ b) h = refl
text_before_apart (x ∷ a) [] h = refl
text_before_apart (x ∷ a) (y ∷ b) h = ground (arith, text_before_apart a b)
