-- ===== src/Text/Laws.antt =====
-- Trimming twice is trimming once, and case mapping keeps the constants of the program.
use Prim.Native.String.{[], ◌∷◌}
use canada_post.Prelude.{
  String, ◌≡◌, refl, arith, ap, ◌∙◌, sym, Bool, true, not, ◌&&◌, Bool-cases, inl, inr,
}
use canada_post.Text.{is_space, trim_left, trim_right, trim, to_upper}

trim_right_idem : (s : String) → trim_right (trim_right s) ≡ trim_right s
unfolding trim_right
trim_right_idem [] = refl
trim_right_idem (c ∷ s) = ground (arith, trim_right_idem s)

trim_left-trim_right :
    (s : String) → trim_left (trim_right (trim_left s)) ≡ trim_right (trim_left s)
unfolding trim_left trim_right
trim_left-trim_right [] = refl
trim_left-trim_right (c ∷ s) = ground (arith, trim_left-trim_right s)

pub trim_idem : (s : String) → trim (trim s) ≡ trim s
unfolding trim
trim_idem s = ap trim_right (trim_left-trim_right s) ∙ trim_right_idem (trim_left s)

test_upper : to_upper (trim "  pA18 \t") ≡ "PA18"
unfolding to_upper trim
test_upper = refl

-- no character is white space
abbrev pub has_no_space : String → Bool
has_no_space [] = true
has_no_space (c ∷ s) = not (is_space c) && has_no_space s

trim_right-plain : (s : String) → has_no_space s ≡ true → trim_right s ≡ s
unfolding trim_right
trim_right-plain [] h = refl
trim_right-plain (c ∷ s) h = elim (Bool-cases (is_space c)) [
  | inl e ↦ absurd (cc (h, ap (λ b. not b && has_no_space s) e))
  | inr e ↦
      rw e (ap (λ t. c ∷ t) (trim_right-plain s (ap (λ b. not b && has_no_space s) (sym e) ∙ h)))
]

-- A text without white space is its own trimmed text.
pub trim-plain : (s : String) → has_no_space s ≡ true → trim s ≡ s
unfolding trim trim_left
trim-plain [] h = refl
trim-plain (c ∷ s) h = elim (Bool-cases (is_space c)) [
  | inl e ↦ absurd (cc (h, e))
  | inr e ↦ rw e (trim_right-plain (c ∷ s) h)
]
