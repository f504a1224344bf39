-- ===== src/Dict.antt =====
-- Go's maps with text keys. A missing key reads as the zero value.
pub mod Laws
use canada_post.Prelude.{
  String, List, [], ◌∷◌, Option, none, some, Bool, ◌==◌, if◌then◌else◌, true, false,
}

abbrev pub Dict {ℓ} : Type ℓ → Type ℓ
Dict V = List (String × V)

module _ {ℓ} {V : Type ℓ} where
  -- `v, ok := m[k]`
  unfoldable pub find : String → Dict V → Option V
  find k [] = none
  find k ((j, v) ∷ m) = if j == k then some v else find k m

  -- `delete(m, k)`
  unfoldable pub drop : String → Dict V → Dict V
  drop k [] = []
  drop k ((j, v) ∷ m) = let rest = drop k m in if j == k then rest else (j, v) ∷ rest

  -- `m[k] = v`
  unfoldable pub put : String → V → Dict V → Dict V
  put k v [] = (k, v) ∷ []
  put k v ((j, w) ∷ m) = if j == k then (k, v) ∷ m else (j, w) ∷ put k v m

abbrev pub text_or_empty : Option String → String
text_or_empty none = ""
text_or_empty (some v) = v

-- `m[k]` in a map[string]string
abbrev pub get : Dict String → String → String
get m k = text_or_empty (find k m)

abbrev pub true_or_missing : Option Bool → Bool
true_or_missing none = false
true_or_missing (some b) = b

-- `m[k]` in a map[string]bool
abbrev pub has : Dict Bool → String → Bool
has m k = true_or_missing (find k m)
