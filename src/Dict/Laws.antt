-- ===== src/Dict/Laws.antt =====
-- Reading a map after a write.
use canada_post.Prelude.{none, String, ◌≡◌, refl, [], ◌∷◌, some, arith, ◌==◌, eq_iff, if◌then◌else◌}
use canada_post.Dict.{Dict, find, put, drop}

module _ {ℓ} {V : Type ℓ} where
  pub find-put :
      (k j : String) (v : V) (m : Dict V)
      → find j (put k v m) ≡ (if k == j then some v else find j m)
  unfolding find put
  find-put k j v [] = refl
  find-put k j v ((i, w) ∷ m) = ground (arith, eq_iff k j, eq_iff i k, eq_iff i j, find-put k j v m)

  pub find-drop :
      (k j : String) (m : Dict V) → find j (drop k m) ≡ (if k == j then none else find j m)
  unfolding find drop
  find-drop k j [] = ground arith
  find-drop k j ((i, w) ∷ m) = ground (arith, eq_iff k j, eq_iff i k, eq_iff i j, find-drop k j m)
