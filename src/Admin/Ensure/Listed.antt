-- ===== src/Admin/Ensure/Listed.antt =====
-- The name "Canada Post" is listed after each call of the shippings service that succeeds.
use canada_post.Prelude.{
  ℤ, String, List, [], ◌∷◌, ◌++◌, Option, none, some, Bool, true, false, not, ◌||◌, ◌==◌, Result,
  ok, err, any, ◌≡◌, refl, sym, ap, ◌∙◌, eq_iff, Bool-cases, Option-cases, inl, inr, ◌⊎◌,
}
use canada_post.Text.{trim, to_lower, is_empty, blank}
use canada_post.Uninstall.{Attempt, Response}
use canada_post.Admin.{
  ShippingItem, MethodsReply, AdminShippingMethod, normalize_shipping_method_name, item_name, bears,
  is_named, rename_id,
}
use canada_post.Admin.Ensure.{
  Service, listed_items, add_name, existing_names, update_answer, Created, refused, existed, made,
  create_answer, rename_first, ensure_generic_canada_post_name, create_with_codes,
}

abbrev pub target : String
target = normalize_shipping_method_name "Canada Post"

abbrev pub names_it : Result (List (Option ShippingItem)) → Bool
names_it (err e) = false
names_it (ok items) = any (is_named target) items

-- the reply is good and has an item of the name "Canada Post"
abbrev pub is_listed : Result (Option MethodsReply) → Bool
is_listed r = names_it (listed_items r)

abbrev pub is_refused : Created → Bool
is_refused (refused _) = true
is_refused existed = false
is_refused made = false

pub target-filled : is_empty target ≡ false
unfolding normalize_shipping_method_name trim to_lower
target-filled = refl

pub filled-other : (s t : String) → is_empty s ≡ true → is_empty t ≡ false → (s == t) ≡ false
filled-other s t f h = elim (Bool-cases (s == t)) [
  | inl e ↦ absurd (cc (f, h, ap is_empty ((eq_iff s t).0 e)))
  | inr e ↦ e
]

add_name-any :
    (name : String) (o : Option String) (names : List String)
    → is_empty name ≡ false
    → any (λ n. n == name) (add_name o names) ≡ (bears name o || any (λ n. n == name) names)
add_name-any name none names h = refl
add_name-any name (some n) names h =
    elim (Bool-cases (is_empty (normalize_shipping_method_name n))) [
      | inl f ↦ rw f (rw (filled-other (normalize_shipping_method_name n) name f h) refl)
      | inr f ↦ rw f refl
    ]

-- a normalized name is among the names exactly if an item bears it
pub existing_names-any :
    (name : String) (items : List (Option ShippingItem))
    → is_empty name ≡ false
    → any (λ n. n == name) (existing_names items) ≡ any (is_named name) items
unfolding existing_names is_named
existing_names-any name [] h = refl
existing_names-any name (item ∷ items) h =
    add_name-any name (item_name item) (existing_names items) h
    ∙ ap (λ b. bears name (item_name item) || b) (existing_names-any name items h)

update_answer-not_false :
    (id : String) (r : Result (Option Response)) → update_answer id r ≡ ok false → ⊥
unfolding update_answer
update_answer-not_false id (err e) h = cc h
update_answer-not_false id (ok none) h = cc h
update_answer-not_false id (ok (some r)) h = elim (Bool-cases (r.failure || not r.success)) [
  | inl e ↦ cc (e, h)
  | inr e ↦ cc (e, h)
]

Created-cases : (c : Created) → (c ≡ existed) ⊎ ((c ≡ made) ⊎ ((f : String) × (c ≡ refused f)))
Created-cases (refused f) = inr (inr (f, refl))
Created-cases existed = inl refl
Created-cases made = inr (inl refl)

module _ {S : Type 0} (service : Service S) (store : ℤ) (a : Attempt) where
  -- the store lists the name "Canada Post" in this state
  abbrev pub IsListed : S → Type 0
  IsListed s = is_listed (service.get_methods store a s) ≡ true

  -- what the shippings service documents of its replies: a method that it says it has renamed, made or found there is listed
  pub record Keeps : Type 0 where
    pub updated :
        (id : String) (s : S)
        → update_answer id (service.update_method store a id "Canada Post" s).0 ≡ ok true
        → IsListed (service.update_method store a id "Canada Post" s).1
    pub created :
        (code : String) (s : S)
        → is_refused (create_answer code (service.create_method store a "Canada Post" code s).0)
          ≡ false
        → IsListed (service.create_method store a "Canada Post" code s).1

module _ {S : Type 0} (service : Service S) (store : ℤ) (a : Attempt)
    (keeps : Keeps service store a) where
  abbrev pub Listed : S → Type 0
  Listed s = IsListed service store a s

  -- the run leaves a state that lists the name, if it succeeds
  abbrev pub IsGood {ℓ} : {A : Type ℓ} → Result A × S → Type ℓ
  IsGood run = (value : _) → run.0 ≡ ok value → Listed run.1

  -- an answer that is not a refusal
  accepted-Listed :
      (method : AdminShippingMethod) (code : String) (s : S) (c : Created)
      → method.name ≡ "Canada Post"
      → create_answer code (service.create_method store a method.name code s).0 ≡ c
      → is_refused c ≡ false
      → Listed (service.create_method store a method.name code s).1
  accepted-Listed method code s c named e answered =
      rw named (keeps.created code s (rw (sym named) (ap is_refused e ∙ answered)))

  pub create_with_codes-IsGood :
      (method : AdminShippingMethod) (failures codes : List String) (s : S)
      → method.name ≡ "Canada Post"
      → IsGood (create_with_codes service store a method failures codes s)
  unfolding create_with_codes
  create_with_codes-IsGood method failures [] s named = λ value h. absurd (cc h)
  create_with_codes-IsGood method failures (code ∷ codes) s named =
      let reply = service.create_method store a method.name (trim code) s in
      elim (Bool-cases (blank code)) [
        | inl e ↦ rw (e, create_with_codes) (create_with_codes-IsGood method failures codes s named)
        | inr e ↦
            rw (e, create_with_codes)
              (elim (Created-cases (create_answer (trim code) reply.0)) [
                | inl g ↦
                    rw (g, create_with_codes)
                      (λ _ _. accepted-Listed method (trim code) s existed named g refl)
                | inr (inl g) ↦
                    rw (g, create_with_codes)
                      (λ _ _. accepted-Listed method (trim code) s made named g refl)
                | inr (inr (f, g)) ↦
                    rw (g, create_with_codes)
                      (create_with_codes-IsGood method (failures ++ (f ∷ [])) codes reply.1 named)
              ])
      ]

  abbrev pub generic : List String → List (Option ShippingItem) → S → Result Bool × S
  generic codes items s = ensure_generic_canada_post_name service store a items codes s

  -- renaming changes nothing, or leaves the name listed
  rename_first-kept :
      (codes : List String) (items : List (Option ShippingItem)) (s : S)
      → ((rename_first service store a codes items s).0 ≡ ok false
          → (rename_first service store a codes items s).1 ≡ s)
        × ((rename_first service store a codes items s).0 ≡ ok true
            → Listed (rename_first service store a codes items s).1)
  unfolding rename_first
  rename_first-kept codes [] s = (λ _. refl, λ h. absurd (cc h))
  rename_first-kept codes (item ∷ items) s = elim (Option-cases (rename_id codes item)) [
    | inl e ↦ rw (e, rename_first) (rename_first-kept codes items s)
    | inr (id, e) ↦
        rw (e, rename_first) (λ h. absurd (update_answer-not_false id _ h), keeps.updated id s)
  ]

  pub generic-kept :
      (codes : List String) (items : List (Option ShippingItem)) (s : S)
      → ((generic codes items s).0 ≡ ok false → (generic codes items s).1 ≡ s)
        × ((generic codes items s).0 ≡ ok true → Listed (generic codes items s).1)
  unfolding ensure_generic_canada_post_name
  generic-kept codes items s = elim (Bool-cases (any (is_named target) items)) [
    | inl e ↦ rw e (λ _. refl, λ h. absurd (cc h))
    | inr e ↦ rw e (rename_first-kept codes items s)
  ]
