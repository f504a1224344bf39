-- ===== src/Admin/Ensure/Idempotent.antt =====
-- Calling `ensureWithAttempt` again changes nothing.
use canada_post.Prelude.{
  ℕ, ℤ, String, List, [], ◌∷◌, ◌++◌, Option, true, false, ◌==◌, Result, ok, err, any, if◌then◌else◌,
  ◌≡◌, refl, sym, ap, ◌∙◌, eq_refl, Bool-cases, Result-cases, is_positive, inl, inr,
}
use mathlib.Core.List.{Memᴰ}
use canada_post.Text.{◌⧺◌, trim, blank}
use canada_post.Uninstall.{Attempt, no_attempts}
use canada_post.Admin.{
  ShippingItem, AdminShippingMethod, canada_post_admin_shipping_methods, is_named,
  build_shipping_auth_attempts,
}
use canada_post.Admin.Codes.{resolve_plugin_codes}
use canada_post.Admin.Ensure.{
  Service, listed_items, existing_names, or_default, create_with_codes,
  ensure_generic_canada_post_name, ensure_methods, ensure_items, ensure_with_attempt,
  ensure_attempts, ensure_canada_post_admin_shipping_methods, dialed_or,
}
use canada_post.Admin.Ensure.Listed.{
  target, target-filled, names_it, existing_names-any, Keeps, IsListed, IsGood,
  create_with_codes-IsGood, generic-kept,
}

abbrev the_method : AdminShippingMethod
the_method = record { name = "Canada Post"; service_code = "CANADA_POST_PLUGIN" }

module _ {S : Type 0} (service : Service S) (store : ℤ) (a : Attempt) where
  methods-present :
      (codes names : List String) (n : ℕ) (s : S)
      → any (λ k. k == target) names ≡ true
      → ensure_methods service store a canada_post_admin_shipping_methods codes names n s
        ≡ (ok n, s)
  unfolding ensure_methods
  methods-present codes names n s h =
      rw (target-filled, ensure_methods) (rw (h, ensure_methods) refl)

  generic-listed :
      (codes : List String) (items : List (Option ShippingItem)) (s : S)
      → any (is_named target) items ≡ true
      → ensure_generic_canada_post_name service store a items codes s ≡ (ok false, s)
  unfolding ensure_generic_canada_post_name
  generic-listed codes items s named = rw named refl

  items-again :
      (items : List (Option ShippingItem)) (s : S)
      → any (is_named target) items ≡ true
      → ensure_items service store a items s ≡ (ok 0, s)
  unfolding ensure_items
  items-again items s named =
      let codes = or_default (resolve_plugin_codes (service.get_all_plugins store a s)) in
      rw (generic-listed codes items s named, ensure_items)
        (rw (generic-listed codes items s named)
          (methods-present codes _ 0 s (existing_names-any target items target-filled ∙ named)))

  -- a state that lists the name is left as it is
  listed-again :
      (s : S) → IsListed service store a s → ensure_with_attempt service store a s ≡ (ok 0, s)
  unfolding ensure_with_attempt
  listed-again s h = elim (Result-cases (listed_items (service.get_methods store a s))) [
    | inr (_, e) ↦ absurd (cc (h, ap names_it e))
    | inl (items, e) ↦ rw (e, ensure_with_attempt) (items-again items s (ap names_it (sym e) ∙ h))
  ]

module _ {S : Type 0} (service : Service S) (store : ℤ) (a : Attempt)
    (keeps : Keeps service store a) where
  methods-IsGood :
      (codes names : List String) (n : ℕ) (s : S)
      → any (λ k. k == target) names ≡ false
      → IsGood service store a keeps
          (ensure_methods service store a canada_post_admin_shipping_methods codes names n s)
  unfolding ensure_methods
  methods-IsGood codes names n s h =
      let done = create_with_codes service store a the_method [] codes s in
      rw (target-filled, ensure_methods)
        (rw (h, ensure_methods)
          (elim (Result-cases done.0) [
            | inr (e, g) ↦ rw (g, ensure_methods) (λ _ k. absurd (cc k))
            | inl (new, g) ↦
                rw (g, ensure_methods)
                  (λ _ _.
                    create_with_codes-IsGood service store a keeps the_method [] codes s refl new g)
          ]))

  items-IsGood :
      (items : List (Option ShippingItem)) (s : S)
      → listed_items (service.get_methods store a s) ≡ ok items
      → IsGood service store a keeps (ensure_items service store a items s)
  unfolding ensure_items
  items-IsGood items s e =
      let codes = or_default (resolve_plugin_codes (service.get_all_plugins store a s)) in
      let names = existing_names items in
      let run = ensure_generic_canada_post_name service store a items codes s in
      let (same, listed) = generic-kept service store a keeps codes items s in
      let back = ap names_it e ∙ sym (existing_names-any target items target-filled) in
      elim (Result-cases run.0) [
        | inr (_, g) ↦ rw (g, ensure_items) (λ _ k. absurd (cc k))
        | inl (true, g) ↦
            rw (g, ensure_items)
              (rw
                (methods-present service store a codes (target ∷ names) 0 run.1
                  (rw (eq_refl target) refl))
                (λ _ _. listed g))
        | inl (false, g) ↦
            rw (g, ensure_items)
              (rw (same g) (elim (Bool-cases (any (λ k. k == target) names)) [
                | inl h ↦ rw (methods-present service store a codes names 0 s h) (λ _ _. back ∙ h)
                | inr h ↦ methods-IsGood codes names 0 s h
              ]))
      ]

  ensure_with_attempt-IsGood :
      (s : S) → IsGood service store a keeps (ensure_with_attempt service store a s)
  unfolding ensure_with_attempt
  ensure_with_attempt-IsGood s =
      elim (Result-cases (listed_items (service.get_methods store a s))) [
        | inr (_, e) ↦ rw (e, ensure_with_attempt) (λ _ k. absurd (cc k))
        | inl (items, e) ↦ rw (e, ensure_with_attempt) (items-IsGood items s e)
      ]

  -- Once `ensureWithAttempt` has succeeded, calling it again with the same attempt makes no method and leaves the
  -- service as it is, if the service lists each method that it says it has renamed, made or found there.
  pub ensure_with_attempt-again :
      (s : S) (created : ℕ)
      → (ensure_with_attempt service store a s).0 ≡ ok created
      → ensure_with_attempt service store a (ensure_with_attempt service store a s).1
        ≡ (ok 0, (ensure_with_attempt service store a s).1)
  ensure_with_attempt-again s created h =
      listed-again service store a _ (ensure_with_attempt-IsGood s created h)

module _ {S : Type 0} (service : Service S) (store : ℤ)
    (keeps : (a : Attempt) → Keeps service store a) where
  -- one of the attempts has nothing to do in this state
  abbrev pub IsSettled : List Attempt → S → Type 0
  IsSettled attempts s =
      (a : Attempt) × Memᴰ a attempts × (ensure_with_attempt service store a s ≡ (ok 0, s))

  ensure_attempts-IsSettled :
      (failures : List String) (attempts : List Attempt) (s : S) (created : ℕ)
      → (ensure_attempts service store failures attempts s).0 ≡ ok created
      → IsSettled attempts (ensure_attempts service store failures attempts s).1
  unfolding ensure_attempts
  ensure_attempts-IsSettled failures [] s created = λ h. absurd (cc h)
  ensure_attempts-IsSettled failures (a ∷ attempts) s created =
      let done = ensure_with_attempt service store a s in
      elim (Result-cases done.0) [
        | inl (n, g) ↦
            rw (g, ensure_attempts)
              (λ _. (a, Memᴰ.head refl, ensure_with_attempt-again service store a (keeps a) s n g))
        | inr (e, g) ↦
            rw (g, ensure_attempts)
              (λ h.
                let (b, m, settled) =
                  ensure_attempts-IsSettled (failures ++ ((a.label ⧺ ": " ⧺ e) ∷ [])) attempts
                    done.1 created h in
                (b, Memᴰ.tail m, settled))
      ]

  -- A call of `EnsureCanadaPostAdminShippingMethods` that succeeds, after whatever attempts that failed, leaves the service in
  -- a state in which one of the attempts made of the token finds nothing to do, if the service lists each method that it says
  -- it has renamed, made or found there.
  pub ensure_canada_post_admin_shipping_methods-IsSettled :
      (dialed : Result (Unit {0})) (addr token : String) (s : S) (created : ℕ)
      → (ensure_canada_post_admin_shipping_methods service dialed addr store token s).0 ≡ ok created
      → IsSettled
          (build_shipping_auth_attempts (trim token))
          (ensure_canada_post_admin_shipping_methods service dialed addr store token s).1
  unfolding ensure_canada_post_admin_shipping_methods
  ensure_canada_post_admin_shipping_methods-IsSettled dialed addr token s created =
      let attempts = build_shipping_auth_attempts (trim token) in
      elim (Bool-cases (blank addr)) [
        | inl e ↦ rw e (λ h. absurd (cc h))
        | inr e ↦ rw e (elim (Bool-cases (is_positive store)) [
          | inr f ↦ rw f (λ h. absurd (cc h))
          | inl f ↦ rw f (elim (Bool-cases (blank token)) [
            | inl g ↦ rw g (λ h. absurd (cc h))
            | inr g ↦ rw g (reached dialed attempts s created)
          ])
        ])
      ]
    where
      reached :
          (d : Result (Unit {0})) (attempts : List Attempt) (s : S) (created : ℕ)
          → (dialed_or service d s (
              if no_attempts attempts
              then (err "no valid authorization attempts for shipping grpc", s)
              else ensure_attempts service store [] attempts s)).0
            ≡ ok created
          → IsSettled attempts
              (dialed_or service d s (
                if no_attempts attempts
                then (err "no valid authorization attempts for shipping grpc", s)
                else ensure_attempts service store [] attempts s)).1
      reached (err e) attempts s created = λ h. absurd (cc h)
      reached (ok _) [] s created = λ h. absurd (cc h)
      reached (ok _) (a ∷ attempts) s created =
          ensure_attempts-IsSettled [] (a ∷ attempts) s created
