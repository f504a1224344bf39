-- ===== src/SettingsPage/Handler/Saved.antt =====
-- The forms of the settings page change data of their client only.
use canada_post.Prelude.{
  ℤ, String, List, none, some, ◌==◌, Result, ◌≡◌, refl, All, Bool-cases, Option-cases, Result-cases,
  inl, inr,
}
use canada_post.Text.{trim, is_empty}
use canada_post.Float64.{Float64, at_most_zero}
use canada_post.Sessions.{Tokens}
use canada_post.SettingsPage.Values.{normalize_postal_code, is_valid_canadian_postal_code}
use canada_post.SettingsPage.{
  SettingsRequest, Write, save_currency_rate, fetch_post_offices, save_default_postal_code,
  delete_postal_code, save_shipping_settings, save_state, SettingsWorld, Saved, then_write,
  finish_post,
}
use canada_post.SettingsPage.Forms.{
  save_rate, save_default, is_nothing, search_offices, save_office_search, save_office_delete,
  save_office_default, save_settings, save_form,
}

module _ ⦃fl : Float64⦄ where
  -- the client whose data a write changes
  abbrev pub client_of_write : Write fl.Value → ℤ
  client_of_write (save_currency_rate client _ _) = client
  client_of_write (fetch_post_offices client _) = client
  client_of_write (save_default_postal_code client _) = client
  client_of_write (delete_postal_code client _) = client
  client_of_write (save_shipping_settings client _ _) = client
  client_of_write (save_state client _) = client

  abbrev pub AreFor : ℤ → List (Write fl.Value) → Type 0
  AreFor client writes = All (λ e. client_of_write e ≡ client) writes

  module _ (w : SettingsWorld) (client : ℤ) where
    then_write-AreFor :
        (event : Write fl.Value) (message : String) (next : Saved)
        → client_of_write event ≡ client
        → AreFor client next.0
        → AreFor client (then_write w event message next).0
    then_write-AreFor event message next h k = elim (Result-cases (w.write event)) [
      | inl (_, e) ↦ rw (e, then_write) (h, k)
      | inr (_, e) ↦ rw (e, then_write) (h, tt)
    ]

    save_rate-AreFor : (code value : String) → AreFor client (save_rate w client code value).0
    unfolding save_rate
    save_rate-AreFor code value = elim (Bool-cases (is_empty code)) [
      | inl e ↦ rw e tt
      | inr e ↦ rw e (elim (Bool-cases (is_empty value)) [
        | inl f ↦ rw f tt
        | inr f ↦ rw f (elim (Option-cases (fl.parse_float value)) [
          | inl g ↦ rw g tt
          | inr (rate, g) ↦ rw g (elim (Bool-cases (at_most_zero rate)) [
            | inl h ↦ rw h tt
            | inr h ↦ rw h (then_write-AreFor (save_currency_rate client code rate) _ _ refl tt)
          ])
        ])
      ])
    ]

    save_default-AreFor : (code : String) → AreFor client (save_default w client code).0
    save_default-AreFor code = then_write-AreFor (save_default_postal_code client code) _ _ refl tt

    search_offices-AreFor :
        (code : String) (stored : ℤ → String → Result Prim.Native.Nat.ℕ)
        → AreFor client (search_offices w client code stored).0
    unfolding search_offices
    search_offices-AreFor code stored = elim (Result-cases (stored client code)) [
      | inr (_, e) ↦ rw (e, search_offices) tt
      | inl (n, e) ↦
          rw (e, search_offices)
            (elim (Bool-cases (is_nothing n)) [
              | inr f ↦ rw f (save_default-AreFor code)
              | inl f ↦ rw f (
                  then_write-AreFor (fetch_post_offices client code) _ _ refl
                    (save_default-AreFor code))
            ])
    ]

    save_office_search-AreFor : (code : String) → AreFor client (save_office_search w client code).0
    unfolding save_office_search
    save_office_search-AreFor code = elim (Bool-cases (is_empty code)) [
      | inl e ↦ rw e tt
      | inr e ↦ rw e (elim (Bool-cases (is_valid_canadian_postal_code code)) [
        | inr f ↦ rw f tt
        | inl f ↦ rw f (elim (Option-cases w.stored_offices) [
          | inl g ↦ rw g tt
          | inr (stored, g) ↦ rw g (search_offices-AreFor code stored)
        ])
      ])
    ]

    save_office_delete-AreFor : (code : String) → AreFor client (save_office_delete w client code).0
    unfolding save_office_delete
    save_office_delete-AreFor code = elim (Bool-cases (is_empty code)) [
      | inl e ↦ rw e tt
      | inr e ↦ rw e (elim (Option-cases w.stored_offices) [
        | inl g ↦ rw g tt
        | inr (_, g) ↦ rw g (then_write-AreFor (delete_postal_code client code) _ _ refl tt)
      ])
    ]

    save_office_default-AreFor :
        (code : String) → AreFor client (save_office_default w client code).0
    unfolding save_office_default
    save_office_default-AreFor code = elim (Bool-cases (is_empty code)) [
      | inl e ↦ rw e tt
      | inr e ↦ rw e (elim (Bool-cases (is_valid_canadian_postal_code code)) [
        | inr f ↦ rw f tt
        | inl f ↦ rw f (save_default-AreFor code)
      ])
    ]

    save_settings-AreFor :
        (account : String) (services : List String)
        → AreFor client (save_settings w client account services).0
    unfolding save_settings
    save_settings-AreFor account services = elim (Bool-cases (is_empty account)) [
      | inl e ↦ rw e tt
      | inr e ↦
          rw e (then_write-AreFor (save_shipping_settings client account services) _ _ refl tt)
    ]

    pub save_form-AreFor : (r : SettingsRequest) → AreFor client (save_form w r client).0
    unfolding save_form
    save_form-AreFor r =
        let kind = trim (r.form_value "form_type") in
        let code = normalize_postal_code (r.form_value "postal_code") in
        elim (Bool-cases (kind == "currency")) [
          | inl e ↦ rw e (save_rate-AreFor _ _)
          | inr e ↦ rw e (elim (Bool-cases (kind == "postoffice_search")) [
            | inl f ↦ rw f (save_office_search-AreFor code)
            | inr f ↦ rw f (elim (Bool-cases (kind == "postoffice_delete")) [
              | inl g ↦ rw g (save_office_delete-AreFor code)
              | inr g ↦ rw g (elim (Bool-cases (kind == "postoffice_default")) [
                | inl h ↦ rw h (save_office_default-AreFor code)
                | inr h ↦ rw h (save_settings-AreFor _ _)
              ])
            ])
          ])
        ]

    pub finish_post-AreFor :
        (r : SettingsRequest) (m : Tokens) (saved : Saved)
        → AreFor client saved.0
        → AreFor client (finish_post w r client m saved).writes
    unfolding finish_post
    finish_post-AreFor r m (writes, some page) h = h
    finish_post-AreFor r m (writes, none) h = elim (Result-cases w.new_token) [
      | inl (_, e) ↦ rw e h
      | inr (_, e) ↦ rw e h
    ]
