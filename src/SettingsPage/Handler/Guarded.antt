-- ===== src/SettingsPage/Handler/Guarded.antt =====
-- Who can change the settings, and for whom.
use canada_post.Prelude.{ℤ, [], ◌∷◌, true, ◌≡◌, ◌⊎◌}
use canada_post.Text.{trim}
use canada_post.Float64.{Float64}
use canada_post.Sessions.{Tokens, consume_session_token}
use canada_post.SettingsPage.Values.{parse_client_id}
use canada_post.SettingsPage.{SettingsRequest, oauth, save_state, SettingsWorld, SettingsOutcome}
use canada_post.SettingsPage.Handler.Saved.{AreFor}

module _ ⦃fl : Float64⦄ (w : SettingsWorld) (r : SettingsRequest) (m : Tokens) where
  abbrev pub client_of : ℤ
  client_of = parse_client_id w.parse_int (r.query_value "client_id")

  -- the token of the form was one of the client's, and is consumed by the request
  abbrev pub IsSpent : Type 0
  IsSpent =
      (r.method ≡ "POST")
      × ((consume_session_token client_of (trim (r.form_value "session_token")) w.now m).1 ≡ true)

  abbrev pub IsAuthorizing : SettingsOutcome → Type 0
  IsAuthorizing out =
      (out.page ≡ oauth w.new_state) × (out.writes ≡ save_state client_of w.new_state ∷ [])

  abbrev pub IsGuarded : SettingsOutcome → Type 0
  IsGuarded out = (out.writes ≡ []) ⊎ IsAuthorizing out ⊎ (IsSpent × AreFor client_of out.writes)
