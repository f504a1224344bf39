-- ===== src/Sessions.antt =====
-- The one-time tokens of the settings page: `App.tokens` of protocol/http/app.go and the three methods on it.
-- Each method holds the mutex from its first read to its last write, so it is one step. Times are
-- counted in nanoseconds; the random text of a new token is an argument.
pub mod Once
use canada_post.Prelude.{
  ℕ, ◌+◌, ℤ, String, List, [], ◌∷◌, Option, none, some, Bool, true, false, not, ◌||◌, ltb, int_eq,
  if◌then◌else◌,
}
use canada_post.Dict.{Dict, find, put, drop}

pub record SettingsAccessToken : Type 0 where
  pub client_id : ℤ
  pub expires : ℕ
  pub used : Bool

abbrev pub Tokens : Type 0
Tokens = Dict SettingsAccessToken

unfoldable pub create_session_token : ℤ → String → ℕ → ℕ → Tokens → Tokens
create_session_token client token now ttl =
    put token (record { client_id = client; expires = now + ttl; used = false })

-- the test that both readers make
unfoldable pub is_refused : SettingsAccessToken → ℤ → ℕ → Bool
is_refused entry client now =
    entry.used || ltb entry.expires now || not (int_eq entry.client_id client)

abbrev consume_entry : Option SettingsAccessToken → ℤ → String → ℕ → Tokens → Tokens × Bool
consume_entry none client token now m = (m, false)
consume_entry (some entry) client token now m =
    if is_refused entry client now
    then (drop token m, false)
    else (put token (record entry { used = true }) m, true)

unfoldable pub consume_session_token : ℤ → String → ℕ → Tokens → Tokens × Bool
consume_session_token client token now m = consume_entry (find token m) client token now m

abbrev validate_entry : Option SettingsAccessToken → ℤ → String → ℕ → Tokens → Tokens × Bool
validate_entry none client token now m = (m, false)
validate_entry (some entry) client token now m =
    if is_refused entry client now then (drop token m, false) else (m, true)

unfoldable pub validate_session_token : ℤ → String → ℕ → Tokens → Tokens × Bool
validate_session_token client token now m = validate_entry (find token m) client token now m
