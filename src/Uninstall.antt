-- ===== src/Uninstall.antt =====
-- `UninstallPlugin` and `buildUninstallAuthAttempts` of service/plugin_uninstall.go. The connection and the calls of the
-- plugins service are parameters: what they answer to each attempt.
pub mod Accepted
use Prim.Native.String.{[] as nil, ◌∷◌ as cons}
use canada_post.Prelude.{
  ℕ, zero, suc, ℤ, String, List, [], ◌∷◌, ◌++◌, Option, none, some, Bool, true, false, not, ◌||◌,
  ◌==◌, Result, ok, err, refuse, ◌>>◌, any, is_positive, if◌then◌else◌,
}
use canada_post.Text.{◌⧺◌, trim, to_lower, has_prefix, is_empty, blank}

pub record Attempt : Type 0 where
  pub label : String
  pub authorization : String
  pub force_auth : Bool

pub record Response : Type 0 where
  pub success : Bool
  pub failure : Bool
  pub code : String
  pub message : String

-- `raw[n:]`
unfoldable pub drop_front : ℕ → String → String
drop_front zero s = s
drop_front (suc n) nil = ""
drop_front (suc n) (cons c s) = drop_front n s

-- the token without its scheme; `token` is trimmed
unfoldable pub raw_token : String → String
raw_token token = if has_prefix (to_lower token) "bearer " then trim (drop_front 7 token) else token

abbrev pub bool_text : Bool → String
bool_text true = "true"
bool_text false = "false"

abbrev pub attempt_key : Attempt → String
attempt_key a = a.authorization ⧺ "|" ⧺ bool_text a.force_auth

-- the loop over the candidates, with the keys seen
unfoldable pub filter_seen : List String → List Attempt → List Attempt
filter_seen seen [] = []
filter_seen seen (a ∷ rest) =
    let skipped = filter_seen seen rest in
    let kept = filter_seen (attempt_key a ∷ seen) rest in
    if any (λ k. k == attempt_key a) seen then skipped else a ∷ kept

abbrev pub attempt : String → String → Bool → Attempt
attempt label authorization force = record {
  label = label;
  authorization = authorization;
  force_auth = force;
}

abbrev pub candidates : String → List Attempt
candidates raw =
    attempt "bearer+x-force-auth" ("Bearer " ⧺ raw) true
    ∷ attempt "bearer" ("Bearer " ⧺ raw) false
    ∷ attempt "raw+x-force-auth" raw true
    ∷ attempt "raw" raw false
    ∷ []

unfoldable pub build_uninstall_auth_attempts : String → List Attempt
build_uninstall_auth_attempts token =
    let t = trim token in
    let raw = raw_token t in
    if is_empty t then [] else if is_empty raw then [] else filter_seen [] (candidates raw)

-- what is written down of an attempt that did not succeed; `none` when it did. The escapes of `%q` are left out.
unfoldable pub refusal : Attempt → Result (Option Response) → Option String
refusal a (err e) = some (a.label ⧺ " grpc error: " ⧺ e)
refusal a (ok none) = some (a.label ⧺ " empty response")
refusal a (ok (some r)) =
    if r.failure || not r.success
    then some (
        a.label
        ⧺ " rejected (success="
        ⧺ bool_text r.success
        ⧺ " failure="
        ⧺ bool_text r.failure
        ⧺ " code="
        ⧺ trim r.code
        ⧺ " message=\""
        ⧺ trim r.message
        ⧺ "\")")
    else none

-- `strings.Join(failures, " | ")`
unfoldable pub joined : List String → String
joined [] = ""
joined (f ∷ []) = f
joined (f ∷ g ∷ fs) = f ⧺ " | " ⧺ joined (g ∷ fs)

-- the error of `grpc.DialContext`, with where it comes from
abbrev connected : Result (Unit {0}) → Result (Unit {0})
connected (ok u) = ok u
connected (err e) = err ("failed to connect to plugins grpc: " ⧺ e)

abbrev pub no_attempts : List Attempt → Bool
no_attempts [] = true
no_attempts (_ ∷ _) = false

module _ (call : Attempt → Result (Option Response)) where
  -- the loop over the attempts: the first that succeeds ends it
  unfoldable pub try_attempts : List String → List Attempt → Result (Unit {0})
  try_attempts failures [] = err ("gRPC UnInstallPlugin failed: " ⧺ joined failures)
  try_attempts failures (a ∷ rest) = elim (refusal a (call a)) [
    | none ↦ ok tt
    | some f ↦ try_attempts (failures ++ (f ∷ [])) rest
  ]

  unfoldable pub uninstall_plugin :
      Result (Unit {0}) → String → ℤ → String → String → Result (Unit {0})
  uninstall_plugin dialed addr store_id token plugin_code =
      let attempts = build_uninstall_auth_attempts token in
      do
        refuse (blank addr) "plugins grpc address is required"
        refuse (not (is_positive store_id)) "store id is required"
        refuse (blank token) "access token is required"
        refuse (blank plugin_code) "plugin code is required"
        connected dialed
        refuse (no_attempts attempts) "no valid authorization attempts for uninstall grpc"
        try_attempts [] attempts
