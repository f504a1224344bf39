-- ===== src/Admin/Codes.antt =====
-- `resolvePluginCodes` of service/admin_shipping_methods.go: the codes of the installed shipping plugins, the likely ones
-- first. The reply of the plugins service is an argument.
pub mod Order
use canada_post.Prelude.{
  ℕ, zero, suc, ltb, String, List, [], ◌∷◌, Option, none, some, Bool, not, ◌||◌, ◌==◌, Result, ok,
  err, any, length, if◌then◌else◌,
}
use canada_post.Text.{trim, to_lower, contains, is_empty, equal_fold}

pub record Plugin : Type 0 where
  pub plugin_installed : Bool
  pub plugin_code : String
  pub plugin_name : String

pub record PluginsReply : Type 0 where
  pub failure : Bool
  pub plugins : List (Option Plugin)

pub record Candidate : Type 0 where
  pub code : String
  pub priority : ℕ

unfoldable pub priority_of : String → String → ℕ
priority_of code name =
    let priority = if contains name "canada" || contains name "post" then 10 else 50 in
    if equal_fold code "shipstation" then 20 else priority

-- the first loop: the candidates
unfoldable pub plugin_candidates : List (Option Plugin) → List Candidate
plugin_candidates [] = []
plugin_candidates (none ∷ plugins) = plugin_candidates plugins
plugin_candidates (some p ∷ plugins) =
    let rest = plugin_candidates plugins in
    let code = trim p.plugin_code in
    if not p.plugin_installed || is_empty code
    then rest
    else record { code = code; priority = priority_of code (to_lower (trim p.plugin_name)) } ∷ rest

-- the inner loop from here on, the best priority so far given: where it last sets `best`, if it does
unfoldable pub best_after : ℕ → List Candidate → Option ℕ
best_after priority [] = none
best_after priority (c ∷ cs) =
    let from_here = best_after c.priority cs in
    let further = best_after priority cs in
    if ltb c.priority priority
    then elim from_here [ none ↦ some 0 | some k ↦ some (suc k) ]
    else elim further [ none ↦ none | some k ↦ some (suc k) ]

-- the swap of a candidate with the one at a position behind it
unfoldable pub exchange : ℕ → Candidate → List Candidate → Candidate × List Candidate
exchange k c [] = (c, [])
exchange zero c (d ∷ ds) = (d, c ∷ ds)
exchange (suc k) c (d ∷ ds) = let (best, rest) = exchange k c ds in (best, d ∷ rest)

abbrev pub exchange_at : Option ℕ → Candidate → List Candidate → Candidate × List Candidate
exchange_at none c cs = (c, cs)
exchange_at (some k) c cs = exchange k c cs

unfoldable pub bring_best : Candidate → List Candidate → Candidate × List Candidate
bring_best c cs = exchange_at (best_after c.priority cs) c cs

-- the outer loop, one turn for each candidate
unfoldable pub pick_codes : ℕ → List String → List Candidate → List String
pick_codes zero seen cs = []
pick_codes (suc n) seen [] = []
pick_codes (suc n) seen (c ∷ cs) =
    let best = (bring_best c cs).0 in
    let rest = (bring_best c cs).1 in
    let code = trim best.code in
    let key = to_lower code in
    let skipped = pick_codes n seen rest in
    let kept = pick_codes n (key ∷ seen) rest in
    if is_empty key || any (λ k. k == key) seen then skipped else code ∷ kept

unfoldable pub resolve_plugin_codes : Result (Option PluginsReply) → List String
resolve_plugin_codes (err e) = []
resolve_plugin_codes (ok none) = []
resolve_plugin_codes (ok (some reply)) =
    let candidates = plugin_candidates reply.plugins in
    if reply.failure then [] else pick_codes (length candidates) [] candidates
