-- ===== src/Uninstall/Accepted.antt =====
-- When an uninstall succeeds.
use canada_post.Prelude.{
  ℤ, String, List, [], ◌∷◌, ◌++◌, Option, none, some, Bool, true, false, not, ◌||◌, ◌≡◌, refl, ◌↔◌,
  Result, ok, err, refuse-ok, refuse-not-ok, >>-eq-ok, any, is_positive, Option-cases, inl, inr,
  arith,
}
use canada_post.Text.{blank}
use canada_post.Uninstall.{
  Attempt, Response, build_uninstall_auth_attempts, connected, refusal, try_attempts, no_attempts,
  uninstall_plugin,
}

-- the service says success, and does not say failure
abbrev pub is_accepted : Result (Option Response) → Bool
is_accepted (err _) = false
is_accepted (ok none) = false
is_accepted (ok (some r)) = not (r.failure || not r.success)

connected-ok : (dialed : Result (Unit {0})) → connected dialed ≡ ok tt → dialed ≡ ok tt
connected-ok (ok tt) h = refl
connected-ok (err e) h = absurd (cc h)

abbrev is_none : Option String → Bool
is_none none = true
is_none (some _) = false

refusal-none : (a : Attempt) (r : Result (Option Response)) → is_none (refusal a r) ≡ is_accepted r
unfolding refusal
refusal-none a (err e) = refl
refusal-none a (ok none) = refl
refusal-none a (ok (some r)) = ground arith

module _ (call : Attempt → Result (Option Response)) where
  try_attempts_iff :
      (failures : List String) (rest : List Attempt)
      → (try_attempts call failures rest ≡ ok tt) ↔ (any (λ a. is_accepted (call a)) rest ≡ true)
  unfolding try_attempts
  try_attempts_iff failures [] = (λ h. absurd (cc h), λ h. absurd (cc h))
  try_attempts_iff failures (a ∷ rest) = elim (Option-cases (refusal a (call a))) [
    | inl e ↦ rw (e, try_attempts) (ground (arith, refusal-none a (call a)))
    | inr (f, e) ↦
        rw (e, try_attempts)
          (ground (arith, refusal-none a (call a), try_attempts_iff (failures ++ (f ∷ [])) rest))
  ]

  no_attempts-any :
      (attempts : List Attempt)
      → any (λ a. is_accepted (call a)) attempts ≡ true
      → no_attempts attempts ≡ false
  no_attempts-any [] h = absurd (cc h)
  no_attempts-any (a ∷ rest) h = refl

  -- An uninstall succeeds exactly if its address, store, token and plugin code are given, the service is reached, and it accepts at
  -- least one of the attempts that are made of the token; one accepted attempt outweighs all refused ones before it.
  pub uninstall_plugin_iff :
      (dialed : Result (Unit {0})) (addr : String) (store_id : ℤ) (token plugin_code : String)
      → (uninstall_plugin call dialed addr store_id token plugin_code ≡ ok tt) ↔ (
          (blank addr ≡ false)
          × (is_positive store_id ≡ true)
          × (blank token ≡ false)
          × (blank plugin_code ≡ false)
          × (dialed ≡ ok tt)
          × (any (λ a. is_accepted (call a)) (build_uninstall_auth_attempts token) ≡ true))
  unfolding uninstall_plugin
  uninstall_plugin_iff dialed addr store_id token plugin_code =
      let attempts = build_uninstall_auth_attempts token in
      (
        λ h.
            let (a, h1) = (>>-eq-ok _ _ _).0 h in
            let (b, h2) = (>>-eq-ok _ _ _).0 h1 in
            let (c, h3) = (>>-eq-ok _ _ _).0 h2 in
            let (d, h4) = (>>-eq-ok _ _ _).0 h3 in
            let (e, h5) = (>>-eq-ok _ _ _).0 h4 in
            let (_, tried) = (>>-eq-ok _ _ _).0 h5 in
            (
              refuse-ok _ _ a,
              refuse-not-ok _ _ b,
              refuse-ok _ _ c,
              refuse-ok _ _ d,
              connected-ok dialed e,
              (try_attempts_iff [] attempts).0 tried,
            ),
        λ (a, b, c, d, e, f). rw a (
            rw b (
              rw c (
                rw d
                  (rw e (rw (no_attempts-any attempts f) ((try_attempts_iff [] attempts).1 f)))))),
      )
