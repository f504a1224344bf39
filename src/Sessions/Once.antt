-- ===== src/Sessions/Once.antt =====
-- A token is consumed at most once, whatever the requests that come between.
use canada_post.Prelude.{
  ℕ, ◌+◌, ℤ, String, List, [], ◌∷◌, Option, none, some, Bool, true, false, not, ◌&&◌, ltb, int_eq,
  ◌≡◌, refl, ap, ◌∙◌, sym, ◌==◌, arith, All, Bool-cases, Option-cases, inl, inr, eq_refl,
}
use canada_post.Dict.{find, put, drop}
use canada_post.Dict.Laws.{find-put, find-drop}
use canada_post.Sessions.{
  SettingsAccessToken, Tokens, create_session_token, is_refused, consume_session_token,
  validate_session_token,
}

-- one request's use of the tokens: which client, which token, at what time
pub data Use : Type 0 where
  create : ℤ → String → ℕ → ℕ → Use
  consume : ℤ → String → ℕ → Use
  validate : ℤ → String → ℕ → Use

abbrev pub after : Use → Tokens → Tokens
after (create client token now ttl) m = create_session_token client token now ttl m
after (consume client token now) m = (consume_session_token client token now m).0
after (validate client token now) m = (validate_session_token client token now m).0

abbrev pub after_all : List Use → Tokens → Tokens
after_all [] m = m
after_all (u ∷ us) m = after_all us (after u m)

-- the use does not issue this token anew
abbrev pub IsOther : String → Use → Type 0
IsOther token (create client t now ttl) = (t == token) ≡ false
IsOther token (consume client t now) = Unit
IsOther token (validate client t now) = Unit

abbrev spent_entry : Option SettingsAccessToken → Bool
spent_entry none = true
spent_entry (some entry) = entry.used

-- the token is missing, or used
abbrev IsSpent : String → Tokens → Type 0
IsSpent token m = spent_entry (find token m) ≡ true

create-IsSpent :
    (client : ℤ) (t token : String) (now ttl : ℕ) (m : Tokens)
    → (t == token) ≡ false
    → IsSpent token m
    → IsSpent token (create_session_token client t now ttl m)
unfolding create_session_token
create-IsSpent client t token now ttl m e h =
    rw (find-put t token (record { client_id = client; expires = now + ttl; used = false }) m)
      (rw e h)

drop-IsSpent : (t token : String) (m : Tokens) → IsSpent token m → IsSpent token (drop t m)
drop-IsSpent t token m h =
    rw (find-drop t token m) (elim (Bool-cases (t == token)) [ inl e ↦ rw e refl | inr e ↦ rw e h ])

put-IsSpent :
    (t token : String) (entry : SettingsAccessToken) (m : Tokens)
    → entry.used ≡ true
    → IsSpent token m
    → IsSpent token (put t entry m)
put-IsSpent t token entry m u h =
    rw (find-put t token entry m)
      (elim (Bool-cases (t == token)) [ inl e ↦ rw e u | inr e ↦ rw e h ])

put_used-IsSpent :
    (token : String) (entry : SettingsAccessToken) (m : Tokens)
    → entry.used ≡ true
    → IsSpent token (put token entry m)
put_used-IsSpent token entry m u = rw (find-put token token entry m) (rw (eq_refl token) u)

drop_own-IsSpent : (token : String) (m : Tokens) → IsSpent token (drop token m)
drop_own-IsSpent token m = rw (find-drop token token m) (rw (eq_refl token) refl)

consume-IsSpent :
    (client : ℤ) (t token : String) (now : ℕ) (m : Tokens)
    → IsSpent token m
    → IsSpent token (consume_session_token client t now m).0
unfolding consume_session_token
consume-IsSpent client t token now m h = elim (Option-cases (find t m)) [
  | inl e ↦ rw e h
  | inr (entry, e) ↦ rw e (elim (Bool-cases (is_refused entry client now)) [
    | inl r ↦ rw r (drop-IsSpent t token m h)
    | inr r ↦ rw r (put-IsSpent t token (record entry { used = true }) m refl h)
  ])
]

validate-IsSpent :
    (client : ℤ) (t token : String) (now : ℕ) (m : Tokens)
    → IsSpent token m
    → IsSpent token (validate_session_token client t now m).0
unfolding validate_session_token
validate-IsSpent client t token now m h = elim (Option-cases (find t m)) [
  | inl e ↦ rw e h
  | inr (entry, e) ↦ rw e (elim (Bool-cases (is_refused entry client now)) [
    | inl r ↦ rw r (drop-IsSpent t token m h)
    | inr r ↦ rw r h
  ])
]

after_all-IsSpent :
    (token : String) (us : List Use) (m : Tokens)
    → All (IsOther token) us
    → IsSpent token m
    → IsSpent token (after_all us m)
after_all-IsSpent token [] m _ h = h
after_all-IsSpent token (create c t now ttl ∷ us) m (o, os) h =
    after_all-IsSpent token us _ os (create-IsSpent c t token now ttl m o h)
after_all-IsSpent token (consume c t now ∷ us) m (o, os) h =
    after_all-IsSpent token us _ os (consume-IsSpent c t token now m h)
after_all-IsSpent token (validate c t now ∷ us) m (o, os) h =
    after_all-IsSpent token us _ os (validate-IsSpent c t token now m h)

-- after a use of the token itself it is spent, unless it was only validated
consumed-IsSpent :
    (client : ℤ) (token : String) (now : ℕ) (m : Tokens)
    → IsSpent token (consume_session_token client token now m).0
unfolding consume_session_token
consumed-IsSpent client token now m = elim (Option-cases (find token m)) [
  | inl e ↦ rw e (rw e refl)
  | inr (entry, e) ↦ rw e (elim (Bool-cases (is_refused entry client now)) [
    | inl r ↦ rw r (drop_own-IsSpent token m)
    | inr r ↦ rw r (put_used-IsSpent token (record entry { used = true }) m refl)
  ])
]

spent-refused :
    (client : ℤ) (token : String) (now : ℕ) (m : Tokens)
    → IsSpent token m
    → ((consume_session_token client token now m).1 ≡ false)
      × ((validate_session_token client token now m).1 ≡ false)
unfolding consume_session_token validate_session_token is_refused
spent-refused client token now m h = elim (Option-cases (find token m)) [
  | inl e ↦ rw e (refl, refl)
  | inr (entry, e) ↦
      let u : entry.used ≡ true = sym (ap spent_entry e) ∙ h in rw e (rw u (refl, refl))
]

-- Whoever tries to consume a token, with success or not, spends it: after any further uses of the tokens that do not
-- issue the same text anew, no client can consume or validate it at any time.
pub consume_session_token-once :
    (client later : ℤ) (token : String) (now then_ : ℕ) (m : Tokens) (us : List Use)
    → All (IsOther token) us
    → ((consume_session_token later token then_
          (after_all us (consume_session_token client token now m).0)).1
        ≡ false)
      × ((validate_session_token later token then_
            (after_all us (consume_session_token client token now m).0)).1
          ≡ false)
consume_session_token-once client later token now then_ m us os =
    spent-refused later token then_ _
      (after_all-IsSpent token us _ os (consumed-IsSpent client token now m))

-- A fresh token is good for the client it was issued to until its time is over, and for nobody else: it
-- is consumed exactly if the time is not past the expiry and the client is the same.
pub consume_session_token-create :
    (owner client : ℤ) (token : String) (now ttl at_ : ℕ) (m : Tokens)
    → (consume_session_token client token at_ (create_session_token owner token now ttl m)).1
      ≡ (not (ltb (now + ttl) at_) && int_eq owner client)
unfolding consume_session_token create_session_token is_refused
consume_session_token-create owner client token now ttl at_ m =
    let entry : SettingsAccessToken = record {
      client_id = owner;
      expires = now + ttl;
      used = false;
    } in
    rw (find-put token token entry m) (rw (eq_refl token) (ground arith))
