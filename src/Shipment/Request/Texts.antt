-- ===== src/Shipment/Request/Texts.antt =====
-- What the checks of one text say of its length, and of the text that is sent for it. The lengths are those of
-- the trimmed texts, as `runeLen` counts them.
use Prim.Native.String.{[] as nil, ◌∷◌ as cons}
use canada_post.Prelude.{
  refuse-ok, ℕ, String, Bool, true, false, not, ◌≡◌, refl, sym, subst, ◌⊎◌, inl, inr, ◌≤◌, arith,
  Result, ok, err, refuse, >>-eq-ok, nat_eq, Bool-cases, if◌then◌else◌,
}
use canada_post.Text.{trim, is_empty, blank}
use canada_post.Text.Laws.{trim_idem}
use canada_post.Snapshot.{default_value}
use canada_post.Shipment.Phone.{rune_count, rune_len, validate_canada_post_phone}
use canada_post.Shipment.Validate.{explain, require_text, limit_text, require_province}
use canada_post.Shipment.Payload.{sanitize_address_line}

-- the trimmed text has `least` to `most` runes
abbrev pub Fits : ℕ → ℕ → String → Type 0
Fits least most s = (least ≤ rune_len s) × (rune_len s ≤ most)

pub empty_rune_len : rune_len "" ≡ 0
unfolding rune_len trim rune_count
empty_rune_len = refl

pub some_runes : (s : String) → is_empty s ≡ false → 1 ≤ rune_count s
unfolding rune_count
some_runes nil h = absurd (cc h)
some_runes (cons c s) h = omega arith

pub rune_len-trim : (s : String) → rune_len (trim s) ≡ rune_len s
unfolding rune_len
rune_len-trim s = rw trim_idem

pub filled : (s : String) → is_empty (trim s) ≡ false → 1 ≤ rune_len s
unfolding rune_len
filled s h = some_runes (trim s) h

pub explain-ok : (w : String) (m : Result (Unit {0})) → explain w m ≡ ok tt → m ≡ ok tt
explain-ok w (ok tt) h = refl
explain-ok w (err e) h = absurd (cc h)

pub if-ok :
    (c : Bool) (a b : Result (Unit {0})) → (if c then a else b) ≡ ok tt → (a ≡ ok tt) ⊎ (b ≡ ok tt)
if-ok true a b h = inl h
if-ok false a b h = inr h

pub require_text-Fits :
    (s : String) (most : ℕ) (m l : String) → require_text (trim s) most m l ≡ ok tt → Fits 1 most s
unfolding require_text
require_text-Fits s most m l h =
    let (h0, h1) = (>>-eq-ok _ _ _).0 h in
    (filled s (refuse-ok _ _ h0), ground (arith, refuse-ok _ _ h1, rune_len-trim s))

pub limit_text-short :
    (s : String) (most : ℕ) (l : String) → limit_text s most l ≡ ok tt → rune_len s ≤ most
unfolding limit_text
limit_text-short nil most l h = ground (arith, empty_rune_len)
limit_text-short (cons c s) most l h = ground (arith, refuse-ok _ _ h)

pub require_province-Fits : (s m w : String) → require_province (trim s) m w ≡ ok tt → Fits 2 2 s
unfolding require_province
require_province-Fits s m w h =
    let (_, h1) = (>>-eq-ok (refuse (is_empty (trim s)) m) _ _).0 h in
    ground (arith, refuse-ok (not (nat_eq (rune_len (trim s)) 2)) w h1, rune_len-trim s)

-- a line within the limit is sent trimmed and whole
pub sanitize_address_line-fine : (s : String) → Fits 1 44 s → sanitize_address_line s ≡ trim s
unfolding sanitize_address_line rune_len
sanitize_address_line-fine s (lo, hi) = ground arith

pub sanitize_address_line-Fits : (s : String) → Fits 1 44 s → Fits 1 44 (sanitize_address_line s)
sanitize_address_line-Fits s h =
    subst (λ t. Fits 1 44 t) (sym (sanitize_address_line-fine s h))
      (ground (arith, rune_len-trim s, h.0, h.1))

pub limit_text-trim :
    (s : String) (most : ℕ) (l : String) → limit_text (trim s) most l ≡ ok tt → rune_len s ≤ most
limit_text-trim s most l h = ground (arith, limit_text-short (trim s) most l h, rune_len-trim s)

pub two_short : (s : String) → Fits 2 2 s → rune_len s ≤ 20
two_short s (_, h) = omega arith

pub sender_length : rune_len "Sender" ≡ 6
unfolding rune_len rune_count trim
sender_length = refl

pub recipient_length : rune_len "Recipient" ≡ 9
unfolding rune_len rune_count trim
recipient_length = refl

pub sender_Fits : Fits 1 44 "Sender"
sender_Fits = ground (arith, sender_length)

pub recipient_Fits : Fits 1 44 "Recipient"
recipient_Fits = ground (arith, recipient_length)

pub validate_canada_post_phone-trim :
    (s : String) → validate_canada_post_phone (trim s) ≡ validate_canada_post_phone s
unfolding validate_canada_post_phone
validate_canada_post_phone-trim s = rw trim_idem

-- a text with a fallback that is there
pub default_value-Fits :
    (n : ℕ) (s fallback : String)
    → rune_len s ≤ n
    → Fits 1 n fallback
    → Fits 1 n (default_value s fallback)
unfolding default_value
default_value-Fits n s fallback short h = elim (Bool-cases (blank s)) [
  | inl e ↦ rw e h
  | inr e ↦ rw e (filled s e, short)
]
