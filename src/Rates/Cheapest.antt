-- ===== src/Rates/Cheapest.antt =====
-- Each service is offered once, at its lowest price.
use canada_post.Prelude.{
  String, List, [], ◌∷◌, none, some, true, false, ◌==◌, ◌≡◌, refl, arith, Bool-cases, Option-cases,
  inl, inr, eq_iff, ◌⊎◌, sym, ap, ◌∙◌, subst, ◌++◌, All,
}
use canada_post.Text.{trim, is_empty}
use canada_post.Float64.{Float64}
use canada_post.Dict.{find, put}
use canada_post.Dict.Laws.{find-put}
use canada_post.Rates.{PriceQuote, Quotes, improve, take_quote, best_from}

module _ ⦃fl : Float64⦄ where
  -- the best quote of a service is there and `due` is not below its price
  abbrev pub IsCovered : String → fl.Value → Quotes → Type 0
  IsCovered id due m =
      (best : PriceQuote fl.Value) × (find id m ≡ some best) × (fl.lt due best.due ≡ false)

  -- what IEEE 754 says of `<`, also where NaN is compared
  pub record IsStrict : Type 0 where
    pub trans : (x y z : fl.Value) → fl.lt x y ≡ true → fl.lt y z ≡ true → fl.lt x z ≡ true
    pub irrefl : (x : fl.Value) → fl.lt x x ≡ false

  lt-below :
      IsStrict → (x y z : fl.Value) → fl.lt x y ≡ false → fl.lt z y ≡ true → fl.lt x z ≡ false
  lt-below law x y z ge lt = elim (Bool-cases (fl.lt x z)) [
    | inl e ↦ absurd (cc (law.trans x z y e lt, ge))
    | inr e ↦ e
  ]

  put-IsCovered :
      IsStrict
      → (id own : String) (due : fl.Value) (rate : PriceQuote fl.Value) (m : Quotes)
      → ((own ≡ id) → fl.lt due rate.due ≡ false)
      → IsCovered id due m ⊎ (own ≡ id)
      → IsCovered id due (put own rate m)
  put-IsCovered law id own due rate m h c = elim (Bool-cases (own == id)) [
    | inl e ↦ (rate, find-put own id rate m ∙ rw e refl, h ((eq_iff own id).0 e))
    | inr e ↦ elim c [
      | inl (best, f, ge) ↦ (best, find-put own id rate m ∙ rw e f, ge)
      | inr same ↦ absurd (cc ((eq_iff own id).1 same, e))
    ]
  ]

  same_best :
      (id own : String) (m : Quotes) (best other : PriceQuote fl.Value)
      → find id m ≡ some best
      → find own m ≡ some other
      → own ≡ id
      → best ≡ other
  same_best id own m best other f e same = cc (e, f, same)

  improve-IsCovered :
      IsStrict
      → (id own : String) (due : fl.Value) (rate : PriceQuote fl.Value) (m : Quotes)
      → IsCovered id due m
      → IsCovered id due (improve (find own m) own rate m)
  unfolding improve
  improve-IsCovered law id own due rate m (best, f, ge) = elim (Option-cases (find own m)) [
    | inl e ↦
        rw e (
          put-IsCovered law id own due rate m (λ same. absurd (cc (e, f, same)))
            (inl (best, f, ge)))
    | inr (other, e) ↦ rw e (elim (Bool-cases (fl.lt rate.due other.due)) [
      | inl lt ↦ rw lt (
          put-IsCovered law id own due rate m
            (λ same.
              lt-below law due other.due rate.due
                (subst (λ b. fl.lt due b.due ≡ false) (same_best id own m best other f e same) ge)
                lt)
            (inl (best, f, ge)))
      | inr keep ↦ rw keep (best, f, ge)
    ])
  ]

  take_quote-IsCovered :
      IsStrict
      → (id : String) (due : fl.Value) (rate : PriceQuote fl.Value) (m : Quotes)
      → IsCovered id due m
      → IsCovered id due (take_quote m rate)
  unfolding take_quote
  take_quote-IsCovered law id due rate m c = elim (Bool-cases (is_empty (trim rate.service_code))) [
    | inl e ↦ rw e c
    | inr e ↦ rw e (improve-IsCovered law id (trim rate.service_code) due rate m c)
  ]

  improve_own-IsCovered :
      IsStrict
      → (own : String) (rate : PriceQuote fl.Value) (m : Quotes)
      → IsCovered own rate.due (improve (find own m) own rate m)
  unfolding improve
  improve_own-IsCovered law own rate m =
      let put_own =
        put-IsCovered law own own rate.due rate m (λ _. law.irrefl rate.due) (inr refl) in
      elim (Option-cases (find own m)) [
        | inl e ↦ rw e put_own
        | inr (other, e) ↦ rw e (elim (Bool-cases (fl.lt rate.due other.due)) [
          | inl lt ↦ rw lt put_own
          | inr keep ↦ rw keep (other, e, keep)
        ])
      ]

  take_own-IsCovered :
      IsStrict
      → (rate : PriceQuote fl.Value) (m : Quotes) → is_empty (trim rate.service_code) ≡ false
      → IsCovered (trim rate.service_code) rate.due (take_quote m rate)
  unfolding take_quote
  take_own-IsCovered law rate m h = rw h (improve_own-IsCovered law (trim rate.service_code) rate m)

  best_from-keeps :
      IsStrict
      → (id : String) (due : fl.Value) (rates : List (PriceQuote fl.Value)) (m : Quotes)
      → IsCovered id due m
      → IsCovered id due (best_from m rates)
  unfolding best_from
  best_from-keeps law id due [] m c = c
  best_from-keeps law id due (r ∷ rates) m c =
      best_from-keeps law id due rates (take_quote m r) (take_quote-IsCovered law id due r m c)

  -- Every quote with a service code, wherever it stands in the reply, is answered by a quote kept for that service whose price it is
  -- not below, where `<` on prices is irreflexive and transitive: no service is kept at a price that another of its quotes undercuts.
  pub best_from-IsCovered :
      IsStrict
      → (before after : List (PriceQuote fl.Value)) (m : Quotes) (rate : PriceQuote fl.Value)
      → is_empty (trim rate.service_code) ≡ false
      → IsCovered (trim rate.service_code) rate.due (best_from m (before ++ (rate ∷ after)))
  unfolding best_from
  best_from-IsCovered law [] after m rate h =
      best_from-keeps law _ _ after (take_quote m rate) (take_own-IsCovered law rate m h)
  best_from-IsCovered law (r ∷ before) after m rate h =
      best_from-IsCovered law before after (take_quote m r) rate h

  -- the quote is kept under its own service code
  abbrev IsOwn : String × PriceQuote fl.Value → Type 0
  IsOwn (id, rate) = trim rate.service_code ≡ id

  abbrev IsDistinct : Quotes → Type 0
  IsDistinct [] = Unit
  IsDistinct ((id, rate) ∷ m) = (find id m ≡ none) × IsDistinct m

  -- one entry for each service, and each entry a quote of its service
  abbrev pub IsOffer : Quotes → Type 0
  IsOffer m = IsDistinct m × All IsOwn m

  put-IsDistinct :
      (id : String) (rate : PriceQuote fl.Value) (m : Quotes)
      → IsDistinct m
      → IsDistinct (put id rate m)
  unfolding put find
  put-IsDistinct id rate [] h = (refl, tt)
  put-IsDistinct id rate ((j, r) ∷ m) (fresh, h) = elim (Bool-cases (j == id)) [
    | inl e ↦ rw e (ap (λ k. find k m) (sym ((eq_iff j id).0 e)) ∙ fresh, h)
    | inr e ↦
        rw e (
          ground (arith, find-put id j rate m, eq_iff j id, eq_iff id j),
          put-IsDistinct id rate m h,
        )
  ]

  put-IsOwn :
      (id : String) (rate : PriceQuote fl.Value) (m : Quotes)
      → trim rate.service_code ≡ id
      → All IsOwn m
      → All IsOwn (put id rate m)
  unfolding put
  put-IsOwn id rate [] own h = (own, tt)
  put-IsOwn id rate ((j, r) ∷ m) own (o, h) = elim (Bool-cases (j == id)) [
    | inl e ↦ rw e (own, h)
    | inr e ↦ rw e (o, put-IsOwn id rate m own h)
  ]

  put-IsOffer :
      (rate : PriceQuote fl.Value) (m : Quotes)
      → IsOffer m
      → IsOffer (put (trim rate.service_code) rate m)
  put-IsOffer rate m (d, o) = (put-IsDistinct _ rate m d, put-IsOwn _ rate m refl o)

  take_quote-IsOffer :
      (m : Quotes) (rate : PriceQuote fl.Value) → IsOffer m → IsOffer (take_quote m rate)
  unfolding take_quote improve
  take_quote-IsOffer m rate h = elim (Bool-cases (is_empty (trim rate.service_code))) [
    | inl e ↦ rw e h
    | inr e ↦ rw e (elim (Option-cases (find (trim rate.service_code) m)) [
      | inl n ↦ rw n (put-IsOffer rate m h)
      | inr (best, n) ↦ rw n (elim (Bool-cases (fl.lt rate.due best.due)) [
        | inl lt ↦ rw lt (put-IsOffer rate m h)
        | inr keep ↦ rw keep h
      ])
    ])
  ]

  best_from-keeps_IsOffer :
      (rates : List (PriceQuote fl.Value)) (m : Quotes) → IsOffer m → IsOffer (best_from m rates)
  unfolding best_from
  best_from-keeps_IsOffer [] m h = h
  best_from-keeps_IsOffer (r ∷ rates) m h =
      best_from-keeps_IsOffer rates (take_quote m r) (take_quote-IsOffer m r h)

  -- Whatever quotes Canada Post sends, each service is kept at most once, and each quote that is kept is kept under
  -- its own trimmed service code.
  pub best_from-IsOffer : (rates : List (PriceQuote fl.Value)) → IsOffer (best_from [] rates)
  best_from-IsOffer rates = best_from-keeps_IsOffer rates [] (tt, tt)
