-- ===== src/Admin/Codes/Order.antt =====
-- The plugin codes come out in the order of their priorities, each once.
use canada_post.Prelude.{
  ℕ, zero, suc, ◌≤◌, ◌<◌, ltb, ltb→lt, String, List, [], ◌∷◌, Option, none, some, ◌||◌, ◌==◌, ◌≡◌,
  refl, ap, subst, any, length, All, if◌then◌else◌, arith, Bool-cases, Option-cases, inl, inr,
}
use canada_post.Text.{trim, to_lower, is_empty}
use canada_post.Admin.Codes.{Candidate, best_after, exchange, exchange_at, bring_best, pick_codes}
use mathlib.Core.List.Permᴰ
use mathlib.Core.List.{Permᴰ}

-- each candidate's priority is at most that of all behind it
abbrev pub IsOrdered : List Candidate → Type 0
IsOrdered [] = Unit
IsOrdered (c ∷ cs) = All (λ d. c.priority ≤ d.priority) cs × IsOrdered cs

-- the codes in this order, those that differ in case only once
abbrev pub first_codes : List String → List Candidate → List String
first_codes seen [] = []
first_codes seen (c ∷ cs) =
    let code = trim c.code in
    let skipped = first_codes seen cs in
    let kept = first_codes (to_lower code ∷ seen) cs in
    if is_empty (to_lower code) || any (λ k. k == to_lower code) seen then skipped else code ∷ kept

exchange-Permᴰ :
    (k : ℕ) (c : Candidate) (cs : List Candidate)
    → Permᴰ (c ∷ cs) ((exchange k c cs).0 ∷ (exchange k c cs).1)
unfolding exchange
exchange-Permᴰ k c [] = Permᴰ.refl _
exchange-Permᴰ zero c (d ∷ ds) = Permᴰ.swap refl refl
exchange-Permᴰ (suc k) c (d ∷ ds) =
    Permᴰ.trans (Permᴰ.swap refl refl)
      (Permᴰ.trans (Permᴰ.cons refl (exchange-Permᴰ k c ds)) (Permᴰ.swap refl refl))

-- what the inner loop finds: no candidate below the priority, or one that is below it and not above any other
abbrev IsBest : ℕ → Candidate → List Candidate → Option ℕ → Type 0
IsBest priority c cs none = All (λ d. priority ≤ d.priority) cs
IsBest priority c cs (some k) =
    ((exchange k c cs).0.priority < priority)
    × All (λ d. (exchange k c cs).0.priority ≤ d.priority) cs

best_after-IsBest :
    (priority : ℕ) (c : Candidate) (cs : List Candidate)
    → IsBest priority c cs (best_after priority cs)
unfolding best_after exchange
best_after-IsBest priority c [] = tt
best_after-IsBest priority c (d ∷ ds) = elim (Bool-cases (ltb d.priority priority)) [
  | inl e ↦
      let lt = ltb→lt d.priority priority e in
      rw e (elim (Option-cases (best_after d.priority ds)) [
        | inl f ↦
            let h : All (λ x. d.priority ≤ x.priority) ds =
              subst (IsBest d.priority c ds) f (best_after-IsBest d.priority c ds) in
            rw f (lt, (omega arith, h))
        | inr (k, f) ↦
            let (below, least) : IsBest d.priority c ds (some k) =
              subst (IsBest d.priority c ds) f (best_after-IsBest d.priority c ds) in
            rw f (omega (arith, below, lt), (omega (arith, below), least))
      ])
  | inr e ↦ rw e (elim (Option-cases (best_after priority ds)) [
    | inl f ↦
        let h : All (λ x. priority ≤ x.priority) ds =
          subst (IsBest priority c ds) f (best_after-IsBest priority c ds) in
        rw f (ground arith, h)
    | inr (k, f) ↦
        let (below, least) : IsBest priority c ds (some k) =
          subst (IsBest priority c ds) f (best_after-IsBest priority c ds) in
        rw f (below, (ground (arith, below), least))
  ])
]

-- what holds of the candidate and of all others holds of those left behind
exchange-All {κ} :
    (P : Candidate → Type κ) (k : ℕ) (c : Candidate) (cs : List Candidate)
    → P c
    → All P cs
    → All P (exchange k c cs).1
unfolding exchange
exchange-All P k c [] p _ = tt
exchange-All P zero c (d ∷ ds) p (q, h) = (p, h)
exchange-All P (suc k) c (d ∷ ds) p (q, h) = (q, exchange-All P k c ds p h)

exchange-length :
    (k : ℕ) (c : Candidate) (cs : List Candidate) → length (exchange k c cs).1 ≡ length cs
unfolding exchange
exchange-length k c [] = refl
exchange-length zero c (d ∷ ds) = refl
exchange-length (suc k) c (d ∷ ds) = ap suc (exchange-length k c ds)

exchange_at-least :
    (o : Option ℕ) (c : Candidate) (cs : List Candidate)
    → IsBest c.priority c cs o
    → All (λ d. (exchange_at o c cs).0.priority ≤ d.priority) (exchange_at o c cs).1
exchange_at-least none c cs h = h
exchange_at-least (some k) c cs (below, least) = exchange-All _ k c cs (omega (arith, below)) least

exchange_at-Permᴰ :
    (o : Option ℕ) (c : Candidate) (cs : List Candidate)
    → Permᴰ (c ∷ cs) ((exchange_at o c cs).0 ∷ (exchange_at o c cs).1)
exchange_at-Permᴰ none c cs = Permᴰ.refl (c ∷ cs)
exchange_at-Permᴰ (some k) c cs = exchange-Permᴰ k c cs

exchange_at-length :
    (o : Option ℕ) (c : Candidate) (cs : List Candidate) → length (exchange_at o c cs).1 ≡ length cs
exchange_at-length none c cs = refl
exchange_at-length (some k) c cs = exchange-length k c cs

-- the candidates in the order in which the loops take them
selected : ℕ → List Candidate → List Candidate
selected zero cs = []
selected (suc n) [] = []
selected (suc n) (c ∷ cs) = let best = bring_best c cs in best.0 ∷ selected n best.1

pick_codes-selected :
    (n : ℕ) (seen : List String) (cs : List Candidate)
    → pick_codes n seen cs ≡ first_codes seen (selected n cs)
unfolding pick_codes selected
pick_codes-selected zero seen cs = refl
pick_codes-selected (suc n) seen [] = refl
pick_codes-selected (suc n) seen (c ∷ cs) =
    let best = bring_best c cs in
    let key = to_lower (trim best.0.code) in
    rw (pick_codes-selected n seen best.1) (rw (pick_codes-selected n (key ∷ seen) best.1) refl)

selected-Permᴰ : (n : ℕ) (cs : List Candidate) → length cs ≡ n → Permᴰ cs (selected n cs)
unfolding selected bring_best
selected-Permᴰ zero [] h = Permᴰ.nil
selected-Permᴰ zero (c ∷ cs) h = absurd (cc h)
selected-Permᴰ (suc n) [] h = Permᴰ.nil
selected-Permᴰ (suc n) (c ∷ cs) h =
    let o = best_after c.priority cs in
    Permᴰ.trans (exchange_at-Permᴰ o c cs) (
      Permᴰ.cons refl
        (selected-Permᴰ n (exchange_at o c cs).1 (omega (arith, h, exchange_at-length o c cs))))

-- what all candidates have the permuted ones have
Permᴰ-All {κ} :
    (P : Candidate → Type κ) {xs ys : List Candidate} → Permᴰ xs ys → All P xs → All P ys
Permᴰ-All P Permᴰ.nil h = h
Permᴰ-All P (Permᴰ.cons e r) (p, h) = (subst P e p, Permᴰ-All P r h)
Permᴰ-All P (Permᴰ.swap e f) (p, (q, h)) = (subst P f q, (subst P e p, h))
Permᴰ-All P (Permᴰ.trans r t) h = Permᴰ-All P t (Permᴰ-All P r h)

selected-IsOrdered : (n : ℕ) (cs : List Candidate) → length cs ≡ n → IsOrdered (selected n cs)
unfolding selected bring_best
selected-IsOrdered zero cs h = tt
selected-IsOrdered (suc n) [] h = tt
selected-IsOrdered (suc n) (c ∷ cs) h =
    let o = best_after c.priority cs in
    let rest = (exchange_at o c cs).1 in
    let l : length rest ≡ n = omega (arith, h, exchange_at-length o c cs) in
    (
      Permᴰ-All _ (selected-Permᴰ n rest l)
          (exchange_at-least o c cs (best_after-IsBest c.priority c cs)),
      selected-IsOrdered n rest l,
    )

-- The loops of `resolvePluginCodes`, with one turn for each candidate, give the codes of all candidates in an order of their
-- priorities, lowest first: the first of the codes that differ in case only, for each such code.
pub pick_codes-IsOrdered :
    (cs : List Candidate)
    → (order : List Candidate) × Permᴰ cs order
      × IsOrdered order
      × (pick_codes (length cs) [] cs ≡ first_codes [] order)
pick_codes-IsOrdered cs = (
  selected (length cs) cs,
  selected-Permᴰ _ cs refl,
  selected-IsOrdered _ cs refl,
  pick_codes-selected _ [] cs,
)
