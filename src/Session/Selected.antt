-- ===== src/Session/Selected.antt =====
-- internal/inverter/select.go and the walk of cmd/inverterclient: which program is chosen.
use ieee_2030_5_client_go.Shared.{
  ℕ, ◌≡◌, refl, sym, subst, true, false, List, [], ◌∷◌, some, String, arith, inl, inr, ◌⊎◌,
  if◌then◌else◌,
}
use ieee_2030_5_client_go.Shared.Map.{string_eq}
use ieee_2030_5_client_go.Session.Programs.{
  Program, lex_lt, str_lt, codes, outranks, select_from, select_highest_priority,
}

lex_lt_trans : (xs ys zs : List ℕ) → lex_lt xs ys ≡ true → lex_lt ys zs ≡ true → lex_lt xs zs ≡ true
unfolding lex_lt
lex_lt_trans xs [] zs h k = absurd (cc)
lex_lt_trans xs (y ∷ ys) [] h k = absurd (cc)
lex_lt_trans [] (y ∷ ys) (z ∷ zs) h k = refl
lex_lt_trans (x ∷ xs) (y ∷ ys) (z ∷ zs) h k = ground (arith, lex_lt_trans xs ys zs)

lex_lt_irrefl : (xs : List ℕ) → lex_lt xs xs ≡ false
unfolding lex_lt
lex_lt_irrefl [] = refl
lex_lt_irrefl (x ∷ xs) = ground (arith, lex_lt_irrefl xs)

outranks_trans : (p q r : Program) → outranks p q ≡ true → outranks q r ≡ true → outranks p r ≡ true
unfolding outranks str_lt
outranks_trans p q r h k = ground (arith, lex_lt_trans (codes p.mrid) (codes q.mrid) (codes r.mrid))

abbrev pub Progs : Type 0
Progs = List (String × Program)

-- One of the entries is this program.
abbrev pub Holds : Program → Progs → Type 0
Holds w [] = ⊥
Holds w ((m, p) ∷ ps) = (p ≡ w) ⊎ Holds w ps

-- None of the entries outranks the program.
abbrev pub NoneOutranks : Program → Progs → Type 0
NoneOutranks w [] = Unit
NoneOutranks w ((m, p) ∷ ps) = (outranks p w ≡ false) × NoneOutranks w ps

outranks-select_from :
    (w x : Program) (ps : Progs) → outranks x w ≡ false → outranks x (select_from w ps) ≡ false
unfolding select_from
outranks-select_from w x [] h = h
outranks-select_from w x ((m, p) ∷ ps) h =
    outranks-select_from (if outranks p w then p else w) x ps (ground (arith, outranks_trans x p w))

outranks_irrefl : (p : Program) → outranks p p ≡ false
unfolding outranks str_lt
outranks_irrefl p = ground (arith, lex_lt_irrefl (codes p.mrid))

-- The last winner is the first one or an entry, and none outranks it.
select_from-Holds :
    (w : Program) (ps : Progs) → (select_from w ps ≡ w) ⊎ Holds (select_from w ps) ps
unfolding select_from
select_from-Holds w [] = inl refl
select_from-Holds w ((m, p) ∷ ps) =
    elim (outranks p w)
      as (λ b.
        (select_from (if b then p else w) ps ≡ w)
        ⊎ ((p ≡ select_from (if b then p else w) ps)
            ⊎ Holds (select_from (if b then p else w) ps) ps)) [
              | true ↦ inr (elim (select_from-Holds p ps) [ inl e ↦ inl (sym e) | inr h ↦ inr h ])
              | false ↦ elim (select_from-Holds w ps) [ inl e ↦ inl e | inr h ↦ inr (inr h) ]
            ]

NoneOutranks-select : (w : Program) (ps : Progs) → NoneOutranks (select_from w ps) ps
unfolding select_from
NoneOutranks-select w [] = tt
NoneOutranks-select w ((m, p) ∷ ps) =
    let w' = if outranks p w then p else w in
    (outranks-select_from w' p ps (ground (arith, outranks_irrefl p)), NoneOutranks-select w' ps)

-- SelectHighestPriority chooses one of the programs, which none of them outranks, by primacy and then
-- by mRID.
pub select_highest_priority_lem :
    (ps : Progs) (w : Program)
    → select_highest_priority ps ≡ some w
    → Holds w ps × NoneOutranks w ps
unfolding select_highest_priority
select_highest_priority_lem [] w h = absurd (cc)
select_highest_priority_lem ((m, p) ∷ ps) w h =
    let e : select_from p ps ≡ w = cc in
    let first : (p ≡ select_from p ps) ⊎ Holds (select_from p ps) ps =
      elim (select_from-Holds p ps) [ inl f ↦ inl (sym f) | inr k ↦ inr k ] in
    subst (λ x. Holds x ((m, p) ∷ ps) × NoneOutranks x ((m, p) ∷ ps)) e
      (first, (outranks-select_from p p ps (outranks_irrefl p), NoneOutranks-select p ps))
