-- ===== src/Session/Offered.antt =====
-- The walk of cmd/inverterclient/managed_controls.go and main.go: it finds the programs that the server
-- offers, and all those whose control list can be read.
use ieee_2030_5_client_go.Shared.{
  ◌<◌, ◌≡◌, refl, sym, ◌∙◌, true, false, List, [], ◌∷◌, none, some, String, arith, Bool-cases,
  Option-cases, inl, inr, ◌⊎◌, if◌then◌else◌, is_some, str_eq, eq_iff, subst,
}
use ieee_2030_5_client_go.Shared.Map.{insert, string_eq}
use ieee_2030_5_client_go.Session.Programs.{Program, Fsa, outranks, str_lt}
use ieee_2030_5_client_go.Session.Walk.{
  Server, Found, reads, walk_program, walk_list, walk_linked, walk_fsa, walk_tree, nothing_found,
}
use ieee_2030_5_client_go.Session.Selected.{Progs, Holds}
use ieee_2030_5_client_go.Session.Readable.{some_bind, some_inj, NotOutdone}

abbrev pub Listed : Program → List Program → Type 0
Listed p [] = ⊥
Listed p (q ∷ qs) = (q ≡ p) ⊎ Listed p qs

-- In the list of programs of an assignment.
abbrev pub OfferedBy : Server → Program → Fsa → Type 0
OfferedBy sv p fsa =
    (href : String) × (ps : List Program) × (fsa.program_list_link ≡ some href)
    × (sv.program_list href ≡ some ps)
    × Listed p ps

-- In that of one of the assignments.
abbrev pub Offered : Server → Program → List Fsa → Type 0
Offered sv p [] = ⊥
Offered sv p (fsa ∷ fsas) = OfferedBy sv p fsa ⊎ Offered sv p fsas

linked-none :
    (sv : Server) (fsa : Fsa) (f : Found)
    → fsa.program_list_link ≡ none
    → walk_fsa sv true fsa f ≡ some f
unfolding walk_fsa
linked-none sv fsa f n = rw n refl

pub linked-some :
    (sv : Server) (fsa : Fsa) (href : String) (f : Found)
    → fsa.program_list_link ≡ some href
    → walk_fsa sv true fsa f ≡ walk_linked sv true href f
unfolding walk_fsa
linked-some sv fsa href f n = rw n refl

-- What each program of the walk keeps of what is found, the walk keeps.
abbrev Preserved : Server → (Found → Type 0) → (Program → Type 0) → Type 0
Preserved sv I P = (p : Program) (f g : Found) → P p → I f → walk_program sv true p f ≡ some g → I g

module _ (sv : Server) (I : Found → Type 0) (P : Program → Type 0) (keeps : Preserved sv I P) where
  pub walk_list-keeps :
      (ps : List Program) (f g : Found)
      → ((p : Program) → Listed p ps → P p)
      → I f
      → walk_list sv true ps f ≡ some g
      → I g
  unfolding walk_list
  walk_list-keeps [] f g all h e = subst I (some_inj e) h
  walk_list-keeps (p ∷ ps) f g all h e =
      let (f', one, rest) = some_bind (walk_program sv true p f) (walk_list sv true ps) g e in
      walk_list-keeps ps f' g (λ q l. all q (inr l)) (keeps p f f' (all p (inl refl)) h one) rest

  walk_fsa-keeps :
      (fsa : Fsa) (f g : Found)
      → ((p : Program) → OfferedBy sv p fsa → P p)
      → I f
      → walk_fsa sv true fsa f ≡ some g
      → I g
  unfolding walk_fsa walk_linked
  walk_fsa-keeps fsa f g all h e = elim (Option-cases fsa.program_list_link) [
    | inl n ↦ subst I (some_inj (sym (linked-none sv fsa f n) ∙ e)) h
    | inr (href, n) ↦
        let (ps, list, rest) =
          some_bind (sv.program_list href) (λ ps. walk_list sv true ps f) g
            (sym (linked-some sv fsa href f n) ∙ e) in
        walk_list-keeps ps f g (λ p l. all p (href, ps, n, list, l)) h rest
  ]

  pub walk_tree-keeps :
      (fsas : List Fsa) (f g : Found)
      → ((p : Program) → Offered sv p fsas → P p)
      → I f
      → walk_tree sv true fsas f ≡ some g
      → I g
  unfolding walk_tree
  walk_tree-keeps [] f g all h e = subst I (some_inj e) h
  walk_tree-keeps (fsa ∷ fsas) f g all h e =
      let (f', one, rest) = some_bind (walk_fsa sv true fsa f) (walk_tree sv true fsas) g e in
      walk_tree-keeps fsas f' g (λ p o. all p (inr o))
        (walk_fsa-keeps fsa f f' (λ p o. all p (inl o)) h one) rest

-- Each program is an entry under its mRID, and as `P` says.
abbrev pub Keyed : (Program → Type 0) → Progs → Type 0
Keyed P [] = Unit
Keyed P ((m, p) ∷ ps) = (m ≡ p.mrid) × P p × Keyed P ps

abbrev pub HasKey : String → Progs → Type 0
HasKey k [] = ⊥
HasKey k ((m, p) ∷ ps) = (m ≡ k) ⊎ HasKey k ps

Keyed-insert :
    (P : Program → Type 0) (p : Program) (ps : Progs)
    → P p
    → Keyed P ps
    → Keyed P (insert p.mrid p ps)
unfolding insert
Keyed-insert P p [] h k = (refl, h, tt)
Keyed-insert P p ((n, q) ∷ ps) h (e, q_too, k) =
    elim (str_eq n p.mrid)
      as (λ b. Keyed P (if b then (p.mrid, p) ∷ ps else (n, q) ∷ insert p.mrid p ps)) [
        | true ↦ (refl, h, k)
        | false ↦ (e, q_too, Keyed-insert P p ps h k)
      ]

HasKey-inserted : (m : String) (p : Program) (ps : Progs) → HasKey m (insert m p ps)
unfolding insert
HasKey-inserted m p [] = inl refl
HasKey-inserted m p ((n, q) ∷ ps) =
    elim (str_eq n m) as (λ b. HasKey m (if b then (m, p) ∷ ps else (n, q) ∷ insert m p ps)) [
      | true ↦ inl refl
      | false ↦ inr (HasKey-inserted m p ps)
    ]

HasKey-insert : (k m : String) (p : Program) (ps : Progs) → HasKey k ps → HasKey k (insert m p ps)
unfolding insert
HasKey-insert k m p [] h = absurd h
HasKey-insert k m p ((n, q) ∷ ps) h = elim (Bool-cases (str_eq n m)) [
  | inl e ↦
      let same : n ≡ m = (eq_iff n m).0 e in
      rw e (elim h [ inl here ↦ inl (sym same ∙ here) | inr later ↦ inr later ])
  | inr e ↦ rw e (elim h [ inl here ↦ inl here | inr later ↦ inr (HasKey-insert k m p ps later) ])
]

-- One program, which the walk drops or enters.
walk_program-entered :
    (sv : Server) (p : Program) (f g : Found)
    → walk_program sv true p f ≡ some g
    → ((reads sv.reads_controls p.control_list_link ≡ false) × (g.programs ≡ f.programs))
      ⊎ (g.programs ≡ insert p.mrid p f.programs)
unfolding walk_program
walk_program-entered sv p f g e = elim (Bool-cases (reads sv.reads_controls p.control_list_link)) [
  | inl ok ↦ inr (ground arith)
  | inr bad ↦ inl (bad, ground arith)
]

walk_program-Keyed :
    (sv : Server) (P : Program → Type 0) (p : Program) (f g : Found)
    → P p
    → Keyed P f.programs
    → walk_program sv true p f ≡ some g
    → Keyed P g.programs
walk_program-Keyed sv P p f g h k e = elim (walk_program-entered sv p f g e) [
  | inl (bad, same) ↦ subst (Keyed P) (sym same) k
  | inr same ↦ subst (Keyed P) (sym same) (Keyed-insert P p f.programs h k)
]

pub walk_program-HasKey :
    (sv : Server) (m : String) (p : Program) (f g : Found)
    → p ≡ p
    → HasKey m f.programs
    → walk_program sv true p f ≡ some g
    → HasKey m g.programs
walk_program-HasKey sv m p f g _ h e = elim (walk_program-entered sv p f g e) [
  | inl (bad, same) ↦ subst (HasKey m) (sym same) h
  | inr same ↦ subst (HasKey m) (sym same) (HasKey-insert m p.mrid p f.programs h)
]

pub walk_program-adds :
    (sv : Server) (p : Program) (f g : Found)
    → reads sv.reads_controls p.control_list_link ≡ true
    → walk_program sv true p f ≡ some g
    → HasKey p.mrid g.programs
walk_program-adds sv p f g ok e = elim (walk_program-entered sv p f g e) [
  | inl (bad, same) ↦ absurd (ground (arith, ok, bad))
  | inr same ↦ subst (HasKey p.mrid) (sym same) (HasKey-inserted p.mrid p f.programs)
]

pub walk_tree-Keyed :
    (sv : Server) (fsas : List Fsa) (f : Found)
    → walk_tree sv true fsas nothing_found ≡ some f
    → Keyed (λ p. Offered sv p fsas) f.programs
walk_tree-Keyed sv fsas f =
    let P : Program → Type 0 = λ p. Offered sv p fsas in
    walk_tree-keeps sv (λ (x : Found). Keyed P x.programs) P (walk_program-Keyed sv P) fsas
      nothing_found f (λ p o. o) tt

-- The lower primacy, or the same and an mRID that is not the greater.
abbrev pub Precedes : Program → Program → Type 0
Precedes w q = (w.primacy < q.primacy) ⊎ ((w.primacy ≡ q.primacy) × (str_lt q.mrid w.mrid ≡ false))

outranks-Precedes : (w q : Program) → outranks q w ≡ false → Precedes w q
unfolding outranks
outranks-Precedes w q h = ground (arith, h)

-- The entry under a key, which does not outrank `w` if it has a control list.
pub HasKey-Precedes :
    (P : Program → Type 0) (k : String) (w : Program) (ps : Progs)
    → Keyed P ps
    → NotOutdone w ps
    → HasKey k ps
    → (q : Program) × P q × (q.mrid ≡ k) × (is_some q.control_list_link ≡ true → Precedes w q)
HasKey-Precedes P k w [] e n h = absurd h
HasKey-Precedes P k w ((m, p) ∷ ps) (key, holds, e) (below, n) h = elim h [
  | inl here ↦ (p, holds, sym key ∙ here, λ has. outranks-Precedes w p (below has))
  | inr later ↦ HasKey-Precedes P k w ps e n later
]

pub Keyed-Holds : (P : Program → Type 0) (w : Program) (ps : Progs) → Keyed P ps → Holds w ps → P w
Keyed-Holds P w [] e h = absurd h
Keyed-Holds P w ((m, p) ∷ ps) (key, holds, e) h = elim h [
  | inl same ↦ subst P same holds
  | inr later ↦ Keyed-Holds P w ps e later
]
