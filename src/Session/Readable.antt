-- ===== src/Session/Readable.antt =====
-- The walk of cmd/inverterclient/managed_controls.go and main.go: which programs it leaves to choose
-- from.
use ieee_2030_5_client_go.Shared.{
  ◌≡◌, refl, Bool, true, false, List, [], ◌∷◌, Option, none, some, String, arith, Bool-cases,
  Option-cases, inl, inr, ◌⊎◌, if◌then◌else◌, is_some, str_eq, subst,
}
use ieee_2030_5_client_go.Shared.Map.{insert, string_eq}
use ieee_2030_5_client_go.Session.Programs.{Program, Fsa, outranks}
use ieee_2030_5_client_go.Session.Walk.{
  Server, Found, reads, walk_program, walk_list, walk_linked, walk_fsa, walk_tree, with_controls,
}
use ieee_2030_5_client_go.Session.Selected.{Progs, Holds, NoneOutranks}

-- The control list of each program, where it has one, can be read.
abbrev pub Readable : Server → Progs → Type 0
Readable sv [] = Unit
Readable sv ((m, p) ∷ ps) = (reads sv.reads_controls p.control_list_link ≡ true) × Readable sv ps

Readable-insert :
    (sv : Server) (m : String) (p : Program) (ps : Progs)
    → reads sv.reads_controls p.control_list_link ≡ true
    → Readable sv ps
    → Readable sv (insert m p ps)
unfolding insert
Readable-insert sv m p [] h k = (h, tt)
Readable-insert sv m p ((n, q) ∷ ps) h k =
    elim (str_eq n m) as (λ b. Readable sv (if b then (m, p) ∷ ps else (n, q) ∷ insert m p ps)) [
      | true ↦ (h, k.1)
      | false ↦ (k.0, Readable-insert sv m p ps h k.1)
    ]

-- A chain of two steps that gives a result.
pub some_bind :
    {A B : Type 0} (o : Option A) (k : A → Option B) (b : B)
    → elim o [ none ↦ none | some a ↦ k a ] ≡ some b
    → (a : A) × (o ≡ some a) × (k a ≡ some b)
some_bind none k b h = absurd (cc)
some_bind (some a) k b h = (a, refl, h)

pub some_inj : {A : Type 0} {a b : A} → some a ≡ some b → a ≡ b
some_inj h = cc

walk_program-Readable :
    (sv : Server) (lenient : Bool) (p : Program) (f g : Found)
    → Readable sv f.programs
    → walk_program sv lenient p f ≡ some g
    → Readable sv g.programs
unfolding walk_program
walk_program-Readable sv lenient p f g h e =
    elim (Bool-cases (reads sv.reads_controls p.control_list_link)) [
      | inl ok ↦ subst (Readable sv) (ground arith) (Readable-insert sv p.mrid p f.programs ok h)
      | inr bad ↦ subst (Readable sv) (ground arith) h
    ]

walk_list-Readable :
    (sv : Server) (lenient : Bool) (ps : List Program) (f g : Found)
    → Readable sv f.programs
    → walk_list sv lenient ps f ≡ some g
    → Readable sv g.programs
unfolding walk_list
walk_list-Readable sv lenient [] f g h e =
    subst (λ (x : Found). Readable sv x.programs) (some_inj e) h
walk_list-Readable sv lenient (p ∷ ps) f g h e =
    let (f', one, rest) = some_bind (walk_program sv lenient p f) (walk_list sv lenient ps) g e in
    walk_list-Readable sv lenient ps f' g (walk_program-Readable sv lenient p f f' h one) rest

walk_linked-Readable :
    (sv : Server) (lenient : Bool) (href : String) (f g : Found)
    → Readable sv f.programs
    → walk_linked sv lenient href f ≡ some g
    → Readable sv g.programs
unfolding walk_linked
walk_linked-Readable sv lenient href f g h e =
    let (ps, _, rest) = some_bind (sv.program_list href) (λ ps. walk_list sv lenient ps f) g e in
    walk_list-Readable sv lenient ps f g h rest

walk_fsa-Readable :
    (sv : Server) (lenient : Bool) (fsa : Fsa) (f g : Found)
    → Readable sv f.programs
    → walk_fsa sv lenient fsa f ≡ some g
    → Readable sv g.programs
unfolding walk_fsa
walk_fsa-Readable sv lenient fsa f g h =
    elim fsa.program_list_link
      as (λ o.
        elim o [ none ↦ some f | some href ↦ walk_linked sv lenient href f ] ≡ some g
        → Readable sv g.programs) [
          | none ↦ λ e. subst (λ (x : Found). Readable sv x.programs) (some_inj e) h
          | some href ↦ walk_linked-Readable sv lenient href f g h
        ]

pub walk_tree-Readable :
    (sv : Server) (lenient : Bool) (fsas : List Fsa) (f g : Found)
    → Readable sv f.programs
    → walk_tree sv lenient fsas f ≡ some g
    → Readable sv g.programs
unfolding walk_tree
walk_tree-Readable sv lenient [] f g h e =
    subst (λ (x : Found). Readable sv x.programs) (some_inj e) h
walk_tree-Readable sv lenient (fsa ∷ fsas) f g h e =
    let (f', one, rest) = some_bind (walk_fsa sv lenient fsa f) (walk_tree sv lenient fsas) g e in
    walk_tree-Readable sv lenient fsas f' g (walk_fsa-Readable sv lenient fsa f f' h one) rest

-- The programs of a walk that have a control list, which could be read.
abbrev pub Candidate : Server → Program → Type 0
Candidate sv p =
    (href : String) × (p.control_list_link ≡ some href) × (sv.reads_controls href ≡ true)

reads-Candidate :
    (sv : Server) (p : Program)
    → is_some p.control_list_link ≡ true
    → reads sv.reads_controls p.control_list_link ≡ true
    → Candidate sv p
reads-Candidate sv p h k = elim (Option-cases p.control_list_link) [
  | inl e ↦ absurd (ground arith)
  | inr (href, e) ↦ (href, e, ground arith)
]

pub Holds-with_controls :
    (sv : Server) (w : Program) (ps : Progs)
    → Readable sv ps
    → Holds w (with_controls ps)
    → Candidate sv w
unfolding with_controls
Holds-with_controls sv w [] h = λ k. absurd k
Holds-with_controls sv w ((m, p) ∷ ps) h = elim (Bool-cases (is_some p.control_list_link)) [
  | inl has ↦ rw has (λ k. elim k [
    | inl e ↦ subst (Candidate sv) e (reads-Candidate sv p has h.0)
    | inr later ↦ Holds-with_controls sv w ps h.1 later
  ])
  | inr lacks ↦ rw lacks (Holds-with_controls sv w ps h.1)
]

pub with_controls-Holds : (w : Program) (ps : Progs) → Holds w (with_controls ps) → Holds w ps
unfolding with_controls
with_controls-Holds w [] = λ k. k
with_controls-Holds w ((m, p) ∷ ps) =
    elim (is_some p.control_list_link)
      as (λ b.
        Holds w (if b then (m, p) ∷ with_controls ps else with_controls ps)
        → (p ≡ w) ⊎ Holds w ps) [
          | true ↦ λ k. elim k [ inl e ↦ inl e | inr later ↦ inr (with_controls-Holds w ps later) ]
          | false ↦ λ k. inr (with_controls-Holds w ps k)
        ]

-- No program with a control list outranks this one.
abbrev pub NotOutdone : Program → Progs → Type 0
NotOutdone w [] = Unit
NotOutdone w ((m, p) ∷ ps) =
    (is_some p.control_list_link ≡ true → outranks p w ≡ false) × NotOutdone w ps

pub NotOutdone-with_controls :
    (w : Program) (ps : Progs) → NoneOutranks w (with_controls ps) → NotOutdone w ps
unfolding with_controls
NotOutdone-with_controls w [] = λ h. tt
NotOutdone-with_controls w ((m, p) ∷ ps) =
    elim (is_some p.control_list_link)
      as (λ b.
        NoneOutranks w (if b then (m, p) ∷ with_controls ps else with_controls ps)
        → (b ≡ true → outranks p w ≡ false) × NotOutdone w ps) [
          | true ↦ λ h. ((λ _. h.0), NotOutdone-with_controls w ps h.1)
          | false ↦ λ h. ((λ k. absurd (cc)), NotOutdone-with_controls w ps h)
        ]
