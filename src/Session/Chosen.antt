-- ===== src/Session/Chosen.antt =====
-- The program that a walk of cmd/inverterclient/managed_controls.go chooses.
use ieee_2030_5_client_go.Shared.{
  ◌≡◌, refl, sym, ◌∙◌, Bool, true, false, List, ◌∷◌, Option, none, some, String, if◌then◌else◌,
  is_empty, subst, is_some,
}
use ieee_2030_5_client_go.Shared.Map.{string_eq}
use ieee_2030_5_client_go.Session.Programs.{Program, Fsa, select_highest_priority}
use ieee_2030_5_client_go.Session.Walk.{
  Server, Found, Answer, waits, fails, answers, nothing_found, reads, walk_tree, fsa_phase,
  program_phase, with_controls, ProgramWalk, walk_of, found_programs, assigned, walk_programs,
}
use ieee_2030_5_client_go.Session.Selected.{select_highest_priority_lem}
use ieee_2030_5_client_go.Session.Offered.{
  Offered, Precedes, walk_tree-Keyed, HasKey-Precedes, Keyed-Holds,
}
use ieee_2030_5_client_go.Session.Readable.{
  Candidate, Holds-with_controls, with_controls-Holds, NotOutdone-with_controls, walk_tree-Readable,
}
use ieee_2030_5_client_go.Session.Entered.{walk_tree-adds}
use ieee_2030_5_client_go.Session.Assigned.{
  IsRest, program_phase-answers, AssignedBy, fsa_phase-AssignedBy,
}

-- What is told of the program that a walk chose: the assignments and the servers from there on, and
-- the server that the programs were read at.
abbrev pub ChosenAt : List Fsa → Server → Program → Type 0
ChosenAt fsas sv prog =
    Offered sv prog fsas
    × Candidate sv prog
    × ((p : Program)
        → Offered sv p fsas
        → reads sv.reads_controls p.control_list_link ≡ true
        → (q : Program) × Offered sv q fsas
          × (q.mrid ≡ p.mrid)
          × (is_some q.control_list_link ≡ true → Precedes prog q))

abbrev ChosenFrom : List Server → List Fsa → Program → List Server → Type 0
ChosenFrom svs fsas prog left =
    (sv : Server) × (rest : List Server) × (left ≡ sv ∷ rest)
    × IsRest left svs
    × ChosenAt fsas sv prog

abbrev pub Chosen : List Server → Option String → Program → List Server → Type 0
Chosen svs link prog left =
    (href : String) × (fsas : List Fsa) × (later : List Server) × (link ≡ some href)
    × AssignedBy svs href fsas later
    × ChosenFrom later fsas prog left

walk_tree-ChosenAt :
    (sv : Server) (fsas : List Fsa) (f : Found) (prog : Program)
    → walk_tree sv true fsas nothing_found ≡ some f
    → select_highest_priority (with_controls f.programs) ≡ some prog
    → ChosenAt fsas sv prog
walk_tree-ChosenAt sv fsas f prog walked chosen =
    let (held, best) = select_highest_priority_lem (with_controls f.programs) prog chosen in
    let entries = walk_tree-Keyed sv fsas f walked in
    let P : Program → Type 0 = λ p. Offered sv p fsas in
    (
      Keyed-Holds P prog f.programs entries (with_controls-Holds prog f.programs held),
      Holds-with_controls sv prog f.programs
          (walk_tree-Readable sv true fsas nothing_found f tt walked) held,
      λ p offered ok.
          HasKey-Precedes P p.mrid prog f.programs entries
            (NotOutdone-with_controls prog f.programs best)
            (walk_tree-adds sv p ok fsas nothing_found f offered walked),
    )

found_programs-Chosen :
    (strict : Bool) (svs left : List Server) (fsas : List Fsa) (a : Answer Found) (w : ProgramWalk)
    (prog : Program)
    → program_phase strict true svs fsas ≡ a
    → found_programs a ≡ answers w left
    → w.prog ≡ some prog
    → ChosenFrom svs fsas prog left
unfolding found_programs walk_of
found_programs-Chosen strict svs left fsas waits w prog a h e = absurd (cc)
found_programs-Chosen strict svs left fsas fails w prog a h e = absurd (cc)
found_programs-Chosen strict svs left fsas (answers f left') w prog a h e =
    let same : left' ≡ left = cc in
    let (sv, rest, at, is_rest, walked) = program_phase-answers strict true svs left' fsas f a in
    let chosen : select_highest_priority (with_controls f.programs) ≡ some prog = cc in
    (
      sv,
      rest,
      sym same ∙ at,
      subst (λ x. IsRest x svs) same is_rest,
      walk_tree-ChosenAt sv fsas f prog walked chosen,
    )

assigned-Chosen :
    (strict : Bool) (svs : List Server) (href : String) (a : Answer (List Fsa × String))
    (left : List Server) (w : ProgramWalk) (prog : Program)
    → fsa_phase strict svs href ≡ a
    → assigned strict a ≡ answers w left
    → w.prog ≡ some prog
    → Chosen svs (some href) prog left
unfolding assigned walk_of with_controls select_highest_priority
assigned-Chosen strict svs href waits left w prog = λ a h e. absurd (cc)
assigned-Chosen strict svs href fails left w prog = λ a h e. absurd (cc)
assigned-Chosen strict svs href (answers (fsas, h') later) left w prog =
    elim (is_empty fsas)
      as (λ b.
        fsa_phase strict svs href ≡ answers (fsas, h') later
        → (if b
            then answers (walk_of nothing_found) later
            else found_programs (program_phase strict true later fsas))
          ≡ answers w left
        → w.prog ≡ some prog
        → Chosen svs (some href) prog left) [
          | true ↦ λ a h e. absurd (cc)
          | false ↦ λ a h e. (
            href,
            fsas,
            later,
            refl,
            fsa_phase-AssignedBy strict svs later href fsas h' a,
            found_programs-Chosen strict later left fsas (program_phase strict true later fsas) w
                prog refl h e,
          )
        ]

-- The program that walkPrograms chooses is one that the server offers: it is in the program list of one
-- of the assignments that a server of the rounds has given, asked at the device's link or where the list
-- has moved to, the earlier ones having given none. It has a control list, which could be read at that
-- server. And for each program offered, whose control list could be read, there is one offered with the
-- same mRID that, where it has a control list, does not come before the one chosen: by the lower
-- primacy, and for equal ones by the lesser mRID.
pub walk_programs-Chosen :
    (strict : Bool) (svs left : List Server) (link : Option String) (w : ProgramWalk)
    (prog : Program)
    → walk_programs strict svs link ≡ answers w left
    → w.prog ≡ some prog
    → Chosen svs link prog left
unfolding walk_programs walk_of with_controls select_highest_priority
walk_programs-Chosen true svs left none w prog h e = absurd (cc)
walk_programs-Chosen false svs left none w prog h e = absurd (cc)
walk_programs-Chosen strict svs left (some href) w prog h e =
    assigned-Chosen strict svs href (fsa_phase strict svs href) left w prog refl h e
