-- ===== src/Session/Walk.antt =====
-- The walk that finds the program to follow: walkPrograms, programMoved and discoverProgram of
-- cmd/inverterclient/managed_controls.go, walkDERProgramTreeOpts of main.go, and the rounds of
-- phase2c_fsalist.go and phase2c_derprogram.go. What the server answers is a function of the href.
use ieee_2030_5_client_go.Shared.{
  Bool, true, not, ◌&&◌, List, [], ◌∷◌, Option, none, some, String, str_eq, if◌then◌else◌, is_empty,
  is_some, listed,
}
use ieee_2030_5_client_go.Shared.Map.{insert, string_eq}
use ieee_2030_5_client_go.Session.Programs.{Program, Fsa, select_highest_priority, same_program}

-- The answers to the GETs of one walk: the FSA list and the href it moved to, the list of programs,
-- and whether each of the other resources can be read.
pub record Server : Type 0 where
  pub fsa_list : String → Option (List Fsa × String)
  pub program_list : String → Option (List Program)
  pub reads_default : String → Bool
  pub reads_controls : String → Bool
  pub reads_curves : String → Bool

-- The programs found by mRID, and the mRIDs of those whose control list could not be read.
pub record Found : Type 0 where
  pub programs : List (String × Program)
  pub unreadable : List String

abbrev pub reads : (String → Bool) → Option String → Bool
reads ok none = true
reads ok (some href) = ok href

-- One program of walkDERProgramTreeOpts, none for an error.
unfoldable pub walk_program : Server → Bool → Program → Found → Option Found
walk_program sv lenient p f =
    if not (reads sv.reads_default p.default_link) && not lenient
    then none
    else if not (reads sv.reads_controls p.control_list_link)
    then (if not lenient then none else some (record f { unreadable = p.mrid ∷ f.unreadable }))
    else if not (reads sv.reads_curves p.curve_list_link) && not lenient
    then none
    else some (record f { programs = insert p.mrid p f.programs })

unfoldable pub walk_list : Server → Bool → List Program → Found → Option Found
unfolding walk_program
walk_list sv lenient [] f = some f
walk_list sv lenient (p ∷ ps) f = elim (walk_program sv lenient p f) [
  | none ↦ none
  | some f' ↦ walk_list sv lenient ps f'
]

unfoldable pub walk_linked : Server → Bool → String → Found → Option Found
unfolding walk_list
walk_linked sv lenient href f = elim (sv.program_list href) [
  | none ↦ none
  | some ps ↦ walk_list sv lenient ps f
]

unfoldable pub walk_fsa : Server → Bool → Fsa → Found → Option Found
unfolding walk_linked
walk_fsa sv lenient fsa f = elim fsa.program_list_link [
  | none ↦ some f
  | some href ↦ walk_linked sv lenient href f
]

-- walkDERProgramTreeOpts.
unfoldable pub walk_tree : Server → Bool → List Fsa → Found → Option Found
unfolding walk_fsa
walk_tree sv lenient [] f = some f
walk_tree sv lenient (fsa ∷ fsas) f = elim (walk_fsa sv lenient fsa f) [
  | none ↦ none
  | some f' ↦ walk_tree sv lenient fsas f'
]

abbrev pub nothing_found : Found
nothing_found = record { programs = []; unreadable = [] }

-- A phase that a strict configuration repeats while its answer is empty, a round for each server in
-- the list: no server left is a phase that still waits.
pub data Answer {ℓ} (A : Type ℓ) : Type ℓ where
  waits : Answer A
  fails : Answer A
  answers : A → List Server → Answer A

-- runPhase2cFSAList, for the link of the EndDevice: the list, and the href that the link has then.
unfoldable pub fsa_phase : Bool → List Server → String → Answer (List Fsa × String)
fsa_phase strict [] href = waits
fsa_phase strict (sv ∷ svs) href = elim (sv.fsa_list href) [
  | none ↦ fails
  | some (fsas, new_href) ↦
      let href' = if not (str_eq new_href "") then new_href else href in
      let again = fsa_phase strict svs href' in
      if is_empty fsas && strict then again else answers (fsas, href') (sv ∷ svs)
]

unfoldable pub program_round : Bool → Option Found → List Server → Answer Found → Answer Found
program_round strict none svs again = fails
program_round strict (some f) svs again =
    if is_empty f.programs && strict then again else answers f svs

-- runPhase2cDERProgramWalkOpts.
unfoldable pub program_phase : Bool → Bool → List Server → List Fsa → Answer Found
unfolding program_round
program_phase strict lenient [] fsas = waits
program_phase strict lenient (sv ∷ svs) fsas =
    program_round strict (walk_tree sv lenient fsas nothing_found) (sv ∷ svs)
      (program_phase strict lenient svs fsas)

-- The loop of walkPrograms that drops the programs without a control list.
unfoldable pub with_controls : List (String × Program) → List (String × Program)
with_controls [] = []
with_controls ((m, p) ∷ ps) =
    let rest = with_controls ps in if is_some p.control_list_link then (m, p) ∷ rest else rest

-- programWalk, without the lists to subscribe to.
pub record ProgramWalk : Type 0 where
  pub prog : Option Program
  pub unreadable : List String

unfoldable pub walk_of : Found → ProgramWalk
unfolding with_controls
walk_of f = record {
  prog = select_highest_priority (with_controls f.programs);
  unreadable = f.unreadable;
}

unfoldable pub found_programs : Answer Found → Answer ProgramWalk
unfolding walk_of
found_programs waits = waits
found_programs fails = fails
found_programs (answers f svs) = answers (walk_of f) svs

unfoldable pub assigned : Bool → Answer (List Fsa × String) → Answer ProgramWalk
unfolding found_programs walk_of
assigned strict waits = waits
assigned strict fails = fails
assigned strict (answers (fsas, href) svs) =
    if is_empty fsas
    then answers (walk_of nothing_found) svs
    else found_programs (program_phase strict true svs fsas)

-- walkPrograms, for the FSA link of the device; a device without one has no programs, or fails where
-- the configuration is strict.
unfoldable pub walk_programs : Bool → List Server → Option String → Answer ProgramWalk
unfolding assigned
walk_programs strict svs none = if strict then fails else answers (walk_of nothing_found) svs
walk_programs strict svs (some href) = assigned strict (fsa_phase strict svs href)

-- What the walk of a configuration that is not strict comes to, with its error as none inside.
unfoldable pub outcome : Answer ProgramWalk → Option (Option ProgramWalk)
outcome waits = none
outcome fails = some none
outcome (answers w svs) = some (some w)

-- What programMoved tells: the program stays, it is gone, or another takes its place.
pub data Moved : Type 0 where
  stays gone : Moved
  replaced : Program → Moved

moved_to : Program → Option Program → Moved
moved_to prog none = gone
moved_to prog (some next) = if not (same_program prog next) then replaced next else stays

-- programMoved, for the walk of a configuration that is not strict; none is a walk that fails.
unfoldable pub program_moved : Program → Option ProgramWalk → Moved
unfolding moved_to
program_moved prog none = stays
program_moved prog (some w) = if listed prog.mrid w.unreadable then stays else moved_to prog w.prog
