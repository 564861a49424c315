-- ===== src/Session/Assigned.antt =====
-- The rounds of phase2c_fsalist.go and phase2c_derprogram.go of cmd/inverterclient: whose answers the
-- walk goes by.
use ieee_2030_5_client_go.Shared.{
  ◌≡◌, refl, sym, ◌∙◌, ap, Bool, true, false, ◌&&◌, List, [], ◌∷◌, Option, none, some, String, inl,
  inr, ◌⊎◌, if◌then◌else◌, is_empty, not, str_eq, Bool-cases,
}
use ieee_2030_5_client_go.Shared.Map.{string_eq}
use ieee_2030_5_client_go.Session.Programs.{Fsa}
use ieee_2030_5_client_go.Session.Walk.{
  Server, Found, Answer, fails, answers, nothing_found, walk_tree, fsa_phase, program_phase,
  program_round,
}

program_round-answers :
    (strict : Bool) (o : Option Found) (svs left : List Server) (again : Answer Found) (f : Found)
    → program_round strict o svs again ≡ answers f left
    → (again ≡ answers f left) ⊎ ((left ≡ svs) × (o ≡ some f))
unfolding program_round
program_round-answers strict none svs left again f = λ h. absurd (cc)
program_round-answers strict (some g) svs left again f =
    elim (is_empty g.programs && strict)
      as (λ b.
        (if b then again else answers g svs) ≡ answers f left
        → (again ≡ answers f left) ⊎ ((left ≡ svs) × (◌≡◌ {A = Option Found} (some g) (some f)))) [
          | true ↦ λ h. inl h
          | false ↦ λ h. let same : g ≡ f = cc in inr (cc, ap some same)
        ]

-- What the servers of the rounds are that are left at the end of a phase.
abbrev pub IsRest : List Server → List Server → Type 0
IsRest left [] = ⊥
IsRest left (sv ∷ svs) = (left ≡ sv ∷ svs) ⊎ IsRest left svs

pub program_phase-answers :
    (strict lenient : Bool) (svs left : List Server) (fsas : List Fsa) (f : Found)
    → program_phase strict lenient svs fsas ≡ answers f left
    → (sv : Server) × (rest : List Server) × (left ≡ sv ∷ rest)
      × IsRest left svs
      × (walk_tree sv lenient fsas nothing_found ≡ some f)
unfolding program_phase
program_phase-answers strict lenient [] left fsas f h = absurd (cc)
program_phase-answers strict lenient (sv ∷ svs) left fsas f h =
    elim (program_round-answers strict (walk_tree sv lenient fsas nothing_found) (sv ∷ svs) left
      (program_phase strict lenient svs fsas) f h) [
        | inl later ↦
            let (at, rest, same, is_rest, walked) =
              program_phase-answers strict lenient svs left fsas f later in
            (at, rest, same, inr is_rest, walked)
        | inr (at, walked) ↦ (sv, svs, at, inl at, walked)
      ]

-- The assignments that the first server gives that has some, asked at `href` or where the list has
-- moved to, or the last one that was asked, with the servers of the rounds from there on.
abbrev pub AssignedBy : List Server → String → List Fsa → List Server → Type 0
AssignedBy [] href fsas left = ⊥
AssignedBy (sv ∷ svs) href fsas left =
    (new_href : String) × (((sv.fsa_list href ≡ some (fsas, new_href)) × (left ≡ sv ∷ svs))
      ⊎ ((sv.fsa_list href ≡ some ([], new_href))
          × AssignedBy svs (if not (str_eq new_href "") then new_href else href) fsas left))

empty_list : {A : Type 0} (xs : List A) (b : Bool) → is_empty xs && b ≡ true → xs ≡ []
empty_list [] b h = refl
empty_list (x ∷ xs) b h = absurd (cc)

pub fsa_phase-AssignedBy :
    (strict : Bool) (svs left : List Server) (href : String) (fsas : List Fsa) (h' : String)
    → fsa_phase strict svs href ≡ answers (fsas, h') left
    → AssignedBy svs href fsas left
unfolding fsa_phase
fsa_phase-AssignedBy strict [] left href fsas h' = λ e. absurd (cc)
fsa_phase-AssignedBy strict (sv ∷ svs) left href fsas h' =
    elim (sv.fsa_list href)
      as (λ o.
        elim o [
          | none ↦ fails
          | some (found, new_href) ↦
              let next = if not (str_eq new_href "") then new_href else href in
              let again = fsa_phase strict svs next in
              if is_empty found && strict then again else answers (found, next) (sv ∷ svs)
        ]
          ≡ answers (fsas, h') left
        → (new_href : String) × (((o ≡ some (fsas, new_href)) × (left ≡ sv ∷ svs))
            ⊎ ((o ≡ some ([], new_href))
                × AssignedBy svs (if not (str_eq new_href "") then new_href else href) fsas
                    left))) [
                      | none ↦ λ e. absurd (cc)
                      | some (found, new_href) ↦ λ e. (
                        new_href,
                        elim (Bool-cases (is_empty found && strict)) [
                          | inl on ↦
                              let none_found = empty_list found strict on in
                              let next = if not (str_eq new_href "") then new_href else href in
                              let later : fsa_phase strict svs next ≡ answers (fsas, h') left =
                                sym (
                                  ap
                                    (λ b.
                                      if b
                                      then fsa_phase strict svs next
                                      else answers (found, next) (sv ∷ svs))
                                    on)
                                ∙ e in
                              inr (
                                ap (λ x. some (x, new_href)) none_found,
                                fsa_phase-AssignedBy strict svs left next fsas h' later,
                              )
                          | inr off ↦
                              let next = if not (str_eq new_href "") then new_href else href in
                              let now : ◌≡◌ {A = Answer (List Fsa × String)}
                                  (answers (found, next) (sv ∷ svs)) (answers (fsas, h') left) =
                                sym (
                                  ap
                                    (λ b.
                                      if b
                                      then fsa_phase strict svs next
                                      else answers (found, next) (sv ∷ svs))
                                    off)
                                ∙ e in
                              let same : found ≡ fsas = cc in
                              let at : left ≡ sv ∷ svs = cc in
                              inl (ap (λ x. some (x, new_href)) same, at)
                        ],
                      )
                    ]
