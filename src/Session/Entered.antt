-- ===== src/Session/Entered.antt =====
-- The walk of cmd/inverterclient/managed_controls.go and main.go: what it has entered it keeps.
use ieee_2030_5_client_go.Shared.{
  ◌≡◌, refl, sym, ◌∙◌, ap, true, List, [], ◌∷◌, some, inl, inr, subst,
}
use ieee_2030_5_client_go.Shared.Map.{string_eq}
use ieee_2030_5_client_go.Session.Programs.{Program, Fsa}
use ieee_2030_5_client_go.Session.Walk.{
  Server, Found, reads, walk_program, walk_list, walk_linked, walk_fsa, walk_tree,
}
use ieee_2030_5_client_go.Session.Readable.{some_bind, some_inj}
use ieee_2030_5_client_go.Session.Offered.{
  Listed, OfferedBy, Offered, HasKey, linked-some, walk_list-keeps, walk_tree-keeps,
  walk_program-HasKey, walk_program-adds,
}

-- A program that is read, and whose control list can be read, is entered and stays.
module _ (sv : Server) (p : Program) (ok : reads sv.reads_controls p.control_list_link ≡ true) where
  abbrev Has : Found → Type 0
  Has f = HasKey p.mrid f.programs

  abbrev Any : Program → Type 0
  Any q = q ≡ q

  walk_list-adds :
      (ps : List Program) (f g : Found) → Listed p ps → walk_list sv true ps f ≡ some g → Has g
  unfolding walk_list
  walk_list-adds [] f g l e = absurd l
  walk_list-adds (q ∷ ps) f g l e =
      let (f', one, rest) = some_bind (walk_program sv true q f) (walk_list sv true ps) g e in
      (elim l [
        | inl same ↦
            let entered : Has f' =
              walk_program-adds sv p f f' ok
                (ap (λ x. walk_program sv true x f) (sym same) ∙ one) in
            walk_list-keeps sv Has Any (walk_program-HasKey sv p.mrid) ps f' g (λ x _. refl) entered
              rest
        | inr later ↦ walk_list-adds ps f' g later rest
      ])

  walk_fsa-adds :
      (fsa : Fsa) (f g : Found) → OfferedBy sv p fsa → walk_fsa sv true fsa f ≡ some g → Has g
  unfolding walk_linked
  walk_fsa-adds fsa f g (href, ps, n, list, l) e =
      let (ps', list', rest) =
        some_bind (sv.program_list href) (λ ps. walk_list sv true ps f) g
          (sym (linked-some sv fsa href f n) ∙ e) in
      let same : ps ≡ ps' = some_inj (sym list ∙ list') in
      walk_list-adds ps' f g (subst (Listed p) same l) rest

  pub walk_tree-adds :
      (fsas : List Fsa) (f g : Found)
      → Offered sv p fsas
      → walk_tree sv true fsas f ≡ some g
      → Has g
  unfolding walk_tree
  walk_tree-adds [] f g o e = absurd o
  walk_tree-adds (fsa ∷ fsas) f g o e =
      let (f', one, rest) = some_bind (walk_fsa sv true fsa f) (walk_tree sv true fsas) g e in
      (elim o [
        | inl here ↦
            walk_tree-keeps sv Has Any (walk_program-HasKey sv p.mrid) fsas f' g (λ x _. refl)
              (walk_fsa-adds fsa f f' here one) rest
        | inr later ↦ walk_tree-adds fsas f' g later rest
      ])
