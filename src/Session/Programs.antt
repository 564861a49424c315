-- ===== src/Session/Programs.antt =====
-- DERProgram as the session reads it, and the choice of one: internal/inverter/select.go. The order
-- of Go's strings, by bytes of UTF-8, is that of their code points.
use Prim.Native.Char.{code}
use ieee_2030_5_client_go.Shared.{
  ℕ, Bool, true, false, ◌&&◌, ◌||◌, List, [], ◌∷◌, Option, none, some, String, str_eq, ltb, ◌==◌,
  if◌then◌else◌,
}

-- DERProgram; a link is its href, or none.
pub record Program : Type 0 where
  pub mrid : String
  pub primacy : ℕ
  pub default_link : Option String
  pub control_list_link : Option String
  pub curve_list_link : Option String

-- FunctionSetAssignments.
pub record Fsa : Type 0 where
  pub program_list_link : Option String

abbrev pub codes : String → List ℕ
codes String.[] = []
codes (String.◌∷◌ c s) = code c ∷ codes s

unfoldable pub lex_lt : List ℕ → List ℕ → Bool
lex_lt xs [] = false
lex_lt [] (y ∷ ys) = true
lex_lt (x ∷ xs) (y ∷ ys) = ltb x y || (x == y && lex_lt xs ys)

-- s < t.
unfoldable pub str_lt : String → String → Bool
unfolding lex_lt
str_lt s t = lex_lt (codes s) (codes t)

-- Whether a program takes the winner's place.
unfoldable pub outranks : Program → Program → Bool
unfolding str_lt
outranks p winner =
    ltb p.primacy winner.primacy || (p.primacy == winner.primacy && str_lt p.mrid winner.mrid)

-- The loop of SelectHighestPriority, with a winner so far.
unfoldable pub select_from : Program → List (String × Program) → Program
unfolding outranks
select_from winner [] = winner
select_from winner ((m, p) ∷ progs) = select_from (if outranks p winner then p else winner) progs

-- SelectHighestPriority.
unfoldable pub select_highest_priority : List (String × Program) → Option Program
unfolding select_from
select_highest_priority [] = none
select_highest_priority ((m, p) ∷ progs) = some (select_from p progs)

-- listHref and linkHref.
unfoldable pub link_href : Option String → String
link_href none = ""
link_href (some href) = href

-- sameProgram.
unfoldable pub same_program : Program → Program → Bool
unfolding link_href
same_program a b =
    str_eq a.mrid b.mrid
    && (str_eq (link_href a.control_list_link) (link_href b.control_list_link)
        && str_eq (link_href a.default_link) (link_href b.default_link))
