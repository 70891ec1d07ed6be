-- ===== src/Orchestrator/Variables.antt =====
-- The variables in the arguments of a command (tools/test_orchestrator/main.go).
use p2ptogether.Prelude.{
  ℕ, suc, ◌+◌, ◌≡◌, refl, ap, ◌∙◌, arith, false, none, some, List, [], ◌∷◌, ◌++◌, map, ◌==◌, nat_eq,
  length, All,
}
use p2ptogether.Prelude.Maps.{Map}
use p2ptogether.Names.{Text, is_empty}
use p2ptogether.Orchestrator.{name_end, variable_at, value_of, replace_all, substitute_variables}

-- An argument as its author means it.
pub data Piece : Type 0 where
  plain variable : Text → Piece

abbrev pub template : List Piece → Text
template [] = []
template (plain t ∷ pieces) = t ++ template pieces
template (variable name ∷ pieces) = b'$' ∷ b'{' ∷ (name ++ b'}' ∷ template pieces)

-- The text with each variable's value in its place, and nothing replaced in a value.
abbrev pub filled : Map Text Text → List Piece → Text
filled variables [] = []
filled variables (plain t ∷ pieces) = t ++ filled variables pieces
filled variables (variable name ∷ pieces) = value_of variables name ++ filled variables pieces

abbrev Without : ℕ → Text → Type 0
Without c t = All (λ d. (d == c) ≡ false) t

-- Plain text has no "$", and a name is not empty and has no "}".
abbrev pub IsClear : List Piece → Type 0
IsClear [] = Unit
IsClear (plain t ∷ pieces) = Without b'$' t × IsClear pieces
IsClear (variable name ∷ pieces) = (is_empty name ≡ false) × Without b'}' name × IsClear pieces

variable_at-plain : (c : ℕ) (s : Text) → (c == b'$') ≡ false → variable_at (c ∷ s) ≡ none
unfolding variable_at
variable_at-plain c [] h = refl
variable_at-plain c (d ∷ s) h = rw h refl

name_end-spelled :
    (name rest : Text) → Without b'}' name → name_end (name ++ b'}' ∷ rest) ≡ some name
unfolding name_end
name_end-spelled [] rest h = refl
name_end-spelled (c ∷ name) rest h = rw (h.0, name_end-spelled name rest h.1) refl

variable_at-spelled :
    (name rest : Text)
    → is_empty name ≡ false
    → Without b'}' name
    → variable_at (b'$' ∷ b'{' ∷ (name ++ b'}' ∷ rest)) ≡ some name
unfolding variable_at
variable_at-spelled name rest h k = rw (name_end-spelled name rest k, h) refl

module _ (variables : Map Text Text) where
  replace_all-skip :
      (name rest : Text)
      → replace_all variables (suc (length name)) (name ++ b'}' ∷ rest)
        ≡ replace_all variables 0 rest
  unfolding replace_all
  replace_all-skip [] rest = refl
  replace_all-skip (c ∷ name) rest = replace_all-skip name rest

  replace_all-plain :
      (t rest : Text)
      → Without b'$' t
      → replace_all variables 0 (t ++ rest) ≡ t ++ replace_all variables 0 rest
  unfolding replace_all
  replace_all-plain [] rest h = refl
  replace_all-plain (c ∷ t) rest h =
      rw (variable_at-plain c (t ++ rest) h.0, replace_all)
        (ap (λ s. c ∷ s) (replace_all-plain t rest h.1))

  replace_all-spelled :
      (name rest : Text)
      → is_empty name ≡ false
      → Without b'}' name
      → replace_all variables 0 (b'$' ∷ b'{' ∷ (name ++ b'}' ∷ rest))
        ≡ value_of variables name ++ replace_all variables 0 rest
  unfolding replace_all
  replace_all-spelled name rest h k =
      let s = b'{' ∷ (name ++ b'}' ∷ rest) in
      let two : length name + 2 ≡ suc (suc (length name)) = omega arith in
      rw (variable_at-spelled name rest h k, replace_all)
        (ap (λ n. value_of variables name ++ replace_all variables n s) two
          ∙ ap (λ t. value_of variables name ++ t) (replace_all-skip name rest))

  replace_all-template :
      (pieces : List Piece)
      → IsClear pieces
      → replace_all variables 0 (template pieces) ≡ filled variables pieces
  unfolding replace_all
  replace_all-template [] h = refl
  replace_all-template (plain t ∷ pieces) h =
      replace_all-plain t (template pieces) h.0 ∙ ap (λ s. t ++ s) (replace_all-template pieces h.1)
  replace_all-template (variable name ∷ pieces) h =
      replace_all-spelled name (template pieces) h.0 h.1
      ∙ ap (λ s. value_of variables name ++ s) (replace_all-template pieces h.2)

-- Arguments that are written as plain text and variables, "${name}", are sent with the value of each
-- variable in its place; one that is not known stays as it is written, and what a value contains is
-- not replaced again. Plain text has no "$", and a name is not empty and has no "}".
pub substitute_variables_lem :
    (variables : Map Text Text) (args : List (Text × List Piece))
    → All (λ arg. IsClear arg.1) args
    → substitute_variables variables (map (λ arg. (arg.0, template arg.1)) args)
      ≡ map (λ arg. (arg.0, filled variables arg.1)) args
unfolding substitute_variables
substitute_variables_lem variables [] h = refl
substitute_variables_lem variables ((key, pieces) ∷ args) h = λ i.
    (key, replace_all-template variables pieces h.0 i)
    ∷ substitute_variables_lem variables args h.1 i
