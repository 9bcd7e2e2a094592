-- ===== src/Gdl/Merging.antt =====
-- gdl/parser.go: several programs become one.
use mathlib.Core.List.{append_assoc, append-nil}
use ugem.Prelude.{String, Option, none, some, List, [], ◌∷◌, ◌++◌, map, ◌≡◌, refl, ap, sym, ◌∙◌}
use ugem.Prelude.Strings.{split}
use ugem.Gdl.{GdlProgram, no_program}
use ugem.Gdl.Parser.{
  BlockKind, type_block, event_block, action_block, goal_block, contract_block, policy_block,
  test_block, append_program, merge_from, merge_programs, parse_gdl_file, parse_gdl,
}
use ugem.Gdl.Blocks.{names, declared, map-append, names-parse_gdl}

pub append_program-names :
    (kind : BlockKind) (p q : GdlProgram)
    → names kind (append_program p q) ≡ names kind p ++ names kind q
unfolding append_program
append_program-names type_block p q = map-append _ p.types q.types
append_program-names event_block p q = map-append _ p.events q.events
append_program-names action_block p q = map-append _ p.actions q.actions
append_program-names goal_block p q = map-append _ p.goals q.goals
append_program-names contract_block p q = map-append _ p.contracts q.contracts
append_program-names policy_block p q = map-append _ p.policies q.policies
append_program-names test_block p q = map-append _ p.tests q.tests

pub no_program-names : (kind : BlockKind) → names kind no_program ≡ []
no_program-names type_block = refl
no_program-names event_block = refl
no_program-names action_block = refl
no_program-names goal_block = refl
no_program-names contract_block = refl
no_program-names policy_block = refl
no_program-names test_block = refl

-- what the files declare that can be read
unfoldable pub declared_in : BlockKind → List (Option String) → List String
unfolding declared split
declared_in kind [] = []
declared_in kind (none ∷ files) = declared_in kind files
declared_in kind (some input ∷ files) = declared kind (split input "\n") ++ declared_in kind files

merge_from-names :
    (kind : BlockKind) (merged : GdlProgram) (files : List (Option String))
    → names kind (merge_from merged (map parse_gdl_file files))
      ≡ names kind merged ++ declared_in kind files
unfolding merge_from declared_in parse_gdl_file
merge_from-names kind merged [] = sym (append-nil _)
merge_from-names kind merged (none ∷ files) = merge_from-names kind merged files
merge_from-names kind merged (some input ∷ files) =
    rw
      (
        merge_from-names kind (append_program merged (parse_gdl input)) files,
        append_program-names kind merged (parse_gdl input),
        names-parse_gdl kind input,
        append_assoc,
      )
      refl

-- The blocks of the merged program of several files are named as the lines of the files say, one
-- file after the other; a file that cannot be read adds none, and no name is dropped or merged.
pub merge_programs-names :
    (kind : BlockKind) (files : List (Option String))
    → names kind (merge_programs (map parse_gdl_file files)) ≡ declared_in kind files
unfolding merge_programs
merge_programs-names kind files =
    merge_from-names kind no_program files
    ∙ ap (λ ns. ns ++ declared_in kind files) (no_program-names kind)
