-- ===== src/Gdl/Contracts.antt =====
-- gdl/parser.go: the branches that read the events and the actions of a contract, and the paths of an
-- event, which no branch reads.
use ugem.Prelude.{
  String, ◌==◌, none, List, [], ◌∷◌, ◌≡◌, refl, arith, Option-cases, Bool-cases, inl, inr, All,
  All-append,
}
use ugem.Prelude.Strings.{split, trim_space}
use ugem.Gdl.{EventDef, ContractDef}
use ugem.Gdl.Readers.{read_contract}
use ugem.Gdl.Parser.{
  Parsing, no_parsing, keep_named, BlockKind, event_block, contract_block, header, begin_block,
  read_body, is_skipped, read_line, read_lines, finish, parse_gdl,
}

-- A contract that exposes no event and provides no action.
abbrev pub IsBare : ContractDef → Type 0
IsBare c = (c.events ≡ []) × (c.actions ≡ [])

-- An event that names no path.
abbrev pub IsPathless : EventDef → Type 0
IsPathless e = (e.read_paths ≡ []) × (e.write_paths ≡ [])

record IsUnread (p : Parsing) : Type 0 where
  bare : IsBare p.contract_def
  all_bare : All IsBare p.program.contracts
  pathless : IsPathless p.event_def
  all_pathless : All IsPathless p.program.events

keep_named-All {ℓ κ} :
    {A : Type ℓ} (P : A → Type κ) (name : A → String) (xs : List A) (x : A)
    → All P xs
    → P x
    → All P (keep_named name xs x)
unfolding keep_named
keep_named-All P name xs x h hx = elim (Bool-cases (name x == "")) [
  | inl e ↦ rw e h
  | inr e ↦ rw e (All-append P xs (x ∷ []) h (hx, tt))
]

kept_contracts : (p : Parsing) → IsUnread p → All IsBare (finish p).contracts
unfolding finish
kept_contracts p h =
    keep_named-All IsBare (λ (c : ContractDef). c.name) p.program.contracts p.contract_def
      h.all_bare h.bare

kept_events : (p : Parsing) → IsUnread p → All IsPathless (finish p).events
unfolding finish
kept_events p h =
    keep_named-All IsPathless (λ (e : EventDef). e.name) p.program.events p.event_def h.all_pathless
      h.pathless

begin_block-IsUnread :
    (p : Parsing) (kind : BlockKind) (name : String)
    → IsUnread p
    → IsUnread (begin_block p kind name)
unfolding begin_block finish
begin_block-IsUnread p event_block name h = record {
  bare = h.bare;
  all_bare = h.all_bare;
  pathless = (refl, refl);
  all_pathless = kept_events p h;
}
begin_block-IsUnread p contract_block name h = record {
  bare = (refl, refl);
  all_bare = kept_contracts p h;
  pathless = h.pathless;
  all_pathless = h.all_pathless;
}
begin_block-IsUnread p _ name h = record {
  bare = h.bare;
  all_bare = h.all_bare;
  pathless = h.pathless;
  all_pathless = h.all_pathless;
}

-- A line that reaches the branches of the contract opens no event and no action.
read_contract-IsBare :
    (c : ContractDef) (line : String)
    → header line ≡ none
    → IsBare c
    → IsBare (read_contract c line)
unfolding header read_contract
read_contract-IsBare c line n h = ground arith

read_line-IsUnread : (p : Parsing) (line : String) → IsUnread p → IsUnread (read_line p line)
unfolding read_line read_body
read_line-IsUnread p line h = elim (Bool-cases (is_skipped line)) [
  | inl e ↦ rw e h
  | inr e ↦ elim (Option-cases (header line)) [
    | inl n ↦
        rw (e, n)
          (record {
            bare = read_contract-IsBare p.contract_def line n h.bare;
            all_bare = h.all_bare;
            pathless = h.pathless;
            all_pathless = h.all_pathless;
          })
    | inr ((kind, name), s) ↦ rw (e, s) (begin_block-IsUnread p kind name h)
  ]
]

read_lines-IsUnread :
    (p : Parsing) (lines : List String) → IsUnread p → IsUnread (read_lines p lines)
unfolding read_lines
read_lines-IsUnread p [] h = h
read_lines-IsUnread p (line ∷ lines) h =
    read_lines-IsUnread (read_line p (trim_space line)) lines
      (read_line-IsUnread p (trim_space line) h)

no_parsing-IsUnread : IsUnread no_parsing
no_parsing-IsUnread = record {
  bare = (refl, refl);
  all_bare = tt;
  pathless = (refl, refl);
  all_pathless = tt;
}

-- Whatever the text is, no contract of its program has an event or an action: the lines in a
-- contract's body that declare them open blocks of their own.
pub parse_gdl-IsBare : (input : String) → All IsBare (parse_gdl input).contracts
unfolding parse_gdl
parse_gdl-IsBare input =
    kept_contracts (read_lines no_parsing (split input "\n"))
      (read_lines-IsUnread no_parsing (split input "\n") no_parsing-IsUnread)

-- Whatever the text is, no event of its program reads or writes a path.
pub parse_gdl-IsPathless : (input : String) → All IsPathless (parse_gdl input).events
unfolding parse_gdl
parse_gdl-IsPathless input =
    kept_events (read_lines no_parsing (split input "\n"))
      (read_lines-IsUnread no_parsing (split input "\n") no_parsing-IsUnread)
