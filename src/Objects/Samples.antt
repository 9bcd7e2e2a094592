-- ===== src/Objects/Samples.antt =====
-- An object that is stored twice, and the theorems about queries at it.
use Prim.Native.String as Str
use package.text.Mathlib.Text.{starts_with}
use ugem.Prelude.{
  ◌≡◌, refl, some, List, String, Bool, true, [], ◌∷◌, get, GoMap, contains, if◌then◌else◌, ◌&&◌,
  ◌==◌, eq_iff, eq_refl, arith, Bool-cases, inl, inr, ap,
}
use ugem.Prelude.Strings.{trim_suffix, has_suffix}
use ugem.Prelude.Int.{pos}
use ugem.Types.{Value, text, ok}
use ugem.Objects.{
  Paths, PersistentStore, Access, new_persistent_store, set_object, search, UqlCondition,
  execute_query, index_path, id_of, search_pattern,
}
use ugem.Objects.Files.{is_there}
use ugem.Objects.Lookup.{GlobLaws, search-set_object, execute_query-set_object}

-- The parts of clean paths, each behind a separator.
join_parts : List String → String
join_parts [] = ""
join_parts (part ∷ parts) =
    Str.◌++◌ (if starts_with part "/" then part else Str.◌++◌ "/" part) (join_parts parts)

behind_last : String → String → String
behind_last last Str.[] = last
behind_last last (Str.◌∷◌ c s) =
    if starts_with (Str.◌∷◌ c s) "/" then behind_last s s else behind_last last s

-- A pattern that ends in "*.ptr" matches what begins like it and ends in ".ptr".
fits : String → String → Bool
fits pattern f = starts_with f (trim_suffix pattern "*.ptr") && has_suffix f ".ptr"

matching : String → GoMap String → List String
matching pattern [] = []
matching pattern ((f, key) ∷ files) =
    if fits pattern f then f ∷ matching pattern files else matching pattern files

abbrev unix_paths : Paths
unix_paths = record {
  join = join_parts;
  base = λ s. behind_last s s;
  glob = λ files pattern. ok (matching pattern files);
}

contains-matching :
    (pattern f : String) (files : GoMap String)
    → contains f (matching pattern files)
      ≡ (is_there (λ (x y : String). x == y) files f && fits pattern f)
unfolding contains matching is_there
contains-matching pattern f [] = refl
contains-matching pattern f ((g, key) ∷ files) = elim (Bool-cases (f == g)) [
  | inl same ↦ ground (
    arith,
    contains-matching pattern f files,
    same,
    ap (fits pattern) ((eq_iff f g).0 same),
    eq_iff g f,
    eq_iff f g,
  )
  | inr unlike ↦ ground (arith, contains-matching pattern f files, unlike, eq_iff f g, eq_iff g f)
]

abbrev unix_laws : GlobLaws unix_paths
unix_laws = record {
  is_pattern = λ pattern. true;
  accepts = fits;
  covers = λ f g. f == g;
  covers_self = eq_refl;
  finds = λ files pattern h. (matching pattern files, refl, λ f. contains-matching pattern f files);
}

abbrev working : Access
working = record { creates = true; encodes = true; indexes = λ f. true }

abbrev empty_store : PersistentStore
empty_store =
    new_persistent_store
      (record { entries = []; files = []; path = "/data"; objects = []; indexes = [] })

abbrev in_status : String → GoMap Value
in_status status = ("status", text status) ∷ []

abbrev one_open : PersistentStore
one_open = (set_object unix_paths working empty_store "Order" "o1" (in_status "open")).0

search-set_object_example :
    let ps = (set_object unix_paths working one_open "Order" "o2" (in_status "open")).0 in
    (before after : List String) × (search unix_paths one_open "Order" "status" (text "open")
      ≡ ok before)
    × (search unix_paths ps "Order" "status" (text "open") ≡ ok after)
    × ((s : String) → contains s before ≡ true → contains s after ≡ true)
    × (contains "o2" after ≡ true)
unfolding join_parts behind_last fits trim_suffix has_suffix index_path id_of get set_object
    new_persistent_store search_pattern
search-set_object_example =
    search-set_object unix_paths unix_laws working one_open "Order" "o2" "status" (in_status "open")
      (text "open") refl refl refl refl refl refl

-- A later condition of the query is not looked at, and the instant neither.
abbrev by_total : List UqlCondition
by_total = record { field = "total"; operator = ">"; value = text "5" } ∷ []

execute_query-set_object_example :
    (ids : List String) × (execute_query unix_paths
        (set_object unix_paths working empty_store "Order" "o1" (in_status "open")).0
        (record {
          type_name = "Order";
          at_time = some 3;
          conditions = record { field = "status"; operator = "=="; value = text "open" } ∷ by_total;
          limit = pos 0;
        })
      ≡ ok ids)
    × (contains "o1" ids ≡ true)
unfolding join_parts behind_last fits trim_suffix has_suffix index_path id_of get
    new_persistent_store search_pattern
execute_query-set_object_example =
    execute_query-set_object unix_paths unix_laws working empty_store "Order" "o1" "status"
      (in_status "open") (text "open") (some 3) by_total refl refl refl refl refl refl refl
