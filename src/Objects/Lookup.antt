-- ===== src/Objects/Lookup.antt =====
-- storage/store.go and gdl/uql.go: what a query finds after an object is stored.
use ugem.Prelude.{
  ℕ, zero, suc, ◌+◌, ◌<◌, subst, put, eq_refl, Option, String, Bool, true, false, some, List, [],
  ◌∷◌, ◌==◌, ◌&&◌, ◌≡◌, refl, GoMap, get, map, arith, contains, take,
}
use ugem.Prelude.Int.{ℤ, pos, negsuc}
use ugem.Types.{Value, ok}
use ugem.Objects.{
  Paths, PersistentStore, Access, object_path, object_key, index_path, write_indexes, set_object,
  search_pattern, id_of, search, UqlQuery, UqlCondition, indexed_ids, is_full, take_results,
  execute_query,
}
use ugem.Objects.Files.{
  is_there, write_indexes-keeps, write_indexes-writes, contains-map, map-contains,
}

-- What `filepath.Glob` documents: for a pattern that is well formed it returns the names of all files
-- that match it, where a folder of a file counts as a file.
pub record GlobLaws (paths : Paths) : Type 0 where
  pub is_pattern : String → Bool
  pub accepts : String → String → Bool
  -- the first path is the second, or that of a folder that holds it
  pub covers : String → String → Bool
  pub covers_self : (f : String) → covers f f ≡ true
  pub finds :
      (files : GoMap String) (pattern : String)
      → is_pattern pattern ≡ true
      → (found : List String) × (paths.glob files pattern ≡ ok found)
        × ((f : String) → contains f found ≡ (is_there covers files f && accepts pattern f))

-- What a search finds for a pattern that is well formed: the ids of the files that match.
search_files :
    (paths : Paths) (laws : GlobLaws paths) (ps : PersistentStore) (type_name field : String)
    (value : Value)
    → laws.is_pattern (search_pattern paths ps.data_dir type_name field value) ≡ true
    → (found : List String) × (search paths ps type_name field value ≡ ok (map (id_of paths) found))
      × ((f : String)
          → contains f found ≡ (
              is_there laws.covers ps.indexes f
              && laws.accepts (search_pattern paths ps.data_dir type_name field value) f))
unfolding search
search_files paths laws ps type_name field value well =
    let (found, e, all) =
      laws.finds ps.indexes (search_pattern paths ps.data_dir type_name field value) well in
    (found, rw e refl, all)

with_object : Paths → Access → PersistentStore → String → String → GoMap Value → PersistentStore
with_object paths access ps type_name id contents = record ps {
  objects = put ps.objects (object_path paths ps.data_dir (object_key type_name id)) contents;
  indexes = write_indexes paths access.indexes ps.data_dir type_name id ps.indexes contents;
}

set_object-with_object :
    (paths : Paths) (access : Access) (ps : PersistentStore) (type_name id : String)
    (contents : GoMap Value)
    → access.creates ≡ true
    → access.encodes ≡ true
    → (set_object paths access ps type_name id contents).0
      ≡ with_object paths access ps type_name id contents
unfolding set_object with_object
set_object-with_object paths access ps type_name id contents creates encodes =
    rw (creates, encodes) refl

-- What the searches for a value before and after find.
record Finds (paths : Paths) (ps ps' : PersistentStore) (type_name field : String) (value : Value)
    (file : String) : Type 0 where
  before : List String
  after : List String
  searched : search paths ps type_name field value ≡ ok before
  searches : search paths ps' type_name field value ≡ ok after
  keeps : (s : String) → contains s before ≡ true → contains s after ≡ true
  finds : contains (id_of paths file) after ≡ true

with_object-Finds :
    (paths : Paths) (laws : GlobLaws paths) (access : Access) (ps : PersistentStore)
    (type_name id field : String) (contents : GoMap Value) (value : Value)
    → access.indexes field ≡ true
    → get contents field ≡ some value
    → let pattern = search_pattern paths ps.data_dir type_name field value in
      let file = index_path paths ps.data_dir type_name field value id in
      laws.is_pattern pattern ≡ true
      → laws.accepts pattern file ≡ true
      → Finds paths ps
          (with_object paths access ps type_name id contents)
          type_name
          field
          value
          file
unfolding with_object
with_object-Finds paths laws access ps type_name id field contents value indexes has well meets =
    let ps' = with_object paths access ps type_name id contents in
    let file = index_path paths ps.data_dir type_name field value id in
    let (old, e, all) = search_files paths laws ps type_name field value well in
    let (new, e', all') = search_files paths laws ps' type_name field value well in
    let written =
      write_indexes-writes laws.covers paths access.indexes ps.data_dir type_name id ps.indexes
        contents field value indexes has laws.covers_self in
    record {
      before = map (id_of paths) old;
      after = map (id_of paths) new;
      searched = e;
      searches = e';
      keeps = λ s h.
          let (f, there, named) = map-contains (id_of paths) s old h in
          let still =
            write_indexes-keeps laws.covers paths access.indexes ps.data_dir type_name id ps.indexes
              contents f (ground (arith, all f, there)) in
          subst (λ t. contains t (map (id_of paths) new) ≡ true) named
            (contains-map (id_of paths) f new (ground (arith, all f, there, all' f, still)));
      finds = contains-map (id_of paths) file new (ground (arith, all' file, written, meets));
    }

-- An object is stored that has a field with some value, its files can be made, and the pattern of the
-- search for that value is well formed and matches the path of the field's index file. Then the search
-- finds the id that is read off that path, and all the ids that it found before the object was stored:
-- the index files of the values that the object had before are still there. `filepath.Glob` is to
-- give exactly the files and folders that match.
pub search-set_object :
    (paths : Paths) (laws : GlobLaws paths) (access : Access) (ps : PersistentStore)
    (type_name id field : String) (contents : GoMap Value) (value : Value)
    → access.creates ≡ true
    → access.encodes ≡ true
    → access.indexes field ≡ true
    → get contents field ≡ some value
    → let pattern = search_pattern paths ps.data_dir type_name field value in
      let file = index_path paths ps.data_dir type_name field value id in
      laws.is_pattern pattern ≡ true
      → laws.accepts pattern file ≡ true
      → let ps' = (set_object paths access ps type_name id contents).0 in
        (before after : List String) × (search paths ps type_name field value ≡ ok before)
        × (search paths ps' type_name field value ≡ ok after)
        × ((s : String) → contains s before ≡ true → contains s after ≡ true)
        × (contains (id_of paths file) after ≡ true)
search-set_object paths laws access ps type_name id field contents value creates encodes indexes has
      well meets =
    let f =
      with_object-Finds paths laws access ps type_name id field contents value indexes has well
        meets in
    rw (set_object-with_object paths access ps type_name id contents creates encodes)
      (f.before, f.after, f.searched, f.searches, f.keeps, f.finds)

-- how many of the ids a limit lets through, after some results
abbrev allowed : ℤ → List String → List String
allowed (pos (suc n)) ids = take (suc n) ids
allowed _ ids = ids

take_results_lem :
    (n found left : ℕ) (ids : List String)
    → n ≡ found + left
    → 0 < n
    → take_results (pos n) found ids ≡ take left ids
unfolding take_results
take_results_lem n found zero [] e h = refl
take_results_lem n found (suc left) [] e h = refl
take_results_lem n found zero (id ∷ ids) e h = ground (arith, e)
take_results_lem n found (suc left) (id ∷ ids) e h =
    ground (arith, e, take_results_lem n (found + 1) left ids (omega arith) h)

take_results_all :
    (limit : ℤ) (found : ℕ) (ids : List String)
    → ((k : ℕ) → is_full limit k ≡ false)
    → take_results limit found ids ≡ ids
unfolding take_results
take_results_all limit found [] h = refl
take_results_all limit found (id ∷ ids) h =
    rw (h found, take_results_all limit (found + 1) ids h) refl

take_results-allowed :
    (limit : ℤ) (ids : List String) → take_results limit 0 ids ≡ allowed limit ids
take_results-allowed (pos zero) ids = take_results_all (pos zero) 0 ids (λ k. ground arith)
take_results-allowed (pos (suc n)) ids =
    take_results_lem (suc n) 0 (suc n) ids (omega arith) (omega arith)
take_results-allowed (negsuc n) ids = take_results_all (negsuc n) 0 ids (λ k. refl)

-- A query whose first condition is an equation answers the ids that the search for it finds, at most
-- as many as a positive limit; the instant of the query and its later conditions count for nothing.
execute_query-search :
    (paths : Paths) (ps : PersistentStore) (query : UqlQuery) (c : UqlCondition)
    (cs : List UqlCondition) (ids : List String)
    → query.conditions ≡ c ∷ cs
    → (c.operator == "==") ≡ true
    → search paths ps query.type_name c.field c.value ≡ ok ids
    → execute_query paths ps query ≡ ok (allowed query.limit ids)
unfolding execute_query indexed_ids
execute_query-search paths ps query c cs ids e equation found =
    rw (e, equation, found, take_results-allowed query.limit ids) (ground arith)

-- An object is stored that has a field with some value, its files can be made, the pattern of the
-- search for that value is well formed and matches the path of the field's index file, and the id is
-- read off that path. A query without a limit whose first condition asks for that value of that field
-- then has an answer, and the id of the object is in it, whatever instant and whatever later conditions
-- the query has. `filepath.Glob` is to give exactly the files and folders that match.
pub execute_query-set_object :
    (paths : Paths) (laws : GlobLaws paths) (access : Access) (ps : PersistentStore)
    (type_name id field : String) (contents : GoMap Value) (value : Value) (at_time : Option ℕ)
    (later : List UqlCondition)
    → access.creates ≡ true
    → access.encodes ≡ true
    → access.indexes field ≡ true
    → get contents field ≡ some value
    → let pattern = search_pattern paths ps.data_dir type_name field value in
      let file = index_path paths ps.data_dir type_name field value id in
      laws.is_pattern pattern ≡ true
      → laws.accepts pattern file ≡ true
      → id_of paths file ≡ id
      → let query : UqlQuery = record {
        type_name = type_name;
        at_time = at_time;
        conditions = record { field = field; operator = "=="; value = value } ∷ later;
        limit = pos 0;
      } in
        (ids : List String) × (execute_query paths
            (set_object paths access ps type_name id contents).0
            query
          ≡ ok ids)
        × (contains id ids ≡ true)
execute_query-set_object paths laws access ps type_name id field contents value at_time later
      creates encodes indexes has well meets named =
    let (before, after, _, found, _, there) =
      search-set_object paths laws access ps type_name id field contents value creates encodes
        indexes has well meets in
    (
      after,
      execute_query-search paths (set_object paths access ps type_name id contents).0
          (record {
            type_name = type_name;
            at_time = at_time;
            conditions = record { field = field; operator = "=="; value = value } ∷ later;
            limit = pos 0;
          })
          (record { field = field; operator = "=="; value = value }) later after refl (eq_refl "==")
          found,
      subst (λ s. contains s after ≡ true) named there,
    )
