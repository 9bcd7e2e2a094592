-- ===== src/Objects/Files.antt =====
-- storage/store.go: the index files that `SetObject` writes, and the ids that are read off files.
use ugem.Prelude.{
  String, Bool, true, false, some, List, [], ◌∷◌, ◌==◌, ◌||◌, eq_iff, eq_refl, ◌≡◌, ap,
  if◌then◌else◌, GoMap, get, put, map, arith, Bool-cases, inl, inr, contains, subst,
}
use ugem.Types.{Value}
use ugem.Objects.{Paths, object_key, index_path, write_indexes}

-- whether a path is that of a file that is there, or of a folder that holds one
unfoldable pub is_there : (String → String → Bool) → GoMap String → String → Bool
is_there covers [] f = false
is_there covers ((g, key) ∷ files) f = covers f g || is_there covers files f

is_there-put :
    (covers : String → String → Bool) (files : GoMap String) (path f key : String)
    → is_there covers files f ≡ true
    → is_there covers (put files path key) f ≡ true
unfolding is_there put
is_there-put covers [] path f key h = absurd (cc h)
is_there-put covers ((g, k) ∷ files) path f key h =
    ground (arith, is_there-put covers files path f key, eq_iff g path, h)

is_there-put_self :
    (covers : String → String → Bool) (files : GoMap String) (path key : String)
    → covers path path ≡ true
    → is_there covers (put files path key) path ≡ true
unfolding is_there put
is_there-put_self covers [] path key h = ground (arith, h)
is_there-put_self covers ((g, k) ∷ files) path key h =
    ground (arith, is_there-put_self covers files path key h, eq_iff g path, h)

is_there_if :
    (covers : String → String → Bool) (b : Bool) (files : GoMap String) (path f key : String)
    → is_there covers files f ≡ true
    → is_there covers (if b then put files path key else files) f ≡ true
is_there_if covers true files path f key h = is_there-put covers files path f key h
is_there_if covers false files path f key h = h

module _ (covers : String → String → Bool) (paths : Paths) (indexes : String → Bool)
    (data_dir type_name id : String) where
  -- A file that is there stays.
  pub write_indexes-keeps :
      (files : GoMap String) (contents : GoMap Value) (f : String)
      → is_there covers files f ≡ true
      → is_there covers (write_indexes paths indexes data_dir type_name id files contents) f ≡ true
  unfolding write_indexes
  write_indexes-keeps files [] f h = h
  write_indexes-keeps files ((field, value) ∷ rest) f h =
      let path = index_path paths data_dir type_name field value id in
      write_indexes-keeps
        (if indexes field then put files path (object_key type_name id) else files) rest f
        (is_there_if covers (indexes field) files path f (object_key type_name id) h)

  -- The file of a field whose file can be written is there afterwards.
  pub write_indexes-writes :
      (files : GoMap String) (contents : GoMap Value) (field : String) (value : Value)
      → indexes field ≡ true
      → get contents field ≡ some value
      → ((path : String) → covers path path ≡ true)
      → is_there covers
          (write_indexes paths indexes data_dir type_name id files contents)
          (index_path paths data_dir type_name field value id)
        ≡ true
  unfolding write_indexes get
  write_indexes-writes files [] field value e h self = absurd (cc h)
  write_indexes-writes files ((k, v) ∷ rest) field value e h self =
      let path = index_path paths data_dir type_name k v id in
      let key = object_key type_name id in
      elim (Bool-cases (k == field)) [
        | inl same ↦
            let here : v ≡ value = ground (arith, h, same) in
            subst
              (λ w.
                is_there covers
                  (write_indexes paths indexes data_dir type_name id
                    (if indexes k then put files path key else files) rest)
                  (index_path paths data_dir type_name field w id)
                ≡ true)
              here
              (subst
                (λ j.
                  is_there covers
                    (write_indexes paths indexes data_dir type_name id
                      (if indexes k then put files path key else files) rest)
                    (index_path paths data_dir type_name j v id)
                  ≡ true)
                ((eq_iff k field).0 same)
                (rw (ap indexes ((eq_iff k field).0 same), e)
                  (write_indexes-keeps (put files path key) rest path
                    (is_there-put_self covers files path key (self path)))))
        | inr unlike ↦
            write_indexes-writes (if indexes k then put files path key else files) rest field value
              e (ground (arith, h, unlike)) self
      ]

pub contains-map :
    (name : String → String) (f : String) (files : List String)
    → contains f files ≡ true
    → contains (name f) (map name files) ≡ true
unfolding contains
contains-map name f [] h = absurd (cc h)
contains-map name f (g ∷ files) h = elim (Bool-cases (g == f)) [
  | inl same ↦ ground (arith, ap name ((eq_iff g f).0 same), eq_refl (name f))
  | inr unlike ↦ ground (arith, contains-map name f files (ground (arith, h, unlike)))
]

-- an id that is read off some file
pub map-contains :
    (name : String → String) (s : String) (files : List String)
    → contains s (map name files) ≡ true
    → (f : String) × (contains f files ≡ true) × (name f ≡ s)
unfolding contains
map-contains name s [] h = absurd (cc h)
map-contains name s (g ∷ files) h = elim (Bool-cases (name g == s)) [
  | inl same ↦ (g, ground (arith, eq_refl g), (eq_iff (name g) s).0 same)
  | inr unlike ↦
      let (f, there, named) = map-contains name s files (ground (arith, h, unlike)) in
      (f, ground (arith, there), named)
]
