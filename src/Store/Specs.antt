-- ===== src/Store/Specs.antt =====
-- `_flatten_specs` of sqlite_store.py (and its twin in persistence/common.py): a nested dictionary
-- of specifications becomes a list of named values, each with the section that it stood in.
use Prim.Native.String.{◌++◌}
use doxx.Base.{String, Option, none, some, List, []}
use mathlib.Core.List
use doxx.Fingerprint.{normalize_text}
use doxx.Store.Rows.{Json, null, scalar, arr, obj, Items, nil, cons, Fields, end, field}
use doxx.Store.Env.{Externals}

pub record FlattenedSpec : Type 0 where
  pub spec_name : String
  pub spec_value : String
  pub source_section : Option String

-- `normalize_text(item)` of an item of a list that is no dictionary
abbrev pub clean_item : Externals → Json → Option String
clean_item ext null = none
clean_item ext (scalar s) = normalize_text s
clean_item ext (arr xs) = normalize_text (ext.str_of (arr xs))
clean_item ext (obj fs) = normalize_text (ext.str_of (obj fs))

-- The loop over the items of a list: dictionaries stay, other items are cleaned, empty ones go.
unfoldable pub clean_items : Externals → Items → Items
clean_items ext nil = nil
clean_items ext (cons (obj fs) rest) = cons (obj fs) (clean_items ext rest)
clean_items ext (cons x rest) =
    let rest' = clean_items ext rest in
    elim (clean_item ext x) [ none ↦ rest' | some s ↦ cons (scalar s) rest' ]

abbrev pub dump_items : Externals → Items → Option String
dump_items ext nil = none
dump_items ext (cons x rest) = some (ext.json_dumps (arr (cons x rest)))

unfoldable pub coerce_spec_value : Externals → Json → Option String
coerce_spec_value ext null = none
coerce_spec_value ext (scalar s) = normalize_text s
coerce_spec_value ext (arr xs) = dump_items ext (clean_items ext xs)
coerce_spec_value ext (obj fs) = some (ext.json_dumps (obj fs))

-- The row for a plain value, if there is one.
abbrev pub plain :
    Externals → String → Json → Option String → List FlattenedSpec → List FlattenedSpec
plain ext name value section more = elim (coerce_spec_value ext value) [
  | none ↦ more
  | some v ↦ List.◌∷◌ (record { spec_name = name; spec_value = v; source_section = section }) more
]

abbrev pub next_prefix : Option String → String → String
next_prefix none key = key
next_prefix (some prefix) key = prefix ++ " / " ++ key

-- `_flatten_spec_section`, with what it appends returned. An empty dictionary is a plain value.
unfoldable mutual
  pub flatten_spec_section : Externals → String → Option String → Fields → List FlattenedSpec
  flatten_spec_section ext section prefix end = []
  flatten_spec_section ext section prefix (field key value rest) =
      let more = flatten_spec_section ext section prefix rest in
      elim (normalize_text key) [
        | none ↦ more
        | some k ↦ flatten_spec_value ext section (next_prefix prefix k) value more
      ]

  pub flatten_spec_value :
      Externals → String → String → Json → List FlattenedSpec → List FlattenedSpec
  flatten_spec_value ext section name null more = plain ext name null (some section) more
  flatten_spec_value ext section name (scalar s) more =
      plain ext name (scalar s) (some section) more
  flatten_spec_value ext section name (arr xs) more = plain ext name (arr xs) (some section) more
  flatten_spec_value ext section name (obj end) more = plain ext name (obj end) (some section) more
  flatten_spec_value ext section name (obj (field k v fs)) more =
      List.◌++◌ (flatten_spec_section ext section (some name) (field k v fs)) more

-- One entry of the outer loop: a dictionary that is not empty opens a section of its name.
unfoldable pub flatten_entry : Externals → String → Json → List FlattenedSpec → List FlattenedSpec
flatten_entry ext key null more = plain ext key null none more
flatten_entry ext key (scalar s) more = plain ext key (scalar s) none more
flatten_entry ext key (arr xs) more = plain ext key (arr xs) none more
flatten_entry ext key (obj end) more = plain ext key (obj end) none more
flatten_entry ext key (obj (field k v fs)) more =
    List.◌++◌ (flatten_spec_section ext key none (field k v fs)) more

unfoldable pub flatten_specs : Externals → Fields → List FlattenedSpec
flatten_specs ext end = []
flatten_specs ext (field key value rest) =
    let more = flatten_specs ext rest in
    elim (normalize_text key) [ none ↦ more | some k ↦ flatten_entry ext k value more ]
