-- ===== src/Store/Details.antt =====
-- `_replace_image_rows` and `_replace_spec_rows` of infrastructure/persistence/sqlite_store.py:
-- the rows of a product are deleted and written anew, in order. `none` is an `IntegrityError`.
use doxx.Base.{
  ℕ, suc, String, Bool, ◌&&◌, ◌||◌, Option, none, some, List, [], ◌∷◌, ◌++◌, ◌==◌, ◌=s=◌,
  if◌then◌else◌,
}
use doxx.Table.{delete_where, exists}
use doxx.Store.Rows.{Time, Fields, ProductImage, ProductSpec, Db}
use doxx.Store.Env.{Externals}
use doxx.Store.Specs.{FlattenedSpec, flatten_specs}

-- `unique(raw_product_id, image_url)` and `unique(raw_product_id, position)`
unfoldable pub image_conflict : ℕ → String → ℕ → ProductImage → Bool
image_conflict id url position i =
    i.raw_product_id == id && (i.image_url =s= url || i.position == position)

unfoldable pub insert_images :
    ℕ → Time → ℕ → List String → List ProductImage → Option (List ProductImage)
insert_images id now position [] rows = some rows
insert_images id now position (url ∷ urls) rows =
    let row : ProductImage = record {
      raw_product_id = id;
      image_url = url;
      position = position;
      created_at = now;
      updated_at = now;
    } in
    let rest = insert_images id now (suc position) urls (rows ++ (row ∷ [])) in
    if exists (image_conflict id url position) rows then none else rest

unfoldable pub replace_image_rows : ℕ → List String → Time → Db → Option Db
replace_image_rows id urls now db =
    elim (insert_images id now 0 urls (delete_where (λ i. i.raw_product_id == id) db.images)) [
      | none ↦ none
      | some rows ↦ some (record db { images = rows })
    ]

-- `ifnull(source_section, '')`
abbrev pub section_text : Option String → String
section_text none = ""
section_text (some s) = s

-- `unique(raw_product_id, position)` and the index `ux_raw_product_specs_identity`
unfoldable pub spec_conflict : ℕ → FlattenedSpec → ℕ → ProductSpec → Bool
spec_conflict id spec position s =
    s.raw_product_id == id
    && (s.position == position
        || ((s.spec_name =s= spec.spec_name)
            && ((s.spec_value =s= spec.spec_value)
                && (section_text s.source_section =s= section_text spec.source_section))))

unfoldable pub insert_specs :
    ℕ → Time → ℕ → List FlattenedSpec → List ProductSpec → Option (List ProductSpec)
insert_specs id now position [] rows = some rows
insert_specs id now position (spec ∷ specs) rows =
    let row : ProductSpec = record {
      raw_product_id = id;
      spec_name = spec.spec_name;
      spec_value = spec.spec_value;
      source_section = spec.source_section;
      position = position;
      created_at = now;
      updated_at = now;
    } in
    let rest = insert_specs id now (suc position) specs (rows ++ (row ∷ [])) in
    if exists (spec_conflict id spec position) rows then none else rest

unfoldable pub replace_spec_rows : Externals → ℕ → Fields → Time → Db → Option Db
replace_spec_rows ext id raw_specs now db =
    elim (insert_specs id now 0 (flatten_specs ext raw_specs)
      (delete_where (λ s. s.raw_product_id == id) db.specs)) [
        | none ↦ none
        | some rows ↦ some (record db { specs = rows })
      ]
