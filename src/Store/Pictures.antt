-- ===== src/Store/Pictures.antt =====
-- The images of a product, as `_replace_image_rows` leaves them.
use doxx.Base.{
  ℕ, suc, ◌<◌, ◌≡◌, refl, ◌≢◌, false, List, [], ◌∷◌, ◌++◌, some, arith, String, All, All-map_mono,
  All-append, Pairwise, ◌==◌, eq_iff, ◌∙◌, append_assoc, append-nil,
}
use doxx.Table.{exists-of-false, delete_where, delete_where-none}
use doxx.Store.Rows.{Time, ProductImage, Db}
use doxx.Store.Details.{image_conflict, insert_images, replace_image_rows}

abbrev pub image_rows : ℕ → Time → ℕ → List String → List ProductImage
image_rows id now position [] = []
image_rows id now position (url ∷ urls) =
    record {
      raw_product_id = id;
      image_url = url;
      position = position;
      created_at = now;
      updated_at = now;
    }
    ∷ image_rows id now (suc position) urls

-- An image row does not stand in the way of the addresses still to be inserted.
record IsClear (id position : ℕ) (urls : List String) (i : ProductImage) : Type 0 where
  before : i.raw_product_id ≡ id → i.position < position
  new : i.raw_product_id ≡ id → All (λ u. i.image_url ≢ u) urls

no-conflict :
    (id position : ℕ) (url : String) (urls : List String) (i : ProductImage)
    → IsClear id position (url ∷ urls) i
    → image_conflict id url position i ≡ false
unfolding image_conflict
no-conflict id position url urls i c = grind (arith, c.before, c.new, eq_iff i.image_url url)

module _ (id : ℕ) (now : Time) where
  insert_images_lem :
      (position : ℕ) (urls : List String) (rows : List ProductImage)
      → Pairwise (λ a b. a ≢ b) urls
      → All (IsClear id position urls) rows
      → insert_images id now position urls rows ≡ some (rows ++ image_rows id now position urls)
  unfolding insert_images
  insert_images_lem position [] rows d h = rw append-nil
  insert_images_lem position (url ∷ urls) rows d h =
      rw
        (exists-of-false (image_conflict id url position) rows (
          All-map_mono (IsClear id position (url ∷ urls)) _
            (λ i c. no-conflict id position url urls i c) rows h))
        (insert_images_lem (suc position) urls _ d.1 (
            All-append (IsClear id (suc position) urls) rows _
              (All-map_mono (IsClear id position (url ∷ urls)) (IsClear id (suc position) urls)
                (λ i c. record { before = λ e. omega (arith, c.before e); new = λ e. (c.new e).1 })
                rows h)
              (record { before = λ e. omega arith; new = λ e. d.0 }, tt))
          ∙ rw append_assoc refl)

  -- Addresses that are pairwise different are always accepted: the product's old images go, the
  -- new ones follow the images of other products, numbered from 0 in their order, and nothing else
  -- of the database changes.
  pub replace_image_rows_lem :
      (urls : List String) (db : Db)
      → Pairwise (λ a b. a ≢ b) urls
      → replace_image_rows id urls now db
        ≡ some (record db {
          images = delete_where (λ i. i.raw_product_id == id) db.images ++ image_rows id now 0 urls;
        })
  unfolding replace_image_rows
  replace_image_rows_lem urls db d = rw (
    insert_images_lem 0 urls (delete_where (λ i. i.raw_product_id == id) db.images) d (
        All-map_mono (λ i. (i.raw_product_id == id) ≡ false) (IsClear id 0 urls)
          (λ i f. record {
            before = λ e. ground (arith, f, e);
            new = λ e. absurd (ground (arith, f, e));
          })
          _ (delete_where-none (λ i. i.raw_product_id == id) db.images)),
    replace_image_rows,
  )
