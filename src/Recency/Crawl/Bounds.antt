-- ===== src/Recency/Crawl/Bounds.antt =====
-- The memories of a crawl: what is remembered is found, and every memory stays within its limit.
use doxx.Base.{
  ℕ, ◌≤◌, ◌≡◌, ap, String, Bool, true, false, List, [], ◌∷◌, arith, length, ltb, if_cases,
  Bool-cases, inl, inr,
}
use doxx.Fingerprint.{is_blank}
use doxx.Recency.Laws.{put_trim_lem}
use doxx.Recency.Crawl.{
  Seen, CrawlRuntimeRegistry, remember, has, or_false, remember_product_url, has_product_url,
  remember_source_id, has_source_id, remember_listing_signature, has_listing_signature,
  remember_listing_page_url, has_listing_page_url, record_zero_result_category,
  record_category_with_results, record_listing_stats, note_pagination_depth, note_edge_cases,
  note_banned_response, note_pagination_loop, note_product_asset_coverage,
}

-- A call of the registry.
pub data Call : Type 0 where
  product_url source_id listing_signature listing_page_url : String → Call
  zero_result_category category_with_results : String → Call
  listing_stats : String → ℕ → Call
  pagination_depth : ℕ → Call
  edge_cases : List String → Call
  banned_response pagination_loop : Call
  product_asset_coverage : Bool → Bool → Call

abbrev pub IsBounded : ℕ → CrawlRuntimeRegistry → Type 0
IsBounded max_entries r =
    (length r.seen_canonical_product_urls ≤ max_entries)
    × (length r.seen_source_ids ≤ max_entries)
    × (length r.seen_listing_signatures ≤ max_entries)
    × (length r.seen_canonical_listing_urls ≤ max_entries)
    × (length r.listing_to_product_counts ≤ max_entries)

abbrev pub empty_registry : String → CrawlRuntimeRegistry
empty_registry store = record {
  store = store;
  seen_canonical_product_urls = [];
  seen_source_ids = [];
  seen_listing_signatures = [];
  seen_canonical_listing_urls = [];
  zero_result_categories = [];
  categories_with_results = [];
  listing_to_product_counts = [];
  categories_zero_result_total = 0;
  pagination_depth_max = 0;
  products_with_specs_total = 0;
  products_without_specs_total = 0;
  products_with_images_total = 0;
  products_without_images_total = 0;
  edge_case_counts = [];
  banned_responses_total = 0;
  pagination_loops_detected = 0;
}

module _ (max_entries : ℕ) (join : String → String → String) where
  abbrev pub run_call : Call → CrawlRuntimeRegistry → CrawlRuntimeRegistry
  run_call (product_url u) r = remember_product_url max_entries join u r
  run_call (source_id s) r = remember_source_id max_entries join s r
  run_call (listing_signature s) r = remember_listing_signature max_entries join s r
  run_call (listing_page_url u) r = remember_listing_page_url max_entries join u r
  run_call (zero_result_category u) r = record_zero_result_category max_entries join u r
  run_call (category_with_results u) r = record_category_with_results max_entries join u r
  run_call (listing_stats u n) r = record_listing_stats max_entries join u n r
  run_call (pagination_depth n) r = note_pagination_depth max_entries join n r
  run_call (edge_cases tags) r = note_edge_cases max_entries join tags r
  run_call banned_response r = note_banned_response max_entries join r
  run_call pagination_loop r = note_pagination_loop max_entries join r
  run_call (product_asset_coverage s i) r = note_product_asset_coverage max_entries join s i r

  -- The first call of the list comes first.
  abbrev pub run_calls : List Call → CrawlRuntimeRegistry → CrawlRuntimeRegistry
  run_calls [] r = r
  run_calls (c ∷ cs) r = run_calls cs (run_call c r)

  note_edge_cases-IsBounded :
      (tags : List String) (r : CrawlRuntimeRegistry)
      → IsBounded max_entries r
      → IsBounded max_entries (note_edge_cases max_entries join tags r)
  unfolding note_edge_cases
  note_edge_cases-IsBounded [] r h = h
  note_edge_cases-IsBounded (t ∷ tags) r h =
      note_edge_cases-IsBounded tags _
        (elim (Bool-cases (is_blank t)) [ inl b ↦ rw b h | inr f ↦ rw f h ])

  run_call-IsBounded :
      1 ≤ max_entries
      → (c : Call) (r : CrawlRuntimeRegistry) → IsBounded max_entries r
      → IsBounded max_entries (run_call c r)
  unfolding remember_product_url remember_source_id remember_listing_signature
      remember_listing_page_url record_zero_result_category record_category_with_results
      record_listing_stats note_pagination_depth note_banned_response note_pagination_loop
      note_product_asset_coverage
  run_call-IsBounded one (product_url u) r (a, b, c, d, e) =
      ((put_trim_lem max_entries u true r.seen_canonical_product_urls).1 one, b, c, d, e)
  run_call-IsBounded one (source_id s) r (a, b, c, d, e) = elim (Bool-cases (is_blank s)) [
    | inl t ↦ rw t (a, b, c, d, e)
    | inr f ↦
        rw f (a, (put_trim_lem max_entries (join r.store s) true r.seen_source_ids).1 one, c, d, e)
  ]
  run_call-IsBounded one (listing_signature s) r (a, b, c, d, e) =
      (a, b, (put_trim_lem max_entries s true r.seen_listing_signatures).1 one, d, e)
  run_call-IsBounded one (listing_page_url u) r (a, b, c, d, e) =
      (a, b, c, (put_trim_lem max_entries u true r.seen_canonical_listing_urls).1 one, e)
  run_call-IsBounded one (zero_result_category u) r h = h
  run_call-IsBounded one (category_with_results u) r h = elim (Bool-cases (is_blank u)) [
    | inl t ↦ rw t h
    | inr f ↦ rw f h
  ]
  run_call-IsBounded one (listing_stats u n) r (a, b, c, d, e) =
      (a, b, c, d, (put_trim_lem max_entries u n r.listing_to_product_counts).1 one)
  run_call-IsBounded one (pagination_depth n) r h =
      if_cases (IsBounded max_entries) (ltb r.pagination_depth_max n) (λ t. h) (λ f. h)
  run_call-IsBounded one (edge_cases tags) r h = note_edge_cases-IsBounded tags r h
  run_call-IsBounded one banned_response r h = h
  run_call-IsBounded one pagination_loop r h = h
  run_call-IsBounded one (product_asset_coverage s i) r h = h

  run_calls-bounds :
      1 ≤ max_entries
      → (cs : List Call) (r : CrawlRuntimeRegistry) → IsBounded max_entries r
      → IsBounded max_entries (run_calls cs r)
  run_calls-bounds one [] r h = h
  run_calls-bounds one (c ∷ cs) r h =
      run_calls-bounds one cs (run_call c r) (run_call-IsBounded one c r h)

  -- With a positive limit every memory of a crawl stays within it, whatever is called in whatever
  -- order.
  pub run_calls-IsBounded :
      (store : String) (cs : List Call)
      → 1 ≤ max_entries
      → IsBounded max_entries (run_calls cs (empty_registry store))
  run_calls-IsBounded store cs one =
      run_calls-bounds one cs (empty_registry store)
        (omega arith, omega arith, omega arith, omega arith, omega arith)

  -- A product's address, its source's id unless it is empty, and a listing's signature and address
  -- are found right after they are remembered, whatever the limit.
  pub has-remember :
      (s : String) (r : CrawlRuntimeRegistry)
      → (has_product_url max_entries join s (remember_product_url max_entries join s r) ≡ true)
        × (is_blank s ≡ false
            → has_source_id max_entries join s (remember_source_id max_entries join s r) ≡ true)
        × (has_listing_signature max_entries join s
              (remember_listing_signature max_entries join s r)
            ≡ true)
        × (has_listing_page_url max_entries join s (remember_listing_page_url max_entries join s r)
            ≡ true)
  unfolding has_product_url remember_product_url has_source_id remember_source_id
      has_listing_signature remember_listing_signature has_listing_page_url
      remember_listing_page_url
  has-remember s r =
      let found : (k : String) (d : Seen) → has k (remember max_entries k d) ≡ true =
        λ k d. ap or_false (put_trim_lem max_entries k true d).0 in
      (
        found s r.seen_canonical_product_urls,
        λ f. rw f (found (join r.store s) r.seen_source_ids),
        found s r.seen_listing_signatures,
        found s r.seen_canonical_listing_urls,
      )
