-- ===== src/Recency/Crawl.antt =====
-- `CrawlRuntimeRegistry` of infrastructure/spiders/runtime_crawl_registry.py: what a spider has seen
-- in this run. The pages' counters that the spider raises itself are left out; the order of the
-- counts by edge case, which nothing reads, is that of their last change.
pub mod Bounds
use doxx.Base.{
  ℕ, ◌+◌, ◌≤◌, ◌≡◌, refl, String, Bool, true, false, not, Option, none, some, List, [], ◌∷◌, ◌++◌,
  arith, length, ltb, max, ◌=s=◌, if◌then◌else◌, ap, sym, ◌∙◌,
}
use doxx.Fingerprint.{is_blank}
use doxx.Recency.{get, put, trim}
use doxx.Recency.Laws.{put_trim_lem, length-trim_loop}
use doxx.Recency.Journal.{or_zero}

-- An `OrderedDict[str, bool]` whose values are all true.
abbrev pub Seen : Type 0
Seen = List (String × Bool)

pub record CrawlRuntimeRegistry : Type 0 where
  pub store : String
  pub seen_canonical_product_urls : Seen
  pub seen_source_ids : Seen
  pub seen_listing_signatures : Seen
  pub seen_canonical_listing_urls : Seen
  pub zero_result_categories : List String
  pub categories_with_results : List String
  pub listing_to_product_counts : List (String × ℕ)
  pub categories_zero_result_total : ℕ
  pub pagination_depth_max : ℕ
  pub products_with_specs_total : ℕ
  pub products_without_specs_total : ℕ
  pub products_with_images_total : ℕ
  pub products_without_images_total : ℕ
  pub edge_case_counts : List (String × ℕ)
  pub banned_responses_total : ℕ
  pub pagination_loops_detected : ℕ

-- The key is moved to the end, or added there, and the oldest keys are dropped.
abbrev pub remember : ℕ → String → Seen → Seen
remember max_n k d = trim max_n (put k true d)

abbrev pub or_false : Option Bool → Bool
or_false none = false
or_false (some b) = b

abbrev pub has : String → Seen → Bool
has k d = or_false (get k d)

-- `set.add`
abbrev pub add : String → List String → List String
add s [] = s ∷ []
add s (x ∷ xs) = let rest = add s xs in if s =s= x then x ∷ xs else x ∷ rest

-- `SCRAPY_CRAWL_REGISTRY_MAX_ENTRIES`, and the key of a source: `f"{self.store}:{source_id}"`.
module _ (max_entries : ℕ) (join : String → String → String) where
  unfoldable pub remember_product_url : String → CrawlRuntimeRegistry → CrawlRuntimeRegistry
  remember_product_url u r = record r {
    seen_canonical_product_urls = remember max_entries u r.seen_canonical_product_urls;
  }

  unfoldable pub has_product_url : String → CrawlRuntimeRegistry → Bool
  has_product_url u r = has u r.seen_canonical_product_urls

  unfoldable pub remember_source_id : String → CrawlRuntimeRegistry → CrawlRuntimeRegistry
  remember_source_id source_id r = if is_blank source_id then r else record r {
    seen_source_ids = remember max_entries (join r.store source_id) r.seen_source_ids;
  }

  unfoldable pub has_source_id : String → CrawlRuntimeRegistry → Bool
  has_source_id source_id r =
      if is_blank source_id then false else has (join r.store source_id) r.seen_source_ids

  unfoldable pub remember_listing_signature : String → CrawlRuntimeRegistry → CrawlRuntimeRegistry
  remember_listing_signature signature r = record r {
    seen_listing_signatures = remember max_entries signature r.seen_listing_signatures;
  }

  unfoldable pub has_listing_signature : String → CrawlRuntimeRegistry → Bool
  has_listing_signature signature r = has signature r.seen_listing_signatures

  unfoldable pub remember_listing_page_url : String → CrawlRuntimeRegistry → CrawlRuntimeRegistry
  remember_listing_page_url u r = record r {
    seen_canonical_listing_urls = remember max_entries u r.seen_canonical_listing_urls;
  }

  unfoldable pub has_listing_page_url : String → CrawlRuntimeRegistry → Bool
  has_listing_page_url u r = has u r.seen_canonical_listing_urls

  unfoldable pub record_zero_result_category : String → CrawlRuntimeRegistry → CrawlRuntimeRegistry
  record_zero_result_category category_url r = record r {
    zero_result_categories = add category_url r.zero_result_categories;
    categories_zero_result_total = r.categories_zero_result_total + 1;
  }

  unfoldable pub record_category_with_results : String → CrawlRuntimeRegistry → CrawlRuntimeRegistry
  record_category_with_results category_url r =
      if is_blank category_url
      then r
      else record r { categories_with_results = add category_url r.categories_with_results }

  unfoldable pub record_listing_stats : String → ℕ → CrawlRuntimeRegistry → CrawlRuntimeRegistry
  record_listing_stats listing_url product_urls_found r = record r {
    listing_to_product_counts =
        trim max_entries (put listing_url product_urls_found r.listing_to_product_counts);
  }

  unfoldable pub note_pagination_depth : ℕ → CrawlRuntimeRegistry → CrawlRuntimeRegistry
  note_pagination_depth page r =
      if ltb r.pagination_depth_max page then record r { pagination_depth_max = page } else r

  unfoldable pub note_edge_cases : List String → CrawlRuntimeRegistry → CrawlRuntimeRegistry
  note_edge_cases [] r = r
  note_edge_cases (t ∷ tags) r = note_edge_cases tags (
      if is_blank t then r else record r {
        edge_case_counts = put t (or_zero (get t r.edge_case_counts) + 1) r.edge_case_counts;
      })

  unfoldable pub note_banned_response : CrawlRuntimeRegistry → CrawlRuntimeRegistry
  note_banned_response r = record r { banned_responses_total = r.banned_responses_total + 1 }

  unfoldable pub note_pagination_loop : CrawlRuntimeRegistry → CrawlRuntimeRegistry
  note_pagination_loop r = record r { pagination_loops_detected = r.pagination_loops_detected + 1 }

  unfoldable pub note_product_asset_coverage :
      Bool → Bool → CrawlRuntimeRegistry → CrawlRuntimeRegistry
  note_product_asset_coverage has_specs has_images r = record r {
    products_with_specs_total = r.products_with_specs_total + (if has_specs then 1 else 0);
    products_without_specs_total = r.products_without_specs_total + (if has_specs then 0 else 1);
    products_with_images_total = r.products_with_images_total + (if has_images then 1 else 0);
    products_without_images_total = r.products_without_images_total + (if has_images then 0 else 1);
  }
