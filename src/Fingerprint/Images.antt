-- ===== src/Fingerprint/Images.antt =====
-- What `normalize_image_urls` returns.
use doxx.Base.{
  ◌≤◌, ◌<◌, ◌≡◌, ◌≢◌, true, false, some, List, [], ◌∷◌, ◌++◌, arith, String, Bool-cases,
  Option-cases, inl, inr, All, All-append, Pairwise, length, length-append, leb, eq_iff,
}
use doxx.Table.{Pairwise-append_one}
use doxx.Fingerprint.{
  UrlSplit, is_valid_http_url, mem_text, max_image_urls, next_url, collect_urls,
  normalize_image_urls,
}

mem_text-false : (u : String) (xs : List String) → mem_text u xs ≡ false → All (λ x. x ≢ u) xs
mem_text-false u [] h = tt
mem_text-false u (x ∷ xs) h = (ground (arith, eq_iff u x), mem_text-false u xs (ground arith))

module _ (urlsplit : UrlSplit) where
  -- What holds of the addresses collected so far.
  pub record IsCollected (unique : List String) : Type 0 where
    pub distinct : Pairwise (λ a b. a ≢ b) unique
    pub valid : All (λ u. is_valid_http_url urlsplit u ≡ true) unique
    pub short : length unique ≤ max_image_urls

  next_url-some :
      (raw : String) (unique : List String) {u : String}
      → next_url urlsplit raw unique ≡ some u
      → (is_valid_http_url urlsplit u ≡ true) × (mem_text u unique ≡ false)
  unfolding next_url
  next_url-some raw unique {u} e = ground arith

  append-IsCollected :
      (raw : String) (unique : List String) {u : String}
      → IsCollected unique
      → length unique < max_image_urls
      → next_url urlsplit raw unique ≡ some u
      → IsCollected (unique ++ (u ∷ []))
  append-IsCollected raw unique {u} c room e =
      let (ok, new) = next_url-some raw unique e in
      record {
        distinct =
            Pairwise-append_one (λ a b. a ≢ b) unique u c.distinct (mem_text-false u unique new);
        valid =
            All-append (λ x. is_valid_http_url urlsplit x ≡ true) unique (u ∷ []) c.valid (ok, tt);
        short = omega (arith, length-append unique (u ∷ []));
      }

  collect_urls-IsCollected :
      (raws unique : List String)
      → IsCollected unique
      → length unique < max_image_urls
      → IsCollected (collect_urls urlsplit raws unique)
  unfolding collect_urls
  collect_urls-IsCollected [] unique c room = c
  collect_urls-IsCollected (raw ∷ raws) unique c room =
      elim (Option-cases (next_url urlsplit raw unique)) [
        | inl e ↦ rw (e, collect_urls) (collect_urls-IsCollected raws unique c room)
        | inr (u, e) ↦
            let more = append-IsCollected raw unique c room e in
            elim (Bool-cases (leb max_image_urls (length (unique ++ (u ∷ []))))) [
              | inl t ↦ rw (e, t, collect_urls) more
              | inr f ↦
                  rw (e, f, collect_urls)
                    (collect_urls-IsCollected raws (unique ++ (u ∷ [])) more (ground (arith, f)))
            ]
      ]

  -- The addresses that remain are pairwise different, are http or https addresses with a host, and
  -- are at most a hundred.
  pub normalize_image_urls-IsCollected :
      (raws : List String) → IsCollected (normalize_image_urls urlsplit raws)
  unfolding normalize_image_urls
  normalize_image_urls-IsCollected raws =
      collect_urls-IsCollected raws [] (record { distinct = tt; valid = tt; short = omega arith })
        (omega arith)
