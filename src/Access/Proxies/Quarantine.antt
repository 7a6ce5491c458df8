-- ===== src/Access/Proxies/Quarantine.antt =====
-- Which proxies `_select_proxy_by_policy` and `mark_proxy_result` of
-- infrastructure/access/proxy_policy.py leave to be selected.
use doxx.Base.{
  ℕ, zero, suc, ◌+◌, ◌≤◌, ◌<◌, ◌≡◌, ◌≢◌, refl, String, Bool, true, false, not, ◌&&◌, Option, none,
  some, List, [], ◌∷◌, length, filter, All, All-filter, All-map_mono, Ensures, Ensures-some, arith,
  ltb, ◌==◌, ◌=s=◌, eq_iff, if◌then◌else◌, if_cases, Bool-cases, inl, inr,
}
use mathlib.Core.Path.{subst, sym}
use doxx.Crm.Answers.{is_listed}
use doxx.Access.Proxies.{
  ProxyHealthState, StickyLease, ProxySettings, Healths, Selector, or_new, is_in_cooldown,
  ranks_before, record_success, record_failure, mark_proxy_result, insert_ranked, sort_ranked, nth,
  select_rotating_proxy, leased, lease_out, use_lease, select_sticky_proxy, select_proxy_by_policy,
}

module _ (settings : ProxySettings) (healths : Healths) (P : String → Type 0) where
  insert-All :
      (url : String) (urls : List String)
      → P url
      → All P urls
      → All P (insert_ranked settings healths url urls)
  insert-All url [] p all = (p, tt)
  insert-All url (u ∷ urls) p (first, rest) =
      if_cases (All P) (ranks_before (or_new (healths u)) (or_new (healths url)))
        (λ t. (first, insert-All url urls p rest)) (λ f. (p, (first, rest)))

  sort-All : (urls : List String) → All P urls → All P (sort_ranked settings healths urls)
  sort-All [] all = tt
  sort-All (u ∷ urls) (first, rest) =
      insert-All u (sort_ranked settings healths urls) first (sort-All urls rest)

  nth-All : (n : ℕ) (urls : List String) → All P urls → Ensures P (nth settings n urls)
  nth-All n [] all = tt
  nth-All zero (u ∷ urls) (first, rest) = first
  nth-All (suc n) (u ∷ urls) (first, rest) = nth-All n urls rest

  rotating-All :
      (purpose : String) (candidates : List String) (s : Selector)
      → All P candidates
      → Ensures P (select_rotating_proxy settings healths purpose candidates s).0
  unfolding select_rotating_proxy
  rotating-All purpose candidates s all = nth-All _ _ (sort-All candidates all)

  listed-All : (url : String) (urls : List String) → All P urls → is_listed url urls ≡ true → P url
  listed-All url [] all listed = absurd (cc listed)
  listed-All url (u ∷ urls) (first, rest) listed = elim (Bool-cases (url =s= u)) [
    | inl same ↦ subst P (sym ((eq_iff url u).0 same)) first
    | inr other ↦ listed-All url urls rest (ground (arith, other, listed))
  ]

  lease_out-All :
      (domain : String) (url : Option String) (s : Selector)
      → Ensures P url
      → Ensures P (lease_out settings domain url s).0
  lease_out-All domain none s p = tt
  lease_out-All domain (some url) s p = p

  abbrev IsGood : Option String × Selector → Type 0
  IsGood r = Ensures P r.0

  leased-All :
      (domain : String) (s : Selector) (fresh : Option String × Selector) (candidates : List String)
      (lease : Option StickyLease)
      → All P candidates
      → IsGood fresh
      → IsGood (use_lease settings domain s fresh (leased settings candidates lease))
  leased-All domain s fresh candidates none all p = lease_out-All domain fresh.0 fresh.1 p
  leased-All domain s fresh candidates (some lease) all p =
      let good = is_listed lease.proxy_url candidates && ltb 0 lease.uses_left in
      if_cases (λ l. IsGood (use_lease settings domain s fresh l)) good
        (λ t. listed-All lease.proxy_url candidates all (ground (arith, t)))
        (λ f. lease_out-All domain fresh.0 fresh.1 p)

  sticky-All :
      (purpose domain : String) (candidates : List String) (s : Selector)
      → All P candidates
      → IsGood (select_sticky_proxy settings healths purpose domain candidates s)
  unfolding select_sticky_proxy
  sticky-All purpose domain candidates s all =
      leased-All domain s _ candidates (s.sticky_leases domain) all
        (rotating-All (settings.sticky_purpose purpose) candidates s all)

  -- A choice among what does not cool down has what the pool has.
  policy-All :
      (now : ℕ) (purpose domain : String) (pool : List String) (s : Selector)
      → All P (filter (λ url. not (is_in_cooldown healths url now)) pool)
      → IsGood (select_proxy_by_policy settings healths now purpose domain pool s)
  unfolding select_proxy_by_policy
  policy-All now purpose domain pool s all =
      let selectable = filter (λ url. not (is_in_cooldown healths url now)) pool in
      if_cases IsGood (length selectable == 0) (λ t. tt)
        (λ f.
          if_cases IsGood settings.is_sticky (λ t. sticky-All purpose domain selectable s all)
            (λ f. rotating-All purpose selectable s all))

module _ (settings : ProxySettings) where
  pool_listed : (pool : List String) → All (λ url. is_listed url pool ≡ true) pool
  pool_listed [] = tt
  pool_listed (u ∷ urls) = (
    ground (arith, (eq_iff u u).1 refl),
    All-map_mono (λ url. is_listed url urls ≡ true) (λ url. is_listed url (u ∷ urls) ≡ true)
        (λ url listed. ground (arith, listed)) urls (pool_listed urls),
  )

  -- Whatever the rotation and the leases are, a selected proxy is one of the pool and does not cool
  -- down.
  pub select_proxy_by_policy-good :
      (healths : Healths) (now : ℕ) (purpose domain : String) (pool : List String) (s : Selector)
      (url : String)
      → (select_proxy_by_policy settings healths now purpose domain pool s).0 ≡ some url
      → (is_listed url pool ≡ true) × (is_in_cooldown healths url now ≡ false)
  select_proxy_by_policy-good healths now purpose domain pool s url selected =
      let Good : String → Type 0 =
        λ u. (is_listed u pool ≡ true) × (is_in_cooldown healths u now ≡ false) in
      Ensures-some Good (select_proxy_by_policy settings healths now purpose domain pool s).0
        (policy-All settings healths Good now purpose domain pool s (
          All-filter (λ u. is_listed u pool ≡ true) Good (λ u. not (is_in_cooldown healths u now))
            (λ u listed idle. (listed, ground (arith, idle))) pool (pool_listed pool)))
        selected

  -- Marks of any proxies, each before a given time.
  pub data Marked (until : ℕ) : Healths → Healths → Type 0 where
    unmarked : {healths : Healths} → Marked until healths healths
    marked :
        {before after : Healths} (success ban_like : Bool) (now : ℕ) (url : String)
        → Marked until before after
        → now < until
        → Marked until before (mark_proxy_result settings success ban_like now url after)

  abbrev until_of : Healths → String → ℕ
  until_of healths url = (or_new (healths url)).cooldown_until

  mark_same :
      (success ban_like : Bool) (now until : ℕ) (state : ProxyHealthState)
      → now < until
      → until ≤ state.cooldown_until
      → until
        ≤ (if success
            then record_success settings now state
            else record_failure settings ban_like now state).cooldown_until
  unfolding record_success record_failure
  mark_same success ban_like now until state early cools = ground arith

  mark-until :
      (success ban_like : Bool) (now until : ℕ) (url marked_url : String) (healths : Healths)
      → now < until
      → until ≤ until_of healths url
      → until ≤ until_of (mark_proxy_result settings success ban_like now marked_url healths) url
  unfolding mark_proxy_result
  mark-until success ban_like now until url marked_url healths early cools =
      if_cases (λ (o : Option ProxyHealthState). until ≤ (or_new o).cooldown_until)
        (url =s= marked_url)
        (λ same.
          mark_same success ban_like now until (or_new (healths marked_url)) early
            (subst (λ u. until ≤ until_of healths u) ((eq_iff url marked_url).0 same) cools))
        (λ other. cools)

  failed-until :
      (ban_like : Bool) (now : ℕ) (url : String) (healths : Healths)
      → settings.max_consecutive_failures ≤ (or_new (healths url)).consecutive_failures + 1
      → now + settings.cooldown
        ≤ until_of (mark_proxy_result settings false ban_like now url healths) url
  unfolding mark_proxy_result record_failure
  failed-until ban_like now url healths many = ground (arith, (eq_iff url url).1 refl)

  Marked-until :
      {until : ℕ} {before after : Healths} (url : String)
      → Marked until before after
      → until ≤ until_of before url
      → until ≤ until_of after url
  Marked-until url unmarked cools = cools
  Marked-until {until} url (marked {before} {after} success ban_like now other marks early) cools =
      mark-until success ban_like now until url other after early (Marked-until url marks cools)

  -- A proxy whose failure is one too many is not selected again until its cooldown is over, whatever
  -- is marked of it or of others in between, and whatever the rotation and the leases are.
  pub quarantine :
      (before after : Healths) (ban_like : Bool) (now at : ℕ) (url purpose domain : String)
      (pool : List String) (s : Selector)
      → settings.max_consecutive_failures ≤ (or_new (before url)).consecutive_failures + 1
      → Marked
          (now + settings.cooldown)
          (mark_proxy_result settings false ban_like now url before)
          after
      → at < now + settings.cooldown
      → (select_proxy_by_policy settings after at purpose domain pool s).0 ≢ some url
  unfolding is_in_cooldown
  quarantine before after ban_like now at url purpose domain pool s many marks early selected =
      let (listed, idle) =
        select_proxy_by_policy-good after at purpose domain pool s url selected in
      let start = failed-until ban_like now url before many in
      let cools = Marked-until url marks start in ground (arith, idle, cools, early)
