-- ===== src/Access/Proxies/Rotation.antt =====
-- The rotation of `_select_rotating_proxy` of infrastructure/access/proxy_policy.py.
use mathlib.Core.Path.{sym}
use native.Mathlib.Nat.{mod-lt, mod-add-mod, add-mod-mod, add-mod_right, mod-eq_of_lt}
use doxx.Base.{
  ℕ, zero, suc, ◌+◌, ◌-◌, ◌%◌, ◌<◌, ◌≡◌, refl, ◌∙◌, ap, String, true, ◌||◌, some, List, [], ◌∷◌,
  length, arith, ◌=s=◌, eq_iff, if_cases, if_true, Bool-cases, inl, inr,
}
use doxx.Crm.Answers.{is_listed}
use doxx.Access.Proxies.{
  ProxySettings, Healths, Selector, or_new, ranks_before, insert_ranked, sort_ranked, nth,
  select_rotating_proxy,
}

module _ (settings : ProxySettings) (healths : Healths) where
  length-insert :
      (url : String) (urls : List String)
      → length (insert_ranked settings healths url urls) ≡ suc (length urls)
  length-insert url [] = refl
  length-insert url (u ∷ urls) =
      if_cases (λ (l : List String). length l ≡ suc (suc (length urls)))
        (ranks_before (or_new (healths u)) (or_new (healths url)))
        (λ t. ap suc (length-insert url urls)) (λ f. refl)

  length-sort : (urls : List String) → length (sort_ranked settings healths urls) ≡ length urls
  length-sort [] = refl
  length-sort (u ∷ urls) =
      length-insert u (sort_ranked settings healths urls) ∙ ap suc (length-sort urls)

  listed-insert :
      (v url : String) (urls : List String)
      → (v =s= url || is_listed v urls) ≡ true
      → is_listed v (insert_ranked settings healths url urls) ≡ true
  listed-insert v url [] listed = listed
  listed-insert v url (u ∷ urls) listed =
      if_cases (λ (l : List String). is_listed v l ≡ true)
        (ranks_before (or_new (healths u)) (or_new (healths url)))
        (λ t. elim (Bool-cases (v =s= u)) [
          | inl same ↦ rw same refl
          | inr other ↦ rw other (listed-insert v url urls (ground (arith, listed, other)))
        ])
        (λ f. listed)

  listed-sort :
      (v : String) (urls : List String)
      → is_listed v urls ≡ true
      → is_listed v (sort_ranked settings healths urls) ≡ true
  listed-sort v [] listed = listed
  listed-sort v (u ∷ urls) listed =
      listed-insert v u (sort_ranked settings healths urls) (elim (Bool-cases (v =s= u)) [
        | inl same ↦ rw same refl
        | inr other ↦ rw other (listed-sort v urls (ground (arith, listed, other)))
      ])

  -- A listed address has a place.
  place :
      (v : String) (urls : List String)
      → is_listed v urls ≡ true
      → (j : ℕ) × (j < length urls) × (nth settings j urls ≡ some v)
  place v [] listed = absurd (cc listed)
  place v (u ∷ urls) listed = elim (Bool-cases (v =s= u)) [
    | inl same ↦ (0, omega arith, ap some (sym ((eq_iff v u).0 same)))
    | inr other ↦
        let (j, low, here) = place v urls (ground (arith, listed, other)) in
        (suc j, omega (arith, low), here)
  ]

  -- So many selections from the same candidates.
  abbrev pub rotate : ℕ → String → List String → Selector → Selector
  rotate zero purpose candidates s = s
  rotate (suc n) purpose candidates s =
      (select_rotating_proxy settings healths purpose candidates (rotate n purpose candidates s)).1

  rotate-counter :
      (n : ℕ) (purpose : String) (candidates : List String) (s : Selector)
      → (rotate n purpose candidates s).rotation_counters purpose ≡ s.rotation_counters purpose + n
  unfolding select_rotating_proxy
  rotate-counter zero purpose candidates s = omega arith
  rotate-counter (suc n) purpose candidates s =
      if_true (purpose =s= purpose) _ _ ((eq_iff purpose purpose).1 refl)
      ∙ omega (arith, rotate-counter n purpose candidates s)

  -- The number of steps from a counter to a place.
  steps-mod : (c j n : ℕ) → j < n → (c + (j + (n - c % n)) % n) % n ≡ j
  steps-mod c j n low =
      let small = mod-lt c {m = n} (omega (arith, low)) in
      add-mod-mod c (j + (n - c % n)) n
      ∙ (sym (mod-add-mod c n (j + (n - c % n)))
          ∙ (ap (λ k. k % n) (omega (arith, small)) ∙ (add-mod_right j n ∙ mod-eq_of_lt low)))

  -- Within as many selections as there are candidates, every candidate is selected, wherever the
  -- counter stands, as long as the candidates and their health stay the same.
  pub every_candidate_selected :
      (url purpose : String) (candidates : List String) (s : Selector)
      → is_listed url candidates ≡ true
      → (i : ℕ) × (i < length candidates)
        × ((select_rotating_proxy settings healths purpose candidates
              (rotate i purpose candidates s)).0
            ≡ some url)
  unfolding select_rotating_proxy
  every_candidate_selected url purpose candidates s listed =
      let (j, low, here) =
        place url (sort_ranked settings healths candidates) (listed-sort url candidates listed) in
      let n = length candidates in
      let c = s.rotation_counters purpose in
      let below : j < n = omega (arith, low, length-sort candidates) in
      let i = (j + (n - c % n)) % n in
      let at : (rotate i purpose candidates s).rotation_counters purpose % n ≡ j =
        ap (λ k. k % n) (rotate-counter i purpose candidates s) ∙ steps-mod c j n below in
      (
        i,
        mod-lt (j + (n - c % n)) (omega (arith, below)),
        ap (λ k. nth settings k (sort_ranked settings healths candidates)) at ∙ here,
      )
