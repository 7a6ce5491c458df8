-- ===== src/Access/Proxies/Tests.antt =====
-- Two proxies, one of which is refused twice.
use doxx.Base.{
  ℕ, ◌+◌, ◌<◌, ◌≡◌, ◌≢◌, refl, arith, String, true, false, none, some, List, [], ◌∷◌, length,
}
use doxx.Access.Proxies.{
  ProxySettings, Healths, Selector, mark_proxy_result, select_rotating_proxy,
  select_proxy_by_policy,
}
use doxx.Access.Proxies.Quarantine.{Marked, marked, unmarked, quarantine}
use doxx.Access.Proxies.Rotation.{rotate, every_candidate_selected}

abbrev settings : ProxySettings
settings = record {
  ban_score_threshold = 3;
  max_consecutive_failures = 1;
  cooldown = 300_000;
  is_sticky = true;
  sticky_requests = 20;
  sticky_purpose = λ purpose. "listing:sticky";
}

abbrev fresh : Healths
fresh url = none

abbrev selector : Selector
selector = record { rotation_counters = λ purpose. 5; sticky_leases = λ domain. none }

abbrev pool : List String
pool = "http://a" ∷ "http://b" ∷ []

abbrev refused : Healths
refused = mark_proxy_result settings false true 1_000 "http://a" fresh

-- A late success of the same proxy does not let it back.
abbrev late : Healths
late = mark_proxy_result settings true false 2_000 "http://a" refused

abbrev marks : Marked settings (1_000 + 300_000) refused late
marks = marked true false 2_000 "http://a" unmarked (omega arith)

quarantine_example :
    (select_proxy_by_policy settings late 60_000 "listing" "shop" pool selector).0 ≢ some "http://a"
quarantine_example =
    quarantine settings fresh late true 1_000 60_000 "http://a" "listing" "shop" pool selector
      (omega arith) marks (omega arith)

every_candidate_selected_example :
    (i : ℕ) × (i < length pool)
    × ((select_rotating_proxy settings fresh "listing" pool
          (rotate settings fresh i "listing" pool selector)).0
        ≡ some "http://b")
every_candidate_selected_example =
    every_candidate_selected settings fresh "http://b" "listing" pool selector refl
