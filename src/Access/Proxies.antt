-- ===== src/Access/Proxies.antt =====
-- The choice among proxies and their health: infrastructure/access/proxy_policy.py with the policy
-- hardened, for one store and its pool of normalised addresses. Times are milliseconds.
pub mod Quarantine
pub mod Rotation
mod Tests
use doxx.Base.{
  ℕ, zero, suc, ◌+◌, ◌-◌, ◌%◌, String, max, min, Bool, true, false, not, ◌&&◌, ◌||◌, Option, none,
  some, List, [], ◌∷◌, length, filter, ltb, leb, ◌==◌, ◌=s=◌, if◌then◌else◌,
}
use doxx.Fingerprint.{strip_start, strip_end}
use doxx.Crm.Answers.{is_listed}

pub record ProxyHealthState : Type 0 where
  pub health_score : ℕ
  pub ban_score : ℕ
  pub consecutive_failures : ℕ
  pub cooldown_until : ℕ

pub record StickyLease : Type 0 where
  pub proxy_url : String
  pub uses_left : ℕ

-- The settings as the profile of the store resolves them, and the text `{purpose}:sticky` of a purpose.
pub record ProxySettings : Type 0 where
  pub ban_score_threshold : ℕ
  pub max_consecutive_failures : ℕ
  pub cooldown : ℕ
  pub is_sticky : Bool
  pub sticky_requests : ℕ
  pub sticky_purpose : String → String

abbrev pub Healths : Type 0
Healths = String → Option ProxyHealthState

-- The counters by purpose, and the leases by domain.
pub record Selector : Type 0 where
  pub rotation_counters : String → ℕ
  pub sticky_leases : String → Option StickyLease

abbrev pub new_health : ProxyHealthState
new_health = record {
  health_score = 100;
  ban_score = 0;
  consecutive_failures = 0;
  cooldown_until = 0;
}

abbrev pub or_new : Option ProxyHealthState → ProxyHealthState
or_new none = new_health
or_new (some state) = state

abbrev pub update {ℓ} : {A : Type ℓ} → String → A → (String → A) → String → A
update key value f k = if k =s= key then value else f k

-- `_BAN_LIKE_REASONS`, after `str.lower`
unfoldable pub is_ban_like : (String → String) → String → Bool
is_ban_like str_lower reason = is_listed (str_lower (strip_end (strip_start reason))) (
    "captcha" ∷ "access_denied" ∷ "transport_like_error_page" ∷ "cloudflare_challenge"
    ∷ "proxy_rejected" ∷ "http_403" ∷ "http_429" ∷ [])

-- `_is_in_cooldown`
unfoldable pub is_in_cooldown : Healths → String → ℕ → Bool
is_in_cooldown healths url now = ltb now (or_new (healths url)).cooldown_until

-- The order of `_health_rank`: fewer bans, then better health, then fewer failures.
unfoldable pub ranks_before : ProxyHealthState → ProxyHealthState → Bool
ranks_before a b =
    ltb a.ban_score b.ban_score
    || ((a.ban_score == b.ban_score)
        && (ltb b.health_score a.health_score
            || ((a.health_score == b.health_score)
                && ltb a.consecutive_failures b.consecutive_failures)))

module _ (settings : ProxySettings) where
  unfoldable pub record_success : ℕ → ProxyHealthState → ProxyHealthState
  record_success now state = record {
    health_score = min 100 (state.health_score + 3);
    ban_score = state.ban_score - 1;
    consecutive_failures = 0;
    cooldown_until = if leb state.cooldown_until now then 0 else state.cooldown_until;
  }

  unfoldable pub record_failure : Bool → ℕ → ProxyHealthState → ProxyHealthState
  record_failure ban_like now state =
      let failures = state.consecutive_failures + 1 in
      let bans = state.ban_score + (if ban_like then 2 else 1) in
      record {
        health_score = state.health_score - (if ban_like then 20 else 10);
        ban_score = bans;
        consecutive_failures = failures;
        cooldown_until =
            if leb settings.ban_score_threshold bans
              || leb settings.max_consecutive_failures failures
            then max state.cooldown_until (now + settings.cooldown)
            else state.cooldown_until;
      }

  unfoldable pub mark_proxy_result : Bool → Bool → ℕ → String → Healths → Healths
  mark_proxy_result success ban_like now url healths =
      let state = or_new (healths url) in
      update url
        (some (if success then record_success now state else record_failure ban_like now state))
        healths

  -- `sorted(candidates, key=_health_rank)`, which keeps the order of equals.
  abbrev pub insert_ranked : Healths → String → List String → List String
  insert_ranked healths url [] = url ∷ []
  insert_ranked healths url (u ∷ urls) =
      let rest = insert_ranked healths url urls in
      if ranks_before (or_new (healths u)) (or_new (healths url)) then u ∷ rest else url ∷ u ∷ urls

  abbrev pub sort_ranked : Healths → List String → List String
  sort_ranked healths [] = []
  sort_ranked healths (u ∷ urls) = insert_ranked healths u (sort_ranked healths urls)

  abbrev pub nth : ℕ → List String → Option String
  nth n [] = none
  nth zero (u ∷ urls) = some u
  nth (suc n) (u ∷ urls) = nth n urls

  unfoldable pub select_rotating_proxy :
      Healths → String → List String → Selector → Option String × Selector
  select_rotating_proxy healths purpose candidates s =
      let counter = s.rotation_counters purpose in
      (
        nth (counter % length candidates) (sort_ranked healths candidates),
        record s { rotation_counters = update purpose (counter + 1) s.rotation_counters },
      )

  -- A lease that is still good for one of the candidates.
  abbrev pub leased : List String → Option StickyLease → Option StickyLease
  leased candidates none = none
  leased candidates (some lease) =
      if is_listed lease.proxy_url candidates && ltb 0 lease.uses_left
      then some (record lease { uses_left = lease.uses_left - 1 })
      else none

  abbrev pub take_lease : String → Selector → StickyLease → Option String × Selector
  take_lease domain s lease = (
    some lease.proxy_url,
    record s { sticky_leases = update domain (some lease) s.sticky_leases },
  )

  -- A new lease for the proxy that was selected.
  abbrev pub lease_out : String → Option String → Selector → Option String × Selector
  lease_out domain none s = (none, s)
  lease_out domain (some url) s =
      take_lease domain s (record { proxy_url = url; uses_left = settings.sticky_requests - 1 })

  abbrev pub use_lease :
      String → Selector → Option String × Selector → Option StickyLease → Option String × Selector
  use_lease domain s fresh none = lease_out domain fresh.0 fresh.1
  use_lease domain s fresh (some lease) = take_lease domain s lease

  unfoldable pub select_sticky_proxy :
      Healths → String → String → List String → Selector → Option String × Selector
  select_sticky_proxy healths purpose domain candidates s =
      use_lease domain s
        (select_rotating_proxy healths (settings.sticky_purpose purpose) candidates s)
        (leased candidates (s.sticky_leases domain))

  unfoldable pub select_proxy_by_policy :
      Healths → ℕ → String → String → List String → Selector → Option String × Selector
  select_proxy_by_policy healths now purpose domain pool s =
      let selectable = filter (λ url. not (is_in_cooldown healths url now)) pool in
      if length selectable == 0
      then (none, s)
      else if settings.is_sticky
      then select_sticky_proxy healths purpose domain selectable s
      else select_rotating_proxy healths purpose selectable s
