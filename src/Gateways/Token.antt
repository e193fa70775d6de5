-- ===== src/Gateways/Token.antt =====
-- src/megabank/utils/mega-bank-token.util.ts: the access token of Bank Mega and its cache. A request for a
-- token that another request has already sent is not modelled.
use subscription_be.Prelude.{
  ℕ, zero, suc, ◌+◌, ◌*◌, ◌<◌, ◌≤◌, ◌≡◌, refl, String, Bool, true, false, Option, none, some, ltb,
  str_eq, if◌then◌else◌, arith, ◌⊎◌, inl, inr, Bool-cases,
}
use subscription_be.Db.Action.{Action, Result, ok, err, mega_bank_auth_error}

-- `CachedToken`
pub record CachedToken : Type 0 where
  pub access_token : String
  pub expires_at : ℕ

-- What the token endpoint answers: nothing (the network, a timeout, a body that is no JSON), a status
-- that is no success, or a body. `expires_in` is what `parseInt` reads, `none` for NaN or a negative number.
pub data Reply : Type 0 where
  unreachable : Reply
  refused : ℕ → Reply
  answered : (access_token : Option String) (expires_in : Option ℕ) → Reply

-- `TOKEN_REFRESH_BUFFER_MS` and `DEFAULT_TOKEN_TTL_SECONDS`
abbrev pub token_refresh_buffer_ms : ℕ
token_refresh_buffer_ms = 60000

abbrev pub default_token_ttl_seconds : ℕ
default_token_ttl_seconds = 300

-- `safeTtlSeconds`
abbrev pub safe_ttl_seconds : Option ℕ → ℕ
safe_ttl_seconds none = default_token_ttl_seconds
safe_ttl_seconds (some zero) = default_token_ttl_seconds
safe_ttl_seconds (some (suc n)) = suc n

abbrev store : ℕ → String → Option ℕ → Action (Option CachedToken) String
store later token expires_in cache =
    if str_eq token "" then (err mega_bank_auth_error 502, cache) else (
      ok token,
      some (record {
        access_token = token;
        expires_at = later + safe_ttl_seconds expires_in * 1000;
      }),
    )

-- `fetchAccessToken`, with the clock when the answer is there
unfoldable pub fetch_access_token : ℕ → Reply → Action (Option CachedToken) String
fetch_access_token later unreachable cache = (err mega_bank_auth_error 502, cache)
fetch_access_token later (refused status) cache = (err mega_bank_auth_error 502, cache)
fetch_access_token later (answered none expires_in) cache = (err mega_bank_auth_error 502, cache)
fetch_access_token later (answered (some token) expires_in) cache =
    store later token expires_in cache

abbrev usable : ℕ → Option CachedToken → Bool
usable now none = false
usable now (some c) = ltb (now + token_refresh_buffer_ms) c.expires_at

abbrev cached_or :
    Option CachedToken → Result String × Option CachedToken → Result String × Option CachedToken
cached_or none fetched = fetched
cached_or (some c) fetched = (ok c.access_token, some c)

-- `getAccessToken`: the cached token, if it is good for another minute
unfoldable pub get_access_token : ℕ → ℕ → Reply → Action (Option CachedToken) String
unfolding fetch_access_token
get_access_token now later reply cache =
    if usable now cache
    then cached_or cache (fetch_access_token later reply cache)
    else fetch_access_token later reply cache

-- `invalidateTokenCache`
unfoldable pub invalidate_token_cache : Action (Option CachedToken) (Unit {0})
invalidate_token_cache cache = (ok tt, none)

-- The token that a call returned
pub record Holds (token : String) (now later : ℕ) (cache : Option CachedToken) : Type 0 where
  pub entry : CachedToken
  pub cached : cache ≡ some entry
  pub same : entry.access_token ≡ token
  pub fresh : (now + token_refresh_buffer_ms < entry.expires_at) ⊎ (later + 1000 ≤ entry.expires_at)

ttl_positive :
    (later : ℕ) (expires_in : Option ℕ) → later + 1000 ≤ later + safe_ttl_seconds expires_in * 1000
ttl_positive later none = omega arith
ttl_positive later (some zero) = omega arith
ttl_positive later (some (suc n)) = omega arith

module _ (now later : ℕ) (token : String) where
  store-Holds :
      (t : String) (expires_in : Option ℕ) (cache : Option CachedToken)
      → (store later t expires_in cache).0 ≡ ok token
      → Holds token now later (store later t expires_in cache).1
  store-Holds t expires_in cache = elim (Bool-cases (str_eq t "")) [
    | inl empty ↦ rw empty (λ done. cc)
    | inr filled ↦ rw filled (λ done. record {
      entry = record { access_token = t; expires_at = later + safe_ttl_seconds expires_in * 1000 };
      cached = refl;
      same = cc;
      fresh = inr (ttl_positive later expires_in);
    })
  ]

  fetch-Holds :
      (reply : Reply) (cache : Option CachedToken)
      → (fetch_access_token later reply cache).0 ≡ ok token
      → Holds token now later (fetch_access_token later reply cache).1
  unfolding fetch_access_token
  fetch-Holds unreachable cache done = cc
  fetch-Holds (refused status) cache done = cc
  fetch-Holds (answered none expires_in) cache done = cc
  fetch-Holds (answered (some t) expires_in) cache done = store-Holds t expires_in cache done

  cached-Holds :
      (reply : Reply) (c : CachedToken)
      → (get_access_token now later reply (some c)).0 ≡ ok token
      → Holds token now later (get_access_token now later reply (some c)).1
  unfolding get_access_token
  cached-Holds reply c = elim (Bool-cases (ltb (now + token_refresh_buffer_ms) c.expires_at)) [
    | inl good ↦
        rw good (λ done. record {
          entry = c;
          cached = refl;
          same = cc;
          fresh = inl (ground (arith, good));
        })
    | inr stale ↦ rw stale (fetch-Holds reply (some c))
  ]

  -- A call that returns a token leaves it in the cache, and the token is good for more than a minute from
  -- the start of the call, or for a second at least from when the endpoint answered.
  pub get_access_token-Holds :
      (reply : Reply) (cache : Option CachedToken)
      → (get_access_token now later reply cache).0 ≡ ok token
      → Holds token now later (get_access_token now later reply cache).1
  unfolding get_access_token
  get_access_token-Holds reply none done = fetch-Holds reply none done
  get_access_token-Holds reply (some c) done = cached-Holds reply c done

-- A token that the endpoint has issued is used again, without another request, until a minute before it
-- expires, whatever the endpoint would answer.
pub get_access_token_reuses :
    (now later next_now next_later : ℕ) (token : String) (expires_in : Option ℕ) (reply : Reply)
    → str_eq token "" ≡ false
    → next_now + token_refresh_buffer_ms < later + safe_ttl_seconds expires_in * 1000
    → let (r, cache) = get_access_token now later (answered (some token) expires_in) none in
      (r ≡ ok token) × (get_access_token next_now next_later reply cache ≡ (ok token, cache))
unfolding get_access_token fetch_access_token
get_access_token_reuses now later next_now next_later token expires_in reply filled in_time =
    let good : ltb (next_now + token_refresh_buffer_ms) (later + safe_ttl_seconds expires_in * 1000)
        ≡ true =
      ground (arith, in_time) in
    rw filled (refl, rw good)
