-- ===== src/Accounts/Refresh.antt =====
-- The rotation of refresh tokens: a token works once, and not after a logout.
use mathlib.Core.Path.{subst}
use subscription_be.Prelude.{
  ℕ, ◌+◌, ◌≤◌, ◌≡◌, refl, sym, String, true, false, none, some, List, [], ◌++◌, ◌∷◌, ◌==◌, str_eq,
  str_eq_iff, arith, Option-cases, inl, inr, count_where, find_first, update_many,
  count_where-append, count_where-found, count_where-update_many, find_first-sat, find_first-none,
  find_first_of_count, find_first-append_none,
}
use subscription_be.Db.Action.{Result, ok, err, unauthorized}
use subscription_be.Db.Cases.{or_throw-cases, throw_if-cases}
use subscription_be.Accounts.{Role, User, RefreshToken, Store, Env}
use subscription_be.Accounts.Tokens.{
  TokenPair, with_hash, token_row, revoked, user_of, is_dead, refresh_ttl_ms, generate_tokens,
  revoke_token, rotate_refresh_token, revoke_refresh_token,
}
use subscription_be.Accounts.Sessions.{
  Reach, IsSpent, alive, added-IsSpent, Reach-IsSpent, revoke-IsSpent,
}

-- A spent token is refused, and nothing is written.
spent_refused :
    (env : Env) (token : String) (s : Store)
    → IsSpent (env.sha256_hex token) s
    → rotate_refresh_token env token s ≡ (err unauthorized 401, s)
unfolding rotate_refresh_token
spent_refused env token s h =
    let hash = env.sha256_hex token in
    elim (Option-cases (find_first (with_hash hash) s.refresh_tokens.rows)) [
      | inl absent ↦ rw absent
      | inr (t, found) ↦
          let dead : t.is_revoked ≡ true = ground (
            arith,
            count_where-found (with_hash hash) (alive hash) s.refresh_tokens.rows t found,
            find_first-sat (with_hash hash) s.refresh_tokens.rows t found,
            h.none_alive,
          ) in
          rw found (rw dead)
    ]

-- A rotation that returns has spent the token.
rotate-IsSpent :
    (env : Env) (token : String) (s : Store) (pair : TokenPair)
    → count_where (with_hash (env.sha256_hex token)) s.refresh_tokens.rows ≤ 1
    → (rotate_refresh_token env token s).0 ≡ ok pair
    → IsSpent (env.sha256_hex token) (rotate_refresh_token env token s).1
unfolding rotate_refresh_token
rotate-IsSpent env token s pair one =
    let hash = env.sha256_hex token in
    let P = λ (r : Result TokenPair × Store). r.0 ≡ ok pair → IsSpent hash r.1 in
    or_throw-cases P (find_first (with_hash hash) s.refresh_tokens.rows) unauthorized 401 _ s
      (λ e. cc)
      (λ t found.
        throw_if-cases P (is_dead env.now t) unauthorized 401 _ s (λ e. cc)
          (λ live.
            or_throw-cases P (user_of s t) unauthorized 401 _ s (λ e. cc)
              (λ user held e.
                added-IsSpent hash env t.user_id user.role (revoke_token t.id s).1
                  (revoke-IsSpent hash t s one found))))

-- Once a rotation has returned, its refresh token is refused for ever with UNAUTHORIZED (401) and
-- without effect, whatever is issued, revoked or rotated in between, where token hashes were unique
-- and SHA-256 gives the token the same hash again.
pub rotate_once :
    (env later : Env) (token : String) (s t : Store) (pair : TokenPair)
    → count_where (with_hash (env.sha256_hex token)) s.refresh_tokens.rows ≤ 1
    → (rotate_refresh_token env token s).0 ≡ ok pair
    → Reach (rotate_refresh_token env token s).1 t
    → later.sha256_hex token ≡ env.sha256_hex token
    → rotate_refresh_token later token t ≡ (err unauthorized 401, t)
rotate_once env later token s t pair one done r same = spent_refused later token t (
    subst (λ (hash : String). IsSpent hash t) (sym same)
      (Reach-IsSpent (env.sha256_hex token) r (rotate-IsSpent env token s pair one done)))

all_revoked :
    (hash : String) (rows : List RefreshToken)
    → count_where (alive hash) (update_many (with_hash hash) revoked rows) ≡ 0
all_revoked hash [] = refl
all_revoked hash (x ∷ rows) = ground (arith, all_revoked hash rows)

-- After a logout with a refresh token that was issued, the token is refused for ever, under the same
-- condition on SHA-256.
pub sign_out_ends :
    (env later : Env) (token : String) (s t : Store)
    → 1 ≤ count_where (with_hash (env.sha256_hex token)) s.refresh_tokens.rows
    → Reach (revoke_refresh_token env token s).1 t
    → later.sha256_hex token ≡ env.sha256_hex token
    → rotate_refresh_token later token t ≡ (err unauthorized 401, t)
unfolding revoke_refresh_token
sign_out_ends env later token s t issued r same =
    let hash = env.sha256_hex token in
    spent_refused later token t (
      subst (λ (k : String). IsSpent k t) (sym same)
        (Reach-IsSpent hash r (record {
          issued = omega (
            arith,
            count_where-update_many (with_hash hash) (with_hash hash) revoked s.refresh_tokens.rows
                (λ x. refl),
            issued,
          );
          none_alive = all_revoked hash s.refresh_tokens.rows;
        })))

-- A token that was just issued, and whose holder exists, can be rotated within seven days: the
-- rotation returns the next pair, for the role that the holder has then. The two random tokens must have
-- hashes that are not stored, and SHA-256 must give the token the same hash again.
pub issued_rotates :
    (env later : Env) (user : ℕ) (role : Role) (s : Store) (holder : User)
    → find_first (with_hash (env.sha256_hex env.random)) s.refresh_tokens.rows ≡ none
    → find_first (λ (u : User). u.id == user) s.users.rows ≡ some holder
    → later.sha256_hex env.random ≡ env.sha256_hex env.random
    → later.now ≤ env.now + refresh_ttl_ms
    → count_where (with_hash (later.sha256_hex later.random)) s.refresh_tokens.rows ≡ 0
    → str_eq (env.sha256_hex env.random) (later.sha256_hex later.random) ≡ false
    → ((generate_tokens env user role s).0
        ≡ ok (record { access_token = env.sign user role; refresh_token = env.random }))
      × ((rotate_refresh_token later env.random (generate_tokens env user role s).1).0
          ≡ ok
              (record { access_token = later.sign user holder.role; refresh_token = later.random }))
unfolding generate_tokens rotate_refresh_token revoke_token
issued_rotates env later user role s holder free held same in_time next_free differ =
    let hash = env.sha256_hex env.random in
    let next_hash = later.sha256_hex later.random in
    let row = token_row env user s.refresh_tokens.next_id in
    let rows = s.refresh_tokens.rows ++ row ∷ [] in
    let stored : find_first (with_hash hash) rows ≡ some row = rw (
      find_first-append_none (with_hash hash) s.refresh_tokens.rows (row ∷ [])
          (find_first-none (with_hash hash) s.refresh_tokens.rows free),
      (str_eq_iff hash hash).1 refl,
    ) in
    let live : is_dead later.now row ≡ false = ground (arith, in_time) in
    let unused : find_first (with_hash next_hash)
          (update_many (λ (t : RefreshToken). t.id == row.id) revoked rows)
        ≡ none =
      find_first_of_count (with_hash next_hash)
        (update_many (λ (t : RefreshToken). t.id == row.id) revoked rows)
        (ground (
          arith,
          count_where-update_many (with_hash next_hash) (λ (t : RefreshToken). t.id == row.id)
              revoked rows (λ t. refl),
          count_where-append (with_hash next_hash) s.refresh_tokens.rows (row ∷ []),
          next_free,
          differ,
        )) in
    (rw free, rw (free, same, stored) (rw (live, held, unused)))
