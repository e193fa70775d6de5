-- ===== src/Accounts/Sessions.antt =====
-- The life of a refresh token: what is revoked or rotated away never works again.
use subscription_be.Prelude.{
  ℕ, ◌≤◌, ◌≡◌, refl, ap, String, Bool, false, not, ◌&&◌, some, List, [], ◌∷◌, ◌==◌, str_eq,
  str_eq_iff, arith, is_some, Bool-cases, inl, inr, count_where, find_first, update_many,
  count_where-append, count_where_mono, count_where-update_many, count_where-update_many_le,
  find_first-none, find_first-some,
}
use subscription_be.Db.Table
use subscription_be.Accounts.{Role, RefreshToken, Store, Env}
use subscription_be.Accounts.Tokens.{
  with_hash, token_row, revoked, generate_tokens, revoke_token, revoke_refresh_token,
}

-- One step on the stored tokens. `revoke` and `issue` are the two writes of a rotation, between which
-- other requests can write; a request that leaves the tokens alone is `other`.
pub data Step : Store → Store → Type 0 where
  issue :
      (env : Env) (user : ℕ) (role : Role) (s : Store) → Step s (generate_tokens env user role s).1
  revoke : (id : ℕ) (s : Store) → Step s (revoke_token id s).1
  sign_out : (env : Env) (token : String) (s : Store) → Step s (revoke_refresh_token env token s).1
  other : (s t : Store) → t.refresh_tokens ≡ s.refresh_tokens → Step s t

pub data Reach (s : Store) : Store → Type 0 where
  here : Reach s s
  next : {t u : Store} → Reach s t → Step t u → Reach s u

abbrev pub alive : String → RefreshToken → Bool
alive hash t = with_hash hash t && not t.is_revoked

-- A token was issued under this hash, and it is revoked.
pub record IsSpent (hash : String) (s : Store) : Type 0 where
  pub issued : 1 ≤ count_where (with_hash hash) s.refresh_tokens.rows
  pub none_alive : count_where (alive hash) s.refresh_tokens.rows ≡ 0

-- A hash under which nothing is stored is not the hash of a token that was issued.
fresh_hash :
    (hash fresh : String) (s : Store)
    → 1 ≤ count_where (with_hash hash) s.refresh_tokens.rows
    → is_some (find_first (with_hash fresh) s.refresh_tokens.rows) ≡ false
    → str_eq fresh hash ≡ false
fresh_hash hash fresh s issued free = elim (Bool-cases (str_eq fresh hash)) [
  | inl same ↦
      let none_found =
        ap (λ (k : String). find_first (with_hash k) s.refresh_tokens.rows)
          ((str_eq_iff fresh hash).0 same) in
      ground
        (arith, find_first-none (with_hash hash) s.refresh_tokens.rows, none_found, free, issued)
  | inr differ ↦ differ
]

-- A row that is added under another hash.
pub added-IsSpent :
    (hash : String) (env : Env) (user : ℕ) (role : Role) (s : Store)
    → IsSpent hash s
    → IsSpent hash (generate_tokens env user role s).1
unfolding generate_tokens
added-IsSpent hash env user role s h =
    let fresh = env.sha256_hex env.random in
    elim (Bool-cases (is_some (find_first (with_hash fresh) s.refresh_tokens.rows))) [
      | inl taken ↦ rw taken h
      | inr free ↦ rw free (
          let row = token_row env user s.refresh_tokens.next_id in
          record {
            issued = omega (
              arith,
              count_where-append (with_hash hash) s.refresh_tokens.rows (row ∷ []),
              h.issued,
            );
            none_alive = ground (
              arith,
              count_where-append (alive hash) s.refresh_tokens.rows (row ∷ []),
              h.none_alive,
              fresh_hash hash fresh s h.issued free,
            );
          })
    ]

-- Revoking more rows.
revoked-IsSpent :
    (hash : String) (p : RefreshToken → Bool) (s : Store)
    → IsSpent hash s
    → IsSpent hash (record s { refresh_tokens = Table.update p revoked s.refresh_tokens })
revoked-IsSpent hash p s h = record {
  issued = omega (
    arith,
    count_where-update_many (with_hash hash) p revoked s.refresh_tokens.rows (λ t. refl),
    h.issued,
  );
  none_alive = omega (
    arith,
    count_where-update_many_le (alive hash) p revoked s.refresh_tokens.rows (λ t e k. ground arith),
    h.none_alive,
  );
}

Step-IsSpent : (hash : String) {s t : Store} → Step s t → IsSpent hash s → IsSpent hash t
unfolding revoke_token revoke_refresh_token
Step-IsSpent hash (issue env user role s) h = added-IsSpent hash env user role s h
Step-IsSpent hash (revoke id s) h = revoked-IsSpent hash (λ t. t.id == id) s h
Step-IsSpent hash (sign_out env token s) h =
    revoked-IsSpent hash (with_hash (env.sha256_hex token)) s h
Step-IsSpent hash (other s t same) h = record {
  issued = rw same h.issued;
  none_alive = rw same h.none_alive;
}

pub Reach-IsSpent : (hash : String) {s t : Store} → Reach s t → IsSpent hash s → IsSpent hash t
Reach-IsSpent hash here h = h
Reach-IsSpent hash (next r st) h = Step-IsSpent hash st (Reach-IsSpent hash r h)

revoked_found :
    (hash : String) (rows : List RefreshToken) (t : RefreshToken)
    → find_first (with_hash hash) rows ≡ some t
    → count_where (with_hash hash) rows ≤ 1
    → count_where (alive hash) (update_many (λ (x : RefreshToken). x.id == t.id) revoked rows) ≡ 0
revoked_found hash [] t found one = refl
revoked_found hash (x ∷ rows) t found one = ground (
  arith,
  revoked_found hash rows t,
  count_where-update_many_le (alive hash) (λ (y : RefreshToken). y.id == t.id) revoked rows
      (λ y e k. ground arith),
  count_where_mono (with_hash hash) (alive hash) rows (λ y e. ground arith),
  found,
)

-- The write that a rotation begins with spends the token that it found.
pub revoke-IsSpent :
    (hash : String) (t : RefreshToken) (s : Store)
    → count_where (with_hash hash) s.refresh_tokens.rows ≤ 1
    → find_first (with_hash hash) s.refresh_tokens.rows ≡ some t
    → IsSpent hash (revoke_token t.id s).1
unfolding revoke_token
revoke-IsSpent hash t s one found = record {
  issued = omega (
    arith,
    count_where-update_many (with_hash hash) (λ (x : RefreshToken). x.id == t.id) revoked
        s.refresh_tokens.rows (λ x. refl),
    find_first-some (with_hash hash) s.refresh_tokens.rows t found,
  );
  none_alive = revoked_found hash s.refresh_tokens.rows t found one;
}
