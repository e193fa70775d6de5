-- ===== src/Accounts/Reset.antt =====
-- Forgotten passwords: from the mail to the first login with the new password.
use subscription_be.Prelude.{
  ℕ, ◌+◌, ◌≤◌, ◌≡◌, refl, String, Bool, true, false, some, [], ◌∷◌, ◌==◌, str_eq_iff, arith, ltb,
  count_where, count_where-found, find_first, update_many, find_first_of_count, Option-cases, inl,
  inr, find_first-update, List,
}
use subscription_be.Db.Action.{ok, err, invalid_token}
use subscription_be.Accounts.{User, Store, Env, with_email, is_token}
use subscription_be.Accounts.Auth.{
  forgot_password, reset_password, with_reset_token, with_password, login, hour_ms,
}

abbrev pub resets_with : String → User → Bool
resets_with hash u = is_token u.reset_token hash

abbrev has_id : ℕ → User → Bool
has_id id u = u.id == id

-- A mark that only the row of the user carries finds that row.
marked_found :
    (email hash : String) (f : User → User) (rows : List User) (u : User)
    → find_first (with_email email) rows ≡ some u
    → count_where (has_id u.id) rows ≤ 1
    → count_where (resets_with hash) rows ≡ 0
    → ((x : User) → resets_with hash (f x) ≡ true)
    → find_first (resets_with hash) (update_many (has_id u.id) f rows) ≡ some (f u)
marked_found email hash f [] u found one none_yet marks = ground arith
marked_found email hash f (x ∷ rows) u found one none_yet marks = ground (
  arith,
  marked_found email hash f rows u,
  count_where-found (with_email email) (has_id u.id) rows u,
  marks x,
  marks,
)

-- What takes the mark away leaves no row with it.
unmarked :
    (id : ℕ) (hash : String) (f g : User → User) (rows : List User)
    → count_where (resets_with hash) rows ≡ 0
    → ((x : User) → (f x).id ≡ x.id)
    → ((x : User) → resets_with hash (g x) ≡ false)
    → count_where (resets_with hash) (update_many (has_id id) g (update_many (has_id id) f rows))
      ≡ 0
unmarked id hash f g [] none_yet same clears = refl
unmarked id hash f g (x ∷ rows) none_yet same clears =
    ground (arith, unmarked id hash f g rows, same x, clears (f x), same, clears)

-- A user who asks for a reset by mail can set a new password with the token within an hour, which uses
-- the token up: a second reset with it is refused (INVALID_TOKEN, 400) and writes nothing. Then the new
-- password logs in, if the account is active. The hash of the token must not be stored before, keys
-- must be unique, SHA-256 must give the token the same hash again, and bcrypt must accept the password
-- against its hash.
pub reset_logs_in :
    (env reset later : Env) (email password other : String) (u : User) (s : Store)
    → find_first (with_email email) s.users.rows ≡ some u
    → count_where (has_id u.id) s.users.rows ≤ 1
    → count_where (resets_with (env.sha256_hex env.random)) s.users.rows ≡ 0
    → u.is_active ≡ true
    → env.mail_sent ≡ true
    → reset.sha256_hex env.random ≡ env.sha256_hex env.random
    → reset.now ≤ env.now + hour_ms
    → later.compare password (reset.hash password) ≡ true
    → let s1 = (forgot_password env email s).1 in
      let (r, s2) = reset_password reset env.random password s1 in
      (r ≡ ok tt)
      × (reset_password reset env.random other s2 ≡ (err invalid_token 400, s2))
      × ((login later email password s2).0
          ≡ ok (with_password reset password (with_reset_token env u)))
unfolding forgot_password reset_password login
reset_logs_in env reset later email password other u s found one unused active sent same in_time
      accepts =
    let hash = env.sha256_hex env.random in
    let rows = s.users.rows in
    let f = with_reset_token env in
    let g = with_password reset password in
    let same_id : (u.id == u.id) ≡ true = ground arith in
    let rows1 = update_many (has_id u.id) f rows in
    let by_mail1 =
      find_first-update (with_email email) (has_id u.id) f rows u found same_id (λ x. refl) in
    let by_mail2 =
      find_first-update (with_email email) (has_id u.id) g rows1 (f u) by_mail1 same_id
        (λ x. refl) in
    let by_token =
      marked_found email hash f rows u found one unused (λ x. (str_eq_iff hash hash).1 refl) in
    let gone =
      find_first_of_count (resets_with hash) (update_many (has_id u.id) g rows1)
        (unmarked u.id hash f g rows unused (λ x. refl) (λ x. refl)) in
    let fresh : ltb (env.now + hour_ms) reset.now ≡ false = ground (arith, in_time) in
    rw (found, same)
      (simp sent (
        rw (by_token, fresh),
        rw (by_token, fresh, gone),
        rw (by_token, fresh, by_mail2, accepts, active),
      ))

-- Whether the address belongs to a user or not, `forgot_password` answers the same, if the mail goes out.
pub forgot_password_silent :
    (env : Env) (email other : String) (s : Store)
    → env.mail_sent ≡ true
    → (forgot_password env email s).0 ≡ (forgot_password env other s).0
unfolding forgot_password
forgot_password_silent env email other s sent =
    elim (Option-cases (find_first (with_email email) s.users.rows)) [
      | inl absent ↦ elim (Option-cases (find_first (with_email other) s.users.rows)) [
        | inl absent' ↦ rw (absent, absent')
        | inr (u', found') ↦ rw (absent, found') (simp sent)
      ]
      | inr (u, found) ↦ elim (Option-cases (find_first (with_email other) s.users.rows)) [
        | inl absent' ↦ rw (found, absent') (simp sent)
        | inr (u', found') ↦ rw (found, found') (simp sent)
      ]
    ]
