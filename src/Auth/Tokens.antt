-- ===== src/Auth/Tokens.antt =====
-- auth/tokenstore.go: the stored credentials of the remote service, and their refresh. The store in the
-- database and the cipher may each be absent. A time is a number of nanoseconds, 0 for the zero time.
-- `refresh` is the answer of the remote service; between the look under the lock and that answer other
-- requests may run, so the end of a refresh is a function of its own.
pub mod Table
pub mod Refresh
pub mod Serving
use guardian_tracker.Prelude.{
  ℕ, ◌+◌, Bool, true, false, not, ◌||◌, Option, none, some, List, [], ◌∷◌, String, if◌then◌else◌,
  ◌==◌, nat_eq, string_eq, ltb, ℤ, Assoc, lookup, insert, delete, keep,
}
use guardian_tracker.Prelude.Results.{Result, ok, err, ◌>>=◌}

pub record BungieTokens : Type 0 where
  pub access_token : String
  pub refresh_token : String
  pub access_token_expires_at : ℕ
  pub refresh_token_expires_at : ℕ
  pub membership_id : String
  pub db_updated_at : ℕ

pub record EncryptedTokenRecord : Type 0 where
  pub access_token_enc : String
  pub refresh_token_enc : String
  pub access_expires_at : ℕ
  pub refresh_expires_at : ℕ
  pub key_version : ℤ
  pub updated_at : ℕ

pub data TokenError : Type 0 where
  tokens_not_found no_user_row reauthorization_required cas_lost incomplete : TokenError
  failed : String → TokenError

-- The port to persistence, over the states of a store.
pub record TokenRepo {ℓ} (S : Type ℓ) : Type ℓ where
  pub get : S → String → Result TokenError EncryptedTokenRecord
  pub upsert : S → String → EncryptedTokenRecord → ℕ → Result TokenError (ℕ × Bool) × S
  pub remove : S → String → S

-- The second argument is the additional data that the text is bound to.
pub record TokenCipher : Type 0 where
  pub encrypt : String → String → Result TokenError (String × ℤ)
  pub decrypt : String → String → ℤ → Option String

-- The answer of the remote service where it gives no tokens: a refusal with its status, or a failure.
pub data OauthError : Type 0 where
  grant_refused : ℕ → OauthError
  not_answered : String → OauthError

-- `isAccessTokenExpired`: five minutes ahead
unfoldable pub is_access_token_expired : ℕ → BungieTokens → Bool
is_access_token_expired now t = ltb t.access_token_expires_at (now + 300000000000)

unfoldable pub is_refresh_token_expired : ℕ → BungieTokens → Bool
is_refresh_token_expired now t = ltb t.refresh_token_expires_at now

pub record TokenStore {ℓ} (S : Type ℓ) : Type ℓ where
  pub tokens : Assoc String BungieTokens
  pub rows : S

abbrev pub sealed : BungieTokens → String × ℤ → String × ℤ → EncryptedTokenRecord
sealed t (acc, version) (ref, _) = record {
  access_token_enc = acc;
  refresh_token_enc = ref;
  access_expires_at = t.access_token_expires_at;
  refresh_expires_at = t.refresh_token_expires_at;
  key_version = version;
  updated_at = 0;
}

abbrev pub written : BungieTokens → Result TokenError (ℕ × Bool) → Result TokenError BungieTokens
written t (err e) = err e
written t (ok (at, false)) = err cas_lost
written t (ok (at, true)) = ok (record t { db_updated_at = at })

abbrev pub opened :
    String → EncryptedTokenRecord → Option String → Option String → Option BungieTokens
opened m rec (some access) (some refresh) = some (record {
  access_token = access;
  refresh_token = refresh;
  access_token_expires_at = rec.access_expires_at;
  refresh_token_expires_at = rec.refresh_expires_at;
  membership_id = m;
  db_updated_at = rec.updated_at;
})
opened m rec _ _ = none

module _ {ℓ} {S : Type ℓ} (repo : TokenRepo S) (cipher : TokenCipher) where
  -- `persist`; the tokens come back with the time of the row
  unfoldable pub persist : S → String → BungieTokens → ℕ → Result TokenError BungieTokens × S
  persist s m t prev =
      let access = cipher.encrypt t.access_token m in
      let refresh = cipher.encrypt t.refresh_token m in
      elim access [
        | err e ↦ (err e, s)
        | ok a ↦ elim refresh [
          | err e ↦ (err e, s)
          | ok r ↦ let (answer, s') = repo.upsert s m (sealed t a r) prev in (written t answer, s')
        ]
      ]

  abbrev pub decrypted : String → EncryptedTokenRecord → Option BungieTokens
  decrypted m rec =
      opened m rec (cipher.decrypt rec.access_token_enc m rec.key_version)
        (cipher.decrypt rec.refresh_token_enc m rec.key_version)

  abbrev pub read_record :
      String → Result TokenError EncryptedTokenRecord → Result TokenError (Option BungieTokens)
  read_record m (err tokens_not_found) = ok none
  read_record m (err e) = err e
  read_record m (ok rec) = ok (decrypted m rec)

  -- `loadFromDB`: `ok none` is a row that is absent or unreadable
  unfoldable pub load_from_db : S → String → Result TokenError (Option BungieTokens)
  load_from_db s m = read_record m (repo.get s m)

-- What a look at tokens decides: they serve, they must be refreshed, or consent must be renewed.
pub data Look : Type 0 where
  serves : String → Look
  must_refresh : BungieTokens → Look
  must_reauthorize : Look

unfoldable pub look : ℕ → Option BungieTokens → Look
unfolding is_access_token_expired is_refresh_token_expired
look now none = must_reauthorize
look now (some t) =
    if not (is_access_token_expired now t)
    then serves t.access_token
    else if t.refresh_token == "" || is_refresh_token_expired now t
    then must_reauthorize
    else must_refresh t

module _ {ℓ} {S : Type ℓ} where
  abbrev pub remember : String → BungieTokens → TokenStore S → TokenStore S
  remember m t st = record st { tokens = insert m t st.tokens }

  -- The stores that the configuration has.
  module _ (repo : Option (TokenRepo S)) (cipher : Option TokenCipher) where
    abbrev pub persisted :
        S → String → BungieTokens → ℕ → Option (Result TokenError BungieTokens × S)
    persisted s m t prev = elim repo [
      | none ↦ none
      | some r ↦ elim cipher [ none ↦ none | some c ↦ some (persist r c s m t prev) ]
    ]

    abbrev pub loaded : S → String → Result TokenError (Option BungieTokens)
    loaded s m = elim repo [
      | none ↦ ok none
      | some r ↦ elim cipher [ none ↦ ok none | some c ↦ load_from_db r c s m ]
    ]

    -- `Store`: memory holds the tokens whatever the database answers
    abbrev pub kept_anyway :
        String
        → BungieTokens
        → TokenStore S
        → Option (Result TokenError BungieTokens × S)
        → TokenStore S
    kept_anyway m t st none = remember m t st
    kept_anyway m t st (some (ok t', s)) = remember m t' (record st { rows = s })
    kept_anyway m t st (some (err e, s)) = remember m t (record st { rows = s })

    unfoldable pub store : TokenStore S → String → BungieTokens → TokenStore S
    unfolding persist insert
    store st m given =
        let t = record given { membership_id = m } in kept_anyway m t st (persisted st.rows m t 0)

    abbrev pub confirmed :
        String
        → TokenStore S
        → Result TokenError BungieTokens × S
        → Result TokenError (Unit {0}) × TokenStore S
    confirmed m st (ok t, s) = (ok tt, remember m t (record st { rows = s }))
    confirmed m st (err e, s) = (err e, record st { rows = s })

    unfoldable pub store_confirmed :
        TokenStore S → String → BungieTokens → Result TokenError (Unit {0}) × TokenStore S
    unfolding persist insert
    store_confirmed st m given =
        let t = record given { membership_id = m } in
        elim repo [
          | none ↦ elim cipher [ none ↦ (ok tt, remember m t st) | some c ↦ (err incomplete, st) ]
          | some r ↦ elim cipher [
            | none ↦ (err incomplete, st)
            | some c ↦ confirmed m st (persist r c st.rows m t 0)
          ]
        ]

    abbrev pub take_loaded :
        TokenStore S
        → String
        → Result TokenError (Option BungieTokens)
        → Result TokenError (TokenStore S)
    take_loaded st m (err e) = err e
    take_loaded st m (ok none) = ok st
    take_loaded st m (ok (some t)) = ok (remember m t st)

    -- the look at the memory, after a miss with what the database holds
    abbrev pub with_memory : TokenStore S → String → Result TokenError (TokenStore S)
    with_memory st m = elim (lookup m st.tokens) [
      | some t ↦ ok st
      | none ↦ take_loaded st m (loaded st.rows m)
    ]

    -- After a refresh: the tokens are written over the row that they were read from; where another
    -- replica was first, its tokens are taken if they serve.
    abbrev pub after_lost :
        ℕ
        → TokenStore S
        → String
        → BungieTokens
        → Result TokenError (Option BungieTokens)
        → String × TokenStore S
    after_lost now st m t (err e) = (t.access_token, remember m t st)
    after_lost now st m t (ok none) = (t.access_token, kept_anyway m t st (persisted st.rows m t 0))
    after_lost now st m t (ok (some winner)) =
        if not (is_access_token_expired now winner)
        then (winner.access_token, remember m winner st)
        else (t.access_token, kept_anyway m t st (persisted st.rows m t 0))

    abbrev pub after_write :
        ℕ
        → TokenStore S
        → String
        → BungieTokens
        → Option (Result TokenError BungieTokens × S)
        → String × TokenStore S
    after_write now st m t none = (t.access_token, remember m t st)
    after_write now st m t (some (err cas_lost, s)) =
        after_lost now (record st { rows = s }) m t (loaded s m)
    after_write now st m t (some (err e, s)) =
        (t.access_token, remember m t (record st { rows = s }))
    after_write now st m t (some (ok t', s)) =
        (t'.access_token, remember m t' (record st { rows = s }))

    unfoldable pub finish_refresh :
        ℕ → TokenStore S → String → BungieTokens → BungieTokens → String × TokenStore S
    unfolding persist load_from_db is_access_token_expired insert
    finish_refresh now st m old fresh =
        let t = record fresh { membership_id = m } in
        after_write now st m t (persisted st.rows m t old.db_updated_at)

    abbrev pub refusal : OauthError → TokenError
    refusal (grant_refused status) =
        if status == 400 || status == 401 then reauthorization_required else failed "refresh"
    refusal (not_answered text) = failed text

    -- under the user's lock; the tokens may have been refreshed while it was awaited
    abbrev pub under_lock :
        ℕ
        → (BungieTokens → Result OauthError BungieTokens)
        → TokenStore S
        → String
        → Look
        → Result TokenError String × TokenStore S
    under_lock now refresh st m (serves token) = (ok token, st)
    under_lock now refresh st m must_reauthorize = (err reauthorization_required, st)
    under_lock now refresh st m (must_refresh t) = elim (refresh t) [
      | err e ↦ (err (refusal e), st)
      | ok fresh ↦ let (token, st') = finish_refresh now st m t fresh in (ok token, st')
    ]

    abbrev pub first_look :
        ℕ
        → (BungieTokens → Result OauthError BungieTokens)
        → TokenStore S
        → String
        → Look
        → Result TokenError String × TokenStore S
    first_look now refresh st m (serves token) = (ok token, st)
    first_look now refresh st m must_reauthorize = (err reauthorization_required, st)
    first_look now refresh st m (must_refresh t) =
        under_lock now refresh st m (look now (lookup m st.tokens))

    unfoldable pub get_valid_token :
        ℕ
        → (BungieTokens → Result OauthError BungieTokens)
        → TokenStore S
        → String
        → Result TokenError String × TokenStore S
    unfolding look finish_refresh load_from_db lookup insert
    get_valid_token now refresh st m = elim (with_memory st m) [
      | err e ↦ (err e, st)
      | ok st' ↦ first_look now refresh st' m (look now (lookup m st'.tokens))
    ]

    -- `Delete`
    abbrev pub removed_rows : S → String → S
    removed_rows s m = elim repo [ none ↦ s | some r ↦ r.remove s m ]

    unfoldable pub delete_tokens : TokenStore S → String → TokenStore S
    unfolding delete
    delete_tokens st m = record { tokens = delete m st.tokens; rows = removed_rows st.rows m }

    abbrev pub outlives : ℕ → BungieTokens → Bool
    outlives now t = not (
        ltb
          (if t.refresh_token == "" then t.access_token_expires_at else t.refresh_token_expires_at)
          now)

    -- the body of `cleanupLoop`
    unfoldable pub cleanup : ℕ → TokenStore S → TokenStore S
    unfolding keep
    cleanup now st = record st { tokens = keep (outlives now) st.tokens }
