-- ===== src/Auth/Tokens/Refresh.antt =====
-- auth/tokenstore.go over db/tokens.go: what a refresh writes and which tokens it answers with.
use guardian_tracker.Prelude.{
  ℕ, ◌+◌, ◌≡◌, refl, ap, ◌∙◌, true, false, none, some, String, ◌==◌, nat_eq, string_eq, inl, inr,
  Bool-cases, Assoc, lookup, insert, delete, is_some, lookup-insert, lookup-delete, has, beq_refl,
  ℤ,
}
use guardian_tracker.Prelude.Results.{Result, ok, err, Result-cases}
use guardian_tracker.Auth.Tokens.{
  BungieTokens, EncryptedTokenRecord, TokenCipher, TokenStore, TokenError, is_access_token_expired,
  persist, load_from_db, decrypted, finish_refresh, delete_tokens, sealed,
}
use guardian_tracker.Auth.Tokens.Table.{
  TokenTable, get_row, upsert_row, conflicts, delete_row, bungie_token_store,
}

-- The cipher opens what it sealed, for the membership that it was sealed for.
abbrev pub Opens : TokenCipher → Type 0
Opens c =
    (plain m enc : String) (version : ℤ)
    → c.encrypt plain m ≡ ok (enc, version)
    → c.decrypt enc m version ≡ some plain

-- All texts that it seals carry one version of the key.
abbrev pub OneVersion : TokenCipher → Type 0
OneVersion c =
    (p q m : String) (x y : String × ℤ) → c.encrypt p m ≡ ok x → c.encrypt q m ≡ ok y → x.1 ≡ y.1

inserted :
    {V : Type 0} (m : String) (v : V) (rows : Assoc String V) → lookup m (insert m v rows) ≡ some v
inserted m v rows = lookup-insert m m v rows ∙ rw (beq_refl m) refl

module _ (c : TokenCipher) where
  -- The two texts of tokens are sealed.
  abbrev pub Sealed : String → BungieTokens → String × ℤ → String × ℤ → Type 0
  Sealed m t a r = (c.encrypt t.access_token m ≡ ok a) × (c.encrypt t.refresh_token m ≡ ok r)

  -- Another replica was first: the row is another than the one that the old tokens came from. If its
  -- tokens can be read and serve, the refresh answers with them, remembers them, and leaves the table as
  -- it is: the winner's row is not overwritten.
  pub finish_refresh-winner :
      (now : ℕ) (st : TokenStore TokenTable) (m : String) (old fresh winner : BungieTokens)
      (rec : EncryptedTokenRecord) (a r : String × ℤ)
      → Sealed m fresh a r
      → has m st.rows.users ≡ true
      → lookup m st.rows.rows ≡ some rec
      → (old.db_updated_at == 0) ≡ false
      → (rec.updated_at == old.db_updated_at) ≡ false
      → decrypted bungie_token_store c m rec ≡ some winner
      → is_access_token_expired now winner ≡ false
      → finish_refresh (some bungie_token_store) (some c) now st m old fresh
        ≡ (winner.access_token, record st { tokens = insert m winner st.tokens })
  unfolding finish_refresh bungie_token_store persist upsert_row
  finish_refresh-winner now st m old fresh winner rec a r enc user row based moved reads serves =
      rw
        (
          finish_refresh, persist, enc.0, enc.1, upsert_row, user, row, based, moved, load_from_db,
          get_row, row, reads, serves,
        )
        refl

  -- Tokens that were written are read back as they were, under their membership and with the time of
  -- their row.
  abbrev pub Reads : String → Result TokenError BungieTokens × TokenTable → Type 0
  Reads m (ok t, s) =
      load_from_db bungie_token_store c s m ≡ ok (some (record t { membership_id = m }))
  Reads m (err e, s) = Unit {0}

  pub persist-Reads :
      (s : TokenTable) (m : String) (t : BungieTokens) (prev : ℕ)
      → Opens c
      → OneVersion c
      → Reads m (persist bungie_token_store c s m t prev)
  unfolding persist bungie_token_store upsert_row load_from_db get_row
  persist-Reads s m t prev opens one = elim (Result-cases (c.encrypt t.access_token m)) [
    | inr (x, e) ↦ rw (persist, e) tt
    | inl (a, e) ↦ elim (Result-cases (c.encrypt t.refresh_token m)) [
      | inr (x, e') ↦ rw (persist, e, e') tt
      | inl (r, e') ↦ elim (Bool-cases (has m s.users)) [
        | inr no_user ↦ rw (persist, e, e', upsert_row, no_user) tt
        | inl user ↦ elim (Bool-cases (conflicts prev (lookup m s.rows))) [
          | inl lost ↦ rw (persist, e, e', upsert_row, user, lost) tt
          | inr free ↦
              rw (persist, e, e', upsert_row, user, free, load_from_db, get_row)
                (rw
                  (
                    inserted m _ s.rows,
                    opens t.access_token m (a.0) (a.1) e,
                    one t.access_token t.refresh_token m a r e e',
                    opens t.refresh_token m (r.0) (r.1) e',
                  )
                  refl)
        ]
      ]
    ]
  ]

  -- A refresh that ends after its user has signed out writes their credentials again: the row that the
  -- sign-out deleted is there, although the write was to happen only over the row that was read.
  pub finish_refresh-delete_tokens :
      (now : ℕ) (st : TokenStore TokenTable) (m : String) (old fresh : BungieTokens)
      (a r : String × ℤ)
      → Sealed m fresh a r
      → has m st.rows.users ≡ true
      → let gone = delete_tokens (some bungie_token_store) (some c) st m in
        let (token, after) =
          finish_refresh (some bungie_token_store) (some c) now gone m old fresh in
        (lookup m gone.rows.rows ≡ none)
        × (lookup m after.rows.rows
            ≡ some (record (sealed fresh a r) { updated_at = st.rows.clock + 1 }))
        × (is_some (lookup m after.tokens) ≡ true)
  unfolding finish_refresh delete_tokens bungie_token_store persist upsert_row delete_row
  finish_refresh-delete_tokens now st m old fresh a r enc user =
      let gone : lookup m (delete m st.rows.rows) ≡ none =
        lookup-delete m m st.rows.rows ∙ rw (beq_refl m) refl in
      (
        gone,
        rw (finish_refresh, persist, enc.0, enc.1, upsert_row, user, gone) (inserted m _ _),
        rw (finish_refresh, persist, enc.0, enc.1, upsert_row, user, gone)
            (ap is_some (inserted m _ _)),
      )
