-- ===== src/Auth/Tokens/Serving.antt =====
-- auth/tokenstore.go: which tokens a request is answered with.
use guardian_tracker.Prelude.{
  ℕ, ◌+◌, ◌≤◌, ◌<◌, arith, ◌≡◌, ◌⊎◌, refl, ◌∙◌, Bool, true, false, ◌||◌, Option, none, some, String,
  ◌==◌, string_eq, inl, inr, Option-cases, ap, sym, Bool-cases, lookup, lookup-insert, beq_refl,
}
use guardian_tracker.Prelude.Results.{Result, ok, err, Result-cases}
use guardian_tracker.Auth.Tokens.{
  BungieTokens, TokenRepo, TokenCipher, TokenStore, TokenError, tokens_not_found, no_user_row,
  reauthorization_required, cas_lost, incomplete, failed, OauthError, Look, serves, must_refresh,
  must_reauthorize, look, is_access_token_expired, is_refresh_token_expired, persist,
  finish_refresh, get_valid_token, persisted, loaded, written, with_memory, first_look, under_lock,
  after_write, after_lost, kept_anyway, remember,
}

look_serves :
    (now : ℕ) (o : Option BungieTokens) (token : String)
    → look now o ≡ serves token
    → (t : BungieTokens) × (o ≡ some t)
      × (t.access_token ≡ token)
      × (is_access_token_expired now t ≡ false)
unfolding look
look_serves now none token h = absurd (cc h)
look_serves now (some t) token h = elim (Bool-cases (is_access_token_expired now t)) [
  | inr fine ↦ (t, refl, cc (rw fine at h), fine)
  | inl old ↦ elim (Bool-cases (t.refresh_token == "" || is_refresh_token_expired now t)) [
    | inl over ↦ absurd (cc (rw (old, over) at h))
    | inr again ↦ absurd (cc (rw (old, again) at h))
  ]
]

-- The tokens serve for five minutes at least, or carry the access token of the others.
abbrev ServesOrCarries : ℕ → BungieTokens → BungieTokens → Type 0
ServesOrCarries now t t' =
    (now + 300000000000 ≤ t'.access_token_expires_at) ⊎ (t'.access_token ≡ t.access_token)

look_must_refresh :
    (now : ℕ) (o : Option BungieTokens) (old : BungieTokens)
    → look now o ≡ must_refresh old
    → (o ≡ some old)
      × (old.access_token_expires_at < now + 300000000000)
      × (now ≤ old.refresh_token_expires_at)
unfolding look is_access_token_expired is_refresh_token_expired
look_must_refresh now none old h = absurd (cc h)
look_must_refresh now (some t) old h = ground (arith, h)

serves_long :
    (now : ℕ) (t : BungieTokens)
    → is_access_token_expired now t ≡ false
    → now + 300000000000 ≤ t.access_token_expires_at
unfolding is_access_token_expired
serves_long now t h = ground arith

module _ {ℓ} {S : Type ℓ} where
  -- The tokens remembered for a membership have this access token and pass a test.
  abbrev Remembers : (BungieTokens → Type 0) → String → String × TokenStore S → Type 0
  Remembers P m (token, st) =
      (t : BungieTokens) × (lookup m st.tokens ≡ some t) × (t.access_token ≡ token) × P t

  remembered :
      (m : String) (t : BungieTokens) (st : TokenStore S)
      → lookup m (remember m t st).tokens ≡ some t
  remembered m t st = lookup-insert m m t st.tokens ∙ rw (beq_refl m) refl

  abbrev or_store : TokenStore S → Result TokenError (TokenStore S) → TokenStore S
  or_store st (ok s) = s
  or_store st (err x) = st

  from_ok :
      (st : TokenStore S) {s s' : TokenStore S}
      → Path (Result TokenError (TokenStore S)) (ok s) (ok s')
      → s ≡ s'
  from_ok st e = ap (λ r. or_store st r) e

  -- Writing tokens changes the time of their row alone.
  abbrev Same : BungieTokens → Option (Result TokenError BungieTokens × S) → Type 0
  Same t none = Unit {0}
  Same t (some (ok t', s)) = t'.access_token ≡ t.access_token
  Same t (some (err e, s)) = Unit {0}

  written-Same :
      (t : BungieTokens) (r : Result TokenError (ℕ × Bool)) (s : S) → Same t (some (written t r, s))
  written-Same t (err e) s = tt
  written-Same t (ok (at, false)) s = tt
  written-Same t (ok (at, true)) s = refl

  persist-Same :
      (r : TokenRepo S) (c : TokenCipher) (s : S) (m : String) (t : BungieTokens) (prev : ℕ)
      → Same t (some (persist r c s m t prev))
  unfolding persist
  persist-Same r c s m t prev = elim (Result-cases (c.encrypt t.access_token m)) [
    | inr (x, e) ↦ rw (persist, e) tt
    | inl (a, e) ↦ elim (Result-cases (c.encrypt t.refresh_token m)) [
      | inr (x, e') ↦ rw (persist, e, e') tt
      | inl (b, e') ↦ rw (persist, e, e') (written-Same t _ _)
    ]
  ]

  kept_anyway-access :
      (now : ℕ) (m : String) (t : BungieTokens) (st : TokenStore S)
      (p : Option (Result TokenError BungieTokens × S))
      → Same t p
      → Remembers (ServesOrCarries now t) m (t.access_token, kept_anyway none none m t st p)
  kept_anyway-access now m t st none h = (t, remembered m t st, refl, inr refl)
  kept_anyway-access now m t st (some (ok t', s)) h =
      (t', remembered m t' (record st { rows = s }), h, inr h)
  kept_anyway-access now m t st (some (err e, s)) h =
      (t, remembered m t (record st { rows = s }), refl, inr refl)

  module _ (repo : Option (TokenRepo S)) (cipher : Option TokenCipher) where
    persisted-Same :
        (s : S) (m : String) (t : BungieTokens) (prev : ℕ)
        → Same t (persisted repo cipher s m t prev)
    persisted-Same s m t prev = elim repo as (λ r. Same t (persisted r cipher s m t prev)) [
      | none ↦ tt
      | some r ↦ elim cipher as (λ c. Same t (persisted (some r) c s m t prev)) [
        | none ↦ tt
        | some c ↦ persist-Same r c s m t prev
      ]
    ]

    after_lost-access :
        (now : ℕ) (st : TokenStore S) (m : String) (t : BungieTokens)
        (r : Result TokenError (Option BungieTokens))
        → Remembers (ServesOrCarries now t) m (after_lost repo cipher now st m t r)
    after_lost-access now st m t (err e) = (t, remembered m t st, refl, inr refl)
    after_lost-access now st m t (ok none) =
        kept_anyway-access now m t st _ (persisted-Same st.rows m t 0)
    after_lost-access now st m t (ok (some winner)) =
        elim (Bool-cases (is_access_token_expired now winner)) [
          | inl old ↦ rw old (kept_anyway-access now m t st _ (persisted-Same st.rows m t 0))
          | inr fine ↦
              rw fine (winner, remembered m winner st, refl, inl (serves_long now winner fine))
        ]

    after_write-access :
        (now : ℕ) (st : TokenStore S) (m : String) (t : BungieTokens)
        (p : Option (Result TokenError BungieTokens × S))
        → Same t p
        → Remembers (ServesOrCarries now t) m (after_write repo cipher now st m t p)
    after_write-access now st m t none h = (t, remembered m t st, refl, inr refl)
    after_write-access now st m t (some (ok t', s)) h =
        (t', remembered m t' (record st { rows = s }), refl, inr h)
    after_write-access now st m t (some (err tokens_not_found, s)) h =
        (t, remembered m t (record st { rows = s }), refl, inr refl)
    after_write-access now st m t (some (err no_user_row, s)) h =
        (t, remembered m t (record st { rows = s }), refl, inr refl)
    after_write-access now st m t (some (err reauthorization_required, s)) h =
        (t, remembered m t (record st { rows = s }), refl, inr refl)
    after_write-access now st m t (some (err incomplete, s)) h =
        (t, remembered m t (record st { rows = s }), refl, inr refl)
    after_write-access now st m t (some (err (failed x), s)) h =
        (t, remembered m t (record st { rows = s }), refl, inr refl)
    after_write-access now st m t (some (err cas_lost, s)) h =
        after_lost-access now (record st { rows = s }) m t (loaded repo cipher s m)

    finish_refresh-access :
        (now : ℕ) (st : TokenStore S) (m : String) (old fresh : BungieTokens)
        → Remembers (ServesOrCarries now fresh) m (finish_refresh repo cipher now st m old fresh)
    unfolding finish_refresh
    finish_refresh-access now st m old fresh =
        after_write-access now st m (record fresh { membership_id = m }) _
          (persisted-Same st.rows m (record fresh { membership_id = m }) old.db_updated_at)

    module _ (now : ℕ) (refresh : BungieTokens → Result OauthError BungieTokens) where
      -- Tokens are those that a membership has, in memory or else in its row.
      abbrev pub IsOwn : TokenStore S → String → BungieTokens → Type 0
      IsOwn st m t =
          (lookup m st.tokens ≡ some t)
          ⊎ ((lookup m st.tokens ≡ none) × (loaded repo cipher st.rows m ≡ ok (some t)))

      -- An answered token is that of the tokens remembered afterwards, and these serve for five minutes
      -- at least, or carry the access token that the remote service issued for this request, against
      -- tokens of the membership that serve no longer and whose refresh token does.
      abbrev pub Answers : TokenStore S → String → Result TokenError String × TokenStore S → Type 0
      Answers before m (err e, st) = Unit {0}
      Answers before m (ok token, st) =
          (t : BungieTokens) × (lookup m st.tokens ≡ some t)
          × (t.access_token ≡ token)
          × ((now + 300000000000 ≤ t.access_token_expires_at)
              ⊎ ((old : BungieTokens) × (fresh : BungieTokens) × (refresh old ≡ ok fresh)
                  × (t.access_token ≡ fresh.access_token)
                  × IsOwn before m old
                  × (old.access_token_expires_at < now + 300000000000)
                  × (now ≤ old.refresh_token_expires_at)))

      under_lock-Answers :
          (before st : TokenStore S) (m : String) (l : Look)
          → ((t : BungieTokens) → lookup m st.tokens ≡ some t → IsOwn before m t)
          → look now (lookup m st.tokens) ≡ l
          → Answers before m (under_lock repo cipher now refresh st m l)
      under_lock-Answers before st m (serves token) own h =
          let (t, held, same, fine) = look_serves now (lookup m st.tokens) token h in
          (t, held, same, inl (serves_long now t fine))
      under_lock-Answers before st m must_reauthorize own h = tt
      under_lock-Answers before st m (must_refresh t) own h = elim (Result-cases (refresh t)) [
        | inr (x, e) ↦ rw (under_lock, e) tt
        | inl (fresh, e) ↦
            let (t', held, same, how) = finish_refresh-access now st m t fresh in
            let (is, old, due) = look_must_refresh now (lookup m st.tokens) t h in
            rw (under_lock, e)
              (
                t',
                held,
                same,
                elim how [
                  | inl long ↦ inl long
                  | inr issued ↦ inr (t, fresh, e, issued, own t is, old, due)
                ],
              )
      ]

      first_look-Answers :
          (before st : TokenStore S) (m : String) (l : Look)
          → ((t : BungieTokens) → lookup m st.tokens ≡ some t → IsOwn before m t)
          → look now (lookup m st.tokens) ≡ l
          → Answers before m (first_look repo cipher now refresh st m l)
      first_look-Answers before st m (serves token) own h =
          let (t, held, same, fine) = look_serves now (lookup m st.tokens) token h in
          (t, held, same, inl (serves_long now t fine))
      first_look-Answers before st m must_reauthorize own h = tt
      first_look-Answers before st m (must_refresh t) own h =
          under_lock-Answers before st m _ own refl

      with_memory-IsOwn :
          (st : TokenStore S) (m : String) (st' : TokenStore S)
          → with_memory repo cipher st m ≡ ok st'
          → (t : BungieTokens) → lookup m st'.tokens ≡ some t
          → IsOwn st m t
      with_memory-IsOwn st m st' e t h = elim (Option-cases (lookup m st.tokens)) [
        | inr (t', held) ↦ inl (
            ap (λ s. lookup m (TokenStore.tokens s)) (from_ok st (rw (with_memory, held) at e)) ∙ h)
        | inl missing ↦ elim (Result-cases (loaded repo cipher st.rows m)) [
          | inr (x, refused) ↦ absurd (cc (rw (with_memory, missing, refused) at e))
          | inl (none, absent) ↦
              let same = from_ok st (rw (with_memory, missing, absent) at e) in
              absurd (cc (sym missing ∙ ap (λ s. lookup m (TokenStore.tokens s)) same ∙ h))
          | inl (some t', read) ↦
              let same = from_ok st (rw (with_memory, missing, read) at e) in
              inr (
                missing,
                read
                    ∙ ap ok (
                        sym (remembered m t' st)
                        ∙ ap (λ s. lookup m (TokenStore.tokens s)) same
                        ∙ h),
              )
        ]
      ]

      -- A request is answered with no token that has run out: what is answered belongs to the tokens
      -- that are remembered afterwards, and they serve for five minutes at least, or it is the access
      -- token that the remote service issued for this request, in a refresh of the tokens of its
      -- membership, which served no longer and whose refresh token did.
      pub get_valid_token-Answers :
          (st : TokenStore S) (m : String)
          → Answers st m (get_valid_token repo cipher now refresh st m)
      unfolding get_valid_token
      get_valid_token-Answers st m = elim (Result-cases (with_memory repo cipher st m)) [
        | inr (x, e) ↦ rw (get_valid_token, e) tt
        | inl (st', e) ↦
            rw (get_valid_token, e)
              (first_look-Answers st st' m _ (with_memory-IsOwn st m st' e) refl)
      ]
