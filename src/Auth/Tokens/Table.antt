-- ===== src/Auth/Tokens/Table.antt =====
-- db/tokens.go: the table of credentials, one row for a user. `insert ... on conflict do update` writes
-- where no row stands; the comparison with the time of the row is made only where one does.
use guardian_tracker.Prelude.{
  ℕ, ◌+◌, Bool, true, false, not, ◌&&◌, Option, none, some, String, if◌then◌else◌, ◌==◌, nat_eq,
  string_eq, List, has, Assoc, lookup, insert, delete,
}
use guardian_tracker.Prelude.Results.{Result, ok, err}
use guardian_tracker.Auth.Tokens.{
  EncryptedTokenRecord, TokenError, tokens_not_found, no_user_row, TokenRepo,
}

-- The rows by membership, the memberships that have a user, and the clock, which no two statements share.
pub record TokenTable : Type 0 where
  pub users : List String
  pub rows : Assoc String EncryptedTokenRecord
  pub clock : ℕ

abbrev pub found : Option EncryptedTokenRecord → Result TokenError EncryptedTokenRecord
found none = err tokens_not_found
found (some rec) = ok rec

unfoldable pub get_row : TokenTable → String → Result TokenError EncryptedTokenRecord
unfolding lookup
get_row s m = found (lookup m s.rows)

abbrev pub conflicts : ℕ → Option EncryptedTokenRecord → Bool
conflicts prev none = false
conflicts prev (some rec) = not (prev == 0) && not (rec.updated_at == prev)

unfoldable pub upsert_row :
    TokenTable → String → EncryptedTokenRecord → ℕ → Result TokenError (ℕ × Bool) × TokenTable
unfolding has lookup insert
upsert_row s m rec prev =
    if not (has m s.users)
    then (err no_user_row, s)
    else if conflicts prev (lookup m s.rows)
    then (ok (0, false), s)
    else (
      ok (s.clock + 1, true),
      record s {
        rows = insert m (record rec { updated_at = s.clock + 1 }) s.rows;
        clock = s.clock + 1;
      },
    )

unfoldable pub delete_row : TokenTable → String → TokenTable
unfolding delete
delete_row s m = record s { rows = delete m s.rows }

unfoldable pub bungie_token_store : TokenRepo TokenTable
unfolding get_row upsert_row delete_row
bungie_token_store = record { get = get_row; upsert = upsert_row; remove = delete_row }
