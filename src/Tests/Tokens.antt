-- ===== src/Tests/Tokens.antt =====
-- The theorems on stored credentials at concrete tokens.
use guardian_tracker.Prelude.{
  ℕ, ◌≡◌, refl, ap, sym, ◌∙◌, true, Option, none, some, [], ◌∷◌, String, pos, ℤ, lookup, insert,
  is_some, string_eq, has,
}
use guardian_tracker.Prelude.Results.{ok, err, Result}
use guardian_tracker.Auth.Tokens.{
  BungieTokens, EncryptedTokenRecord, TokenCipher, TokenStore, OauthError, TokenError, persist,
  finish_refresh, get_valid_token, delete_tokens, sealed,
}
use guardian_tracker.Auth.Tokens.Table.{TokenTable, bungie_token_store}
use guardian_tracker.Auth.Tokens.Refresh.{
  Opens, OneVersion, Reads, finish_refresh-winner, persist-Reads, finish_refresh-delete_tokens,
}
use guardian_tracker.Auth.Tokens.Serving.{Answers, get_valid_token-Answers}

-- A cipher that leaves texts as they are.
abbrev clear : TokenCipher
clear = record { encrypt = λ p m. ok (p, pos 1); decrypt = λ c m v. some c }

abbrev text_of : Result TokenError (String × ℤ) → Option String
text_of (ok x) = some (x.0)
text_of (err e) = none

abbrev version_of : Result TokenError (String × ℤ) → ℤ
version_of (ok x) = x.1
version_of (err e) = pos 1

clear-Opens : Opens clear
clear-Opens plain m enc v h = ap text_of (sym h)

clear-OneVersion : OneVersion clear
clear-OneVersion p q m x y h k = ap version_of (sym h) ∙ ap version_of k

abbrev tokens : String → ℕ → ℕ → BungieTokens
tokens access expires at = record {
  access_token = access;
  refresh_token = "r";
  access_token_expires_at = expires;
  refresh_token_expires_at = 9000000000000;
  membership_id = "ann";
  db_updated_at = at;
}

-- The row is that of another replica: it was written at 7, the tokens in memory come from 3.
abbrev row : EncryptedTokenRecord
row = record {
  access_token_enc = "theirs";
  refresh_token_enc = "r";
  access_expires_at = 5000000000000;
  refresh_expires_at = 9000000000000;
  key_version = pos 1;
  updated_at = 7;
}

abbrev store : TokenStore TokenTable
store = record {
  tokens = ("ann", tokens "old" 10 3) ∷ [];
  rows = record { users = "ann" ∷ []; rows = ("ann", row) ∷ []; clock = 7 };
}

abbrev fresh : BungieTokens
fresh = tokens "new" 5000000000000 0

abbrev winner : BungieTokens
winner = tokens "theirs" 5000000000000 7

finish_refresh-winner_example :
    finish_refresh (some bungie_token_store) (some clear) 100 store "ann" (tokens "old" 10 3) fresh
    ≡ ("theirs", record store { tokens = insert "ann" winner store.tokens })
unfolding has lookup guardian_tracker.Auth.Tokens.is_access_token_expired
finish_refresh-winner_example =
    finish_refresh-winner clear 100 store "ann" (tokens "old" 10 3) fresh winner row ("new", pos 1)
      ("r", pos 1) (refl, refl) refl refl refl refl refl refl

persist-Reads_example :
    Reads clear "ann" (persist bungie_token_store clear store.rows "ann" fresh 7)
persist-Reads_example = persist-Reads clear store.rows "ann" fresh 7 clear-Opens clear-OneVersion

finish_refresh-delete_tokens_example :
    let gone = delete_tokens (some bungie_token_store) (some clear) store "ann" in
    let (token, after) =
      finish_refresh
        (some bungie_token_store)
        (some clear)
        100
        gone
        "ann"
        (tokens "old" 10 3)
        fresh in
    (lookup "ann" gone.rows.rows ≡ none)
    × (lookup "ann" after.rows.rows
        ≡ some (record (sealed fresh ("new", pos 1) ("r", pos 1)) { updated_at = 8 }))
    × (is_some (lookup "ann" after.tokens) ≡ true)
unfolding has
finish_refresh-delete_tokens_example =
    finish_refresh-delete_tokens clear 100 store "ann" (tokens "old" 10 3) fresh ("new", pos 1)
      ("r", pos 1) (refl, refl) refl

-- The remote service issues new tokens to whom has the refresh token.
abbrev issues : BungieTokens → Result OauthError BungieTokens
issues t = ok fresh

get_valid_token-Answers_example :
    Answers
      (some bungie_token_store)
      (some clear)
      100
      issues
      store
      "ann"
      (get_valid_token (some bungie_token_store) (some clear) 100 issues store "ann")
get_valid_token-Answers_example =
    get_valid_token-Answers (some bungie_token_store) (some clear) 100 issues store "ann"
