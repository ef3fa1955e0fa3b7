-- ===== src/Login/Tests.antt =====
-- Runs of the login, and the witnesses of its theorems.
use sync_clipboard.Prelude.Int.{pos}
use sync_clipboard.Config.{defaults}
use sync_clipboard.Login.{
  AuthTokens, Formats, Http, HttpBuf, auth_http_login, auth_http_refresh, build_url, double_cap,
  filled_part, first_reply, login_reply, parse_token_response, post_json, receive_reply,
  refresh_reply, take_tokens, write_all, write_cb, ws_acquire_tokens,
}
use sync_clipboard.Login.Reply.{IsRoomy, all_pieces, write_all-joined}
use sync_clipboard.Login.Tokens.{Acquired, ws_acquire_tokens-Acquired}
use sync_clipboard.Prelude.{
  Bool, Bytes, List, [], codes, if◌then◌else◌, inl, length, map, maybe, none, refl, replicate, some,
  true, ◌++◌, ◌==◌, ◌∷◌, ◌≡◌,
}

-- A body of one byte has both tokens; any other has none.
abbrev toy : Formats
toy = record {
  parse = λ text.
      if length text == 1
      then some (record { access = some (codes "a"); refresh = some (codes "r"); expires = none })
      else none;
  decimal = λ n. codes "80";
}

abbrev old : AuthTokens
old = record { access_token = []; refresh_token = codes "q"; expires_in_sec = pos 0 }

-- The refresh is refused with 401, and the login behind it succeeds.
abbrev http : Http
http = record {
  answers =
      some (record { http_code = 401; pieces = [] })
      ∷ some (record { http_code = 200; pieces = (true, codes "x") ∷ [] })
      ∷ [];
  asked = [];
}

ws_acquire_tokens-Acquired_example :
    Acquired toy http.answers old (ws_acquire_tokens toy defaults old http)
ws_acquire_tokens-Acquired_example = ws_acquire_tokens-Acquired toy defaults old http

fall_back :
    ((ws_acquire_tokens toy defaults old http).ok ≡ true)
    × (length (map (λ r. r.0) (ws_acquire_tokens toy defaults old http).http.asked) ≡ 2)
unfolding ws_acquire_tokens auth_http_refresh auth_http_login refresh_reply login_reply take_tokens
    parse_token_response post_json first_reply receive_reply write_all write_cb double_cap build_url
    maybe
fall_back = (refl, refl)

abbrev pieces : List (Bool × Bytes)
pieces = (true, replicate 1020 1) ∷ (true, replicate 10 2) ∷ []

abbrev no_bytes : HttpBuf
no_bytes = record { bytes = none; cap = 0 }

abbrev grown : HttpBuf
grown = record { bytes = some (all_pieces pieces); cap = 2048 }

grown-run : write_all pieces no_bytes ≡ some grown
unfolding write_all write_cb double_cap maybe
grown-run = refl

write_all_run : IsRoomy grown × (filled_part grown ≡ filled_part no_bytes ++ all_pieces pieces)
write_all_run = write_all-joined pieces no_bytes grown (inl refl) grown-run
