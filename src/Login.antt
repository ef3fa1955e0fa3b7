-- ===== src/Login.antt =====
-- common/auth_http.c, common/auth_http.h and common/ws_client.c: the tokens that the server gives for
-- the credentials or for an older token. The answers of curl come from a list, one for each request;
-- the requests are kept in order.
pub mod Reply
pub mod Tokens
mod Tests
use Prim.Native.String.{String}
use sync_clipboard.Prelude.Int.{ℤ, pos, pos_part, neg_part}
use sync_clipboard.Client.Message.{Object, add_string}
use sync_clipboard.Config.{ClientConfig}
use sync_clipboard.Prelude.{
  Bool, Bytes, List, Option, [], codes, false, if◌then◌else◌, length, ltb, maybe, none, not, some,
  suc, take, true, zero, ℕ, ◌*◌, ◌++◌, ◌+◌, ◌==◌, ◌∷◌,
}

pub record HttpBuf : Type 0 where
  pub bytes : Option Bytes
  pub cap : ℕ

-- The bytes that are there, `len` of them.
abbrev pub filled_part : HttpBuf → Bytes
filled_part buf = maybe buf.bytes [] (λ s. s)

-- `while (new_cap < buf->len + total + 1) new_cap *= 2;`, on fuel.
unfoldable pub double_cap : ℕ → ℕ → ℕ → ℕ
double_cap zero cap needed = cap
double_cap (suc fuel) cap needed =
    let more_cap = double_cap fuel (cap * 2) needed in if ltb cap needed then more_cap else cap

-- `write_cb` with what `realloc` grants; `none` makes curl give up.
unfoldable pub write_cb : Bool → Bytes → HttpBuf → Option HttpBuf
unfolding double_cap
write_cb memory chunk buf =
    let needed = length (filled_part buf) + length chunk + 1 in
    let begun = if buf.cap == 0 then 1024 else buf.cap * 2 in
    let stored = some (filled_part buf ++ chunk) in
    if ltb buf.cap needed
    then if memory
      then some (record { bytes = stored; cap = double_cap needed begun needed })
      else none
    else some (record { bytes = stored; cap = buf.cap })

-- What curl does for a request: the pieces of the body with the memory for each, and the code; `none`
-- if the transfer fails.
pub record Response : Type 0 where
  pub http_code : ℕ
  pub pieces : List (Bool × Bytes)

unfoldable pub write_all : List (Bool × Bytes) → HttpBuf → Option HttpBuf
unfolding write_cb
write_all [] buf = some buf
write_all ((memory, chunk) ∷ pieces) buf =
    maybe (write_cb memory chunk buf) none (λ next_buf. write_all pieces next_buf)

pub record Http : Type 0 where
  pub answers : List (Option Response)
  pub asked : List (Bytes × Object)

abbrev pub no_reply : Option (ℕ × Option Bytes)
no_reply = none

-- The code and the body that a response leaves, if curl does not fail.
unfoldable pub receive_reply : Option Response → Option (ℕ × Option Bytes)
unfolding write_all
receive_reply answer = maybe answer no_reply (λ response.
    maybe (write_all response.pieces (record { bytes = none; cap = 0 })) no_reply
      (λ buf. some (response.http_code, buf.bytes)))

-- What the first answer leaves; curl fails where there is none.
unfoldable pub first_reply : List (Option Response) → Option (ℕ × Option Bytes)
unfolding receive_reply
first_reply [] = none
first_reply (answer ∷ answers) = receive_reply answer

abbrev pub later_answers : List (Option Response) → List (Option Response)
later_answers [] = []
later_answers (answer ∷ answers) = answers

unfoldable pub post_json : Bytes → Object → Http → Option (ℕ × Option Bytes) × Http
unfolding first_reply
post_json url body http = (
  first_reply http.answers,
  record { answers = later_answers http.answers; asked = http.asked ++ (url, body) ∷ [] },
)

pub record AuthTokens : Type 0 where
  pub access_token : Bytes
  pub refresh_token : Bytes
  pub expires_in_sec : ℤ

-- What cJSON finds in a text: the two strings and the number, where they are of their type.
pub record Fields : Type 0 where
  pub access : Option Bytes
  pub refresh : Option Bytes
  pub expires : Option ℤ

-- `cJSON_Parse`, and `%d` of `snprintf`.
pub record Formats : Type 0 where
  pub parse : Bytes → Option Fields
  pub decimal : ℤ → Bytes

-- `parse_token_response`: the tokens, if both strings are there; a NULL body has none.
unfoldable pub parse_token_response : Formats → Option Bytes → Option AuthTokens
parse_token_response fmt body = maybe body none (λ text. maybe (fmt.parse text) none (λ root.
    maybe root.access none (λ access. maybe root.refresh none (λ refresh. some (record {
      access_token = take 1023 access;
      refresh_token = take 1023 refresh;
      expires_in_sec = maybe root.expires (pos 0) (λ n. n);
    })))))

-- `build_url` into `url[512]`.
unfoldable pub build_url : Formats → ClientConfig → String → Option Bytes
build_url fmt cfg path =
    let tls = not (pos_part cfg.use_tls + neg_part cfg.use_tls == 0) in
    let scheme = if tls then codes "https" else codes "http" in
    let rest = cfg.server_host ++ (codes ":" ++ (fmt.decimal cfg.server_port ++ codes path)) in
    let url = scheme ++ (codes "://" ++ rest) in if ltb (length url) 512 then some url else none

-- The result, 0 or -1, with the tokens and the requests behind it.
pub record Outcome : Type 0 where
  pub ok : Bool
  pub tokens : AuthTokens
  pub http : Http

abbrev pub refused : AuthTokens → Http → Outcome
refused tokens http = record { ok = false; tokens = tokens; http = http }

-- A body with tokens, or not.
unfoldable pub take_tokens : Formats → Option Bytes → AuthTokens → Http → Outcome
unfolding parse_token_response
take_tokens fmt body tokens http =
    maybe (parse_token_response fmt body) (refused tokens http)
      (λ got. record { ok = true; tokens = got; http = http })

-- After the POST of the login.
unfoldable pub login_reply : Formats → AuthTokens → Option (ℕ × Option Bytes) × Http → Outcome
unfolding take_tokens
login_reply fmt tokens r = maybe r.0 (refused tokens r.1) (λ reply.
    let taken = take_tokens fmt reply.1 tokens r.1 in
    if reply.0 == 200 then taken else refused tokens r.1)

unfoldable pub login_body : ClientConfig → Object
login_body cfg =
    let j = add_string [] "username" (some cfg.username) in
    add_string (add_string j "password" (some cfg.password)) "deviceId" (some cfg.device_id)

-- The request is printed with the memory that it needs.
unfoldable pub auth_http_login : Formats → ClientConfig → AuthTokens → Http → Outcome
unfolding login_reply post_json
auth_http_login fmt cfg tokens http =
    maybe (build_url fmt cfg "/api/v2/auth/login") (refused tokens http)
      (λ url. login_reply fmt tokens (post_json url (login_body cfg) http))

unfoldable pub refresh_reply :
    Formats → ClientConfig → AuthTokens → Option (ℕ × Option Bytes) × Http → Outcome
unfolding take_tokens auth_http_login
refresh_reply fmt cfg tokens r = maybe r.0 (refused tokens r.1) (λ reply.
    let taken = take_tokens fmt reply.1 tokens r.1 in
    let again = auth_http_login fmt cfg tokens r.1 in if reply.0 == 200 then taken else again)

abbrev pub no_token : Bytes → Bool
no_token [] = true
no_token (c ∷ s) = false

unfoldable pub refresh_body : ClientConfig → AuthTokens → Object
refresh_body cfg tokens =
    add_string (add_string [] "refreshToken" (some tokens.refresh_token)) "deviceId"
      (some cfg.device_id)

unfoldable pub auth_http_refresh : Formats → ClientConfig → AuthTokens → Http → Outcome
unfolding auth_http_login refresh_reply post_json
auth_http_refresh fmt cfg tokens http =
    let logged = auth_http_login fmt cfg tokens http in
    let asked =
      maybe (build_url fmt cfg "/api/v2/auth/refresh") (refused tokens http)
        (λ url. refresh_reply fmt cfg tokens (post_json url (refresh_body cfg tokens) http)) in
    if no_token tokens.refresh_token then logged else asked

unfoldable pub ws_build_bearer_protocol : Bytes → ℕ → Option Bytes
ws_build_bearer_protocol token out_len =
    let text = codes "bearer." ++ token in if ltb (length text) out_len then some text else none

unfoldable pub ws_acquire_tokens : Formats → ClientConfig → AuthTokens → Http → Outcome
unfolding auth_http_refresh auth_http_login
ws_acquire_tokens fmt cfg tokens http =
    let fresh_login = auth_http_login fmt cfg tokens http in
    let refreshed = auth_http_refresh fmt cfg tokens http in
    let again = auth_http_login fmt cfg refreshed.tokens refreshed.http in
    if no_token tokens.refresh_token then fresh_login else if refreshed.ok then refreshed else again
