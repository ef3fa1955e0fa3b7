-- ===== src/Login/Tokens.antt =====
-- common/auth_http.c, common/ws_client.c: where the tokens come from.
use sync_clipboard.Prelude.Int.{pos}
use sync_clipboard.Config.{ClientConfig}
use sync_clipboard.Login.{
  AuthTokens, Fields, Formats, Http, Outcome, Response, auth_http_login, auth_http_refresh,
  first_reply, later_answers, login_reply, no_token, parse_token_response, post_json, receive_reply,
  refresh_body, refresh_reply, take_tokens, ws_acquire_tokens, ws_build_bearer_protocol,
}
use sync_clipboard.Prelude.{
  ==_iff, Bytes, List, Option, [], ap, arith, codes, false, if-both, length, length-take, ltb,
  maybe, maybe-both, none, none_is_some, refl, some, subst, sym, take, true, true_is_false, ℕ, ◌++◌,
  ◌==◌, ◌∙◌, ◌∷◌, ◌≡◌, ◌≤◌,
}
use sync_clipboard.Client.Message.{Object}

-- An answer is one of a list.
pub data Came (response : Response) : List (Option Response) → Type 0 where
  came_first : (answers : List (Option Response)) → Came response (some response ∷ answers)
  came_later :
      (answer : Option Response) (answers : List (Option Response))
      → Came response answers
      → Came response (answer ∷ answers)

-- What cJSON finds in a body: both tokens, cut to 1023 bytes, and how long they hold, if it is told.
pub record Found (fmt : Formats) (body : Option Bytes) (t : AuthTokens) : Type 0 where
  pub text : Bytes
  pub root : Fields
  pub access : Bytes
  pub refresh : Bytes
  pub has_body : body ≡ some text
  pub parses : fmt.parse text ≡ some root
  pub has_access : root.access ≡ some access
  pub has_refresh : root.refresh ≡ some refresh
  pub access_is : t.access_token ≡ take 1023 access
  pub refresh_is : t.refresh_token ≡ take 1023 refresh
  pub expires_is : t.expires_in_sec ≡ maybe root.expires (pos 0) (λ n. n)

-- The tokens are those of an answer with code 200, and the access token fits the subprotocol; or the
-- result is -1 and the tokens are the old ones.
pub data Acquired (fmt : Formats) (answers : List (Option Response)) (former : AuthTokens)
    (out : Outcome) : Type 0 where
  with_tokens :
      (response : Response) (body : Option Bytes)
      → Came response answers
      → receive_reply (some response) ≡ some (200, body)
      → Found fmt body out.tokens
      → ws_build_bearer_protocol out.tokens.access_token 1200
        ≡ some (codes "bearer." ++ out.tokens.access_token)
      → out.ok ≡ true
      → Acquired fmt answers former out
  without_tokens : out.ok ≡ false → out.tokens ≡ former → Acquired fmt answers former out

-- What a list of answers has, the longer one has.
abbrev Within : List (Option Response) → List (Option Response) → Type 0
Within later answers = (response : Response) → Came response later → Came response answers

later-Within : (answers : List (Option Response)) → Within (later_answers answers) answers
later-Within [] response came = came
later-Within (answer ∷ answers) response came = came_later answer answers came

Acquired-Within :
    (fmt : Formats) (later answers : List (Option Response)) (former : AuthTokens) (out : Outcome)
    → Within later answers
    → Acquired fmt later former out
    → Acquired fmt answers former out
Acquired-Within fmt later answers former out within (with_tokens response body came e p b ok) =
    with_tokens response body (within response came) e p b ok
Acquired-Within fmt later answers former out within (without_tokens fails kept) =
    without_tokens fails kept

unfoldable Finds : Formats → Option Bytes → Option AuthTokens → Type 0
Finds fmt body none = Unit
Finds fmt body (some t) = Found fmt body t

parsed-Finds :
    (fmt : Formats) (body : Option Bytes) → Finds fmt body (parse_token_response fmt body)
unfolding parse_token_response Finds
parsed-Finds fmt body =
    maybe-both (Finds fmt body) _ _ _ (λ n. tt)
      (λ text e.
        maybe-both (Finds fmt body) _ _ _ (λ n. tt)
          (λ root f.
            maybe-both (Finds fmt body) _ _ _ (λ n. tt)
              (λ access g.
                maybe-both (Finds fmt body) _ _ _ (λ n. tt)
                  (λ refresh k. record {
                    text = text;
                    root = root;
                    access = access;
                    refresh = refresh;
                    has_body = e;
                    parses = f;
                    has_access = g;
                    has_refresh = k;
                    access_is = refl;
                    refresh_is = refl;
                    expires_is = refl;
                  }))))

parsed-Found :
    (fmt : Formats) (body : Option Bytes) (t : AuthTokens)
    → parse_token_response fmt body ≡ some t
    → Found fmt body t
unfolding Finds
parsed-Found fmt body t e = subst (Finds fmt body) e (parsed-Finds fmt body)

abbrev Short : Option AuthTokens → Type 0
Short none = Unit
Short (some t) = length t.access_token ≤ 1023

parsed-Short : (fmt : Formats) (body : Option Bytes) → Short (parse_token_response fmt body)
unfolding parse_token_response
parsed-Short fmt body =
    maybe-both Short _ _ _ (λ n. tt)
      (λ text e.
        maybe-both Short _ _ _ (λ n. tt)
          (λ root f.
            maybe-both Short _ _ _ (λ n. tt)
              (λ access g.
                maybe-both Short _ _ _ (λ n. tt)
                  (λ refresh k. omega (arith, length-take 1023 access)))))

-- The access token that was parsed has at most 1023 bytes, and "bearer." is put before it.
parsed-bearer :
    (fmt : Formats) (body : Option Bytes) (t : AuthTokens)
    → parse_token_response fmt body ≡ some t
    → ws_build_bearer_protocol t.access_token 1200 ≡ some (codes "bearer." ++ t.access_token)
unfolding ws_build_bearer_protocol
parsed-bearer fmt body t e =
    let short : length t.access_token ≤ 1023 = subst Short e (parsed-Short fmt body) in
    let fits : ltb (length (codes "bearer." ++ t.access_token)) 1200 ≡ true = ground arith in
    rw fits refl

first_reply-Came :
    (answers : List (Option Response)) (reply : ℕ × Option Bytes)
    → first_reply answers ≡ some reply
    → (response : Response) × Came response answers × (receive_reply (some response) ≡ some reply)
unfolding first_reply receive_reply maybe
first_reply-Came [] reply e = absurd (none_is_some reply e)
first_reply-Came (none ∷ answers) reply e = absurd (none_is_some reply e)
first_reply-Came (some response ∷ answers) reply e = (response, came_first answers, e)

module _ (fmt : Formats) (cfg : ClientConfig) (tokens : AuthTokens) where
  -- An answer with code 200 and its body.
  taken-Acquired :
      (answers : List (Option Response)) (http : Http) (reply : ℕ × Option Bytes)
      → first_reply answers ≡ some reply
      → reply.0 == 200 ≡ true
      → Acquired fmt answers tokens (take_tokens fmt reply.1 tokens http)
  unfolding take_tokens
  taken-Acquired answers http (code, body) e is_200 =
      let (response, came, left) = first_reply-Came answers (code, body) e in
      let code_eq : code ≡ 200 = (==_iff code 200).0 is_200 in
      maybe-both (Acquired fmt answers tokens) _ _ _ (λ n. without_tokens refl refl)
        (λ got p.
          with_tokens response body came (left ∙ ap (λ k. some (k, body)) code_eq)
            (parsed-Found fmt body got p) (parsed-bearer fmt body got p) refl)

  auth_http_login-Acquired :
      (http : Http) → Acquired fmt http.answers tokens (auth_http_login fmt cfg tokens http)
  unfolding auth_http_login login_reply post_json
  auth_http_login-Acquired http =
      let P : Outcome → Type 0 = Acquired fmt http.answers tokens in
      maybe-both P _ _ _ (λ n. without_tokens refl refl)
        (λ url u.
          maybe-both P _ _ _ (λ n. without_tokens refl refl)
            (λ reply e.
              if-both P (reply.0 == 200) _ _ (λ h. taken-Acquired http.answers _ reply e h)
                (λ h. without_tokens refl refl)))

  refresh_reply-Acquired :
      (url : Bytes) (body : Object) (http : Http)
      → Acquired fmt http.answers tokens (refresh_reply fmt cfg tokens (post_json url body http))
  unfolding refresh_reply post_json
  refresh_reply-Acquired url body http =
      let P : Outcome → Type 0 = Acquired fmt http.answers tokens in
      let rest : Http = (post_json url body http).1 in
      maybe-both P _ _ _ (λ n. without_tokens refl refl)
        (λ reply e.
          if-both P (reply.0 == 200) _ _ (λ h. taken-Acquired http.answers _ reply e h)
            (λ h.
              Acquired-Within fmt rest.answers http.answers tokens _ (later-Within http.answers)
                (auth_http_login-Acquired rest)))

  auth_http_refresh-Acquired :
      (http : Http) → Acquired fmt http.answers tokens (auth_http_refresh fmt cfg tokens http)
  unfolding auth_http_refresh
  auth_http_refresh-Acquired http =
      let P : Outcome → Type 0 = Acquired fmt http.answers tokens in
      if-both P (no_token tokens.refresh_token) _ _ (λ h. auth_http_login-Acquired http)
        (λ h.
          maybe-both P _ _ _ (λ n. without_tokens refl refl)
            (λ url u. refresh_reply-Acquired url (refresh_body cfg tokens) http))

  -- What a call leaves of the answers.
  take_tokens-http :
      (body : Option Bytes) (http : Http) → (take_tokens fmt body tokens http).http ≡ http
  unfolding take_tokens
  take_tokens-http body http =
      maybe-both (λ (out : Outcome). out.http ≡ http) _ _ _ (λ n. refl) (λ got p. refl)

  auth_http_login-Within :
      (http : Http) → Within (auth_http_login fmt cfg tokens http).http.answers http.answers
  unfolding auth_http_login login_reply post_json
  auth_http_login-Within http =
      let P : Outcome → Type 0 = λ out. Within out.http.answers http.answers in
      let later : Http → Type 0 = λ h. Within h.answers http.answers in
      maybe-both P _ _ _ (λ n response came. came)
        (λ url u.
          maybe-both P _ _ _ (λ n. later-Within http.answers)
            (λ reply e.
              if-both P (reply.0 == 200) _ _
                (λ h. subst later (sym (take_tokens-http reply.1 _)) (later-Within http.answers))
                (λ h. later-Within http.answers)))

  auth_http_refresh-Within :
      (http : Http) → Within (auth_http_refresh fmt cfg tokens http).http.answers http.answers
  unfolding auth_http_refresh refresh_reply post_json
  auth_http_refresh-Within http =
      let P : Outcome → Type 0 = λ out. Within out.http.answers http.answers in
      let later : Http → Type 0 = λ h. Within h.answers http.answers in
      if-both P (no_token tokens.refresh_token) _ _ (λ h. auth_http_login-Within http)
        (λ h.
          maybe-both P _ _ _ (λ n response came. came)
            (λ url u.
              maybe-both P _ _ _ (λ n. later-Within http.answers)
                (λ reply e.
                  if-both P (reply.0 == 200) _ _
                    (λ g.
                      subst later (sym (take_tokens-http reply.1 _)) (later-Within http.answers))
                    (λ g response came.
                      later-Within http.answers response
                        (auth_http_login-Within _ response came)))))

refused-kept :
    (fmt : Formats) (answers : List (Option Response)) (former : AuthTokens) (out : Outcome)
    → Acquired fmt answers former out
    → out.ok ≡ false
    → out.tokens ≡ former
refused-kept fmt answers former out (with_tokens response body came e p b ok) fails =
    absurd (true_is_false (sym ok ∙ fails))
refused-kept fmt answers former out (without_tokens undone kept) fails = kept

-- Whatever the server answers: if the call succeeds, then the access token is the one that cJSON
-- finds as the access token in the body of an answer with the code 200, the refresh token the one it
-- finds there as the refresh token, each cut to 1023 bytes, and the subprotocol "bearer." with the
-- access token fits the 1200 bytes that `main` has for it; if it fails, the tokens are the old ones.
pub ws_acquire_tokens-Acquired :
    (fmt : Formats) (cfg : ClientConfig) (tokens : AuthTokens) (http : Http)
    → Acquired fmt http.answers tokens (ws_acquire_tokens fmt cfg tokens http)
unfolding ws_acquire_tokens
ws_acquire_tokens-Acquired fmt cfg tokens http =
    let P : Outcome → Type 0 = Acquired fmt http.answers tokens in
    let refreshed : Outcome = auth_http_refresh fmt cfg tokens http in
    let first = auth_http_refresh-Acquired fmt cfg tokens http in
    if-both P (no_token tokens.refresh_token) _ _
      (λ h. auth_http_login-Acquired fmt cfg tokens http)
      (λ h.
        if-both P refreshed.ok refreshed (auth_http_login fmt cfg refreshed.tokens refreshed.http)
          (λ g. first)
          (λ g.
            Acquired-Within fmt refreshed.http.answers http.answers tokens _
              (auth_http_refresh-Within fmt cfg tokens http)
              (subst
                (λ former.
                  Acquired fmt refreshed.http.answers former
                    (auth_http_login fmt cfg refreshed.tokens refreshed.http))
                (refused-kept fmt http.answers tokens refreshed first g)
                (auth_http_login-Acquired fmt cfg refreshed.tokens refreshed.http))))
