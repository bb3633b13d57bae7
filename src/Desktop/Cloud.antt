-- ===== src/Desktop/Cloud.antt =====
-- desktop/main.mjs: the requests to the cloud and the session cookie.
use v.Prelude.{
  ℕ, String, Bool, true, false, [], ◌∷◌, if◌then◌else◌, ◌+◌, ◌/◌, ◌<>◌, show, starts_with, ◌===◌,
}
use v.Js.{
  Value, Fields, str, num, get, is_nullish, to_string, Body, parsed, unreadable, is_ok, error,
}
use v.Desktop.{Desk, ◌>>=◌, give, throw, fail, ask, perform, settle, object}
use v.Desktop.Outside.{Host, Request, Answer, refused, answered, sent, Cookie, cookie_set}
use v.Desktop.Paths.{api_url, cookie_name}

-- A property read, which throws on `null` and `undefined`.
abbrev pub read : Value → String → Desk Value
read v k =
    if is_nullish v
    then throw (error ("Cannot read properties of " <> to_string v <> " (reading '" <> k <> "')"))
    else give (get v k)

-- `response.json()` of a response that is ok, and what its other statuses throw.
abbrev pub json_or : Answer → (ℕ → Body String → String) → Desk Value
json_or (refused e) message = throw e
json_or (answered status json text) message =
    if is_ok status then settle json else fail (message status text)

-- `response.text().catch(() => '')`
abbrev pub detail_of : Body String → String
detail_of (parsed s) = s
detail_of (unreadable e) = ""

module _ (host : Host) where
  abbrev pub fetch : Request → Desk Answer
  fetch r = ask (sent r) λ h. host.fetch h r

  abbrev pub fetch_json : Request → String → Desk Value
  fetch_json r label = do
    answer ← fetch r
    json_or answer λ status _. label <> " (" <> show status <> ")"

  abbrev pub session_header : Value → String × Value
  session_header token = ("Cookie", str (cookie_name host <> "=" <> to_string token))

  abbrev pub device_name : String
  device_name = "Agent Room Desktop · " <> host.hostname

  unfoldable pub pairing_request : Value → Request
  pairing_request token = record {
    method = "POST";
    url = api_url host <> "/v1/projects/default/devices/pair";
    headers = ("Content-Type", str "application/json") ∷ session_header token ∷ [];
    body = object (("name_hint", str device_name) ∷ ("expires_in_seconds", num 600) ∷ []);
  }

  -- `requestPairing`
  unfoldable pub request_pairing : Value → Desk Value
  request_pairing token = fetch_json (pairing_request token) "Cloud pairing request failed"

  abbrev pub github_failure : ℕ → Body String → String
  github_failure status text =
      let detail = detail_of text in
      "GitHub request failed ("
      <> show status
      <> ")"
      <> (if detail === "" then "" else ": " <> detail)

  unfoldable pub github_request : Value → String → Request
  github_request token pathname = record {
    method = "GET";
    url = api_url host <> "/v1" <> pathname;
    headers = session_header token ∷ [];
    body = Fields.end;
  }

  -- `githubApiRequest`
  unfoldable pub github_api_request : Value → String → Desk Value
  github_api_request token pathname = do
    answer ← fetch (github_request token pathname)
    json_or answer github_failure

  unfoldable pub session_cookie : Value → ℕ → Cookie
  session_cookie token now = record {
    url = api_url host;
    name = cookie_name host;
    value = token;
    secure = starts_with (api_url host) "https://";
    expires = now / 1000 + 604800;
  }

  abbrev pub set_cookie : Value → Bool → Desk (Unit {0})
  set_cookie token true =
      λ d. perform host (cookie_set (session_cookie token (host.now d.history))) d
  set_cookie token false = fail "Desktop browser session is not ready"

  -- `setSessionCookie`
  unfoldable pub set_session_cookie : Value → Desk (Unit {0})
  set_session_cookie token d = set_cookie token d.session_ready d
