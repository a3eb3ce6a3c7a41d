-- ===== src/PanelClient.antt =====
-- services/xui/client.py: `SanaeiXUIClient`, over the HTTP library as a parameter. The pauses between
-- attempts, the headers, `get_inbounds` and `get_db_backup` are not modelled.
pub mod Attempts
pub mod Errors
pub mod Names
use marzbot.Base.{
  ℕ, zero, suc, Bool, true, false, not, ◌&&◌, ◌||◌, Option, none, some, List, [], ◌∷◌, ◌++◌, leb,
  ◌==◌, if◌then◌else◌,
}
use marzbot.Base.Text.{codes}
use marzbot.Models.{Str}
use marzbot.Session.{Exn, Call}

-- A request: its path, and whether its body is a form (the older login) or JSON.
pub record HttpRequest : Type 0 where
  pub path : Str
  pub is_form : Bool

-- What `getClientTraffics` holds: nothing, some traffics in a list or one, or something else. A
-- traffic is the sum of its two directions.
pub data Traffic : Type 0 where
  null other : Traffic
  many : List ℕ → Traffic
  one : ℕ → Traffic

-- A body: empty, of another content type, a JSON value that is no object or list, one that the
-- decoder of JSON or pydantic refuses, the wrapper with `success`, `msg` and `obj`, or another object
-- or list.
pub data Body : Type 0 where
  empty scalar malformed : Body
  not_json : Str → Body
  wrapped : Bool → Str → Traffic → Body
  bare : Traffic → Body

pub record HttpResponse : Type 0 where
  pub status_code : ℕ
  pub body : Body

-- How `httpx` ends a request: an error has its type's name and its cause's text.
pub data HttpResult : Type 0 where
  timeout : HttpResult
  request_error : Str → Str → HttpResult
  received : HttpResponse → HttpResult

-- `httpx.AsyncClient`: what becomes of a request after those sent before it (latest first), whether
-- the cookie jar is filled by then, whether `raise_for_status` raises on a status, and the texts of a
-- number and of a failure.
pub record Http : Type 0 where
  pub request : List HttpRequest → HttpRequest → HttpResult
  pub has_cookies : List HttpRequest → Bool
  pub raises : ℕ → Bool
  pub int_str : ℕ → Str
  pub detail : HttpResponse → Str

pub record PanelState : Type 0 where
  pub authenticated : Bool
  pub sent : List HttpRequest

pub data PanelRun (A : Type 0) : Type 0 where
  done : A → PanelState → PanelRun A
  fail : Exn → PanelState → PanelRun A

abbrev pub Panel : Type 0 → Type 0
Panel A = PanelState → PanelRun A

module _ {A : Type 0} where
  abbrev pub give : A → Panel A
  give = done

  abbrev pub throw : Exn → Panel A
  throw = fail

  abbrev pub follow : {B : Type 0} → PanelRun A → (A → Panel B) → PanelRun B
  follow (done a st) f = f a st
  follow (fail e st) f = fail e st

  -- `except XUIRequestError`
  abbrev pub recover : PanelRun A → (Exn → Panel A) → PanelRun A
  recover (done a st) h = done a st
  recover (fail (Exn.xui_request m) st) h = h (Exn.xui_request m) st
  recover (fail e st) h = fail e st

infixl 5 ◌>>=◌ ◌>>◌
abbrev pub ◌>>=◌ : {A B : Type 0} → Panel A → (A → Panel B) → Panel B
◌>>=◌ m f st = follow (m st) f

abbrev pub ◌>>◌ : {A B : Type 0} → Panel A → Panel B → Panel B
m >> k = m >>= λ _. k

abbrev pub set_authenticated : Bool → Panel (Unit {0})
set_authenticated b st = done tt (record st { authenticated = b })

-- The messages of `_send`.
unfoldable pub timeout_message : Str → Str
timeout_message path = codes "Timed out while calling X-UI endpoint '" ++ (path ++ codes "'.")

unfoldable pub status_message : Str → Str → Str → Str
status_message path status detail =
    codes "X-UI request to '"
    ++ (path ++ (codes "' failed with status " ++ (status ++ (codes ": " ++ detail))))

unfoldable pub error_message : Str → Str → Str → Str
error_message path kind cause =
    kind ++ (codes " while calling X-UI endpoint '" ++ (path ++ (codes "'" ++ cause)))

unfoldable pub exhausted_message : Str → Str
exhausted_message path = codes "All 3 retries exhausted for X-UI endpoint '" ++ (path ++ codes "'.")

-- `message or default`
abbrev pub or_text : Str → Str → Str
or_text [] default = default
or_text (c ∷ cs) default = c ∷ cs

-- `_decode_response`
unfoldable pub decode : Body → Panel Body
decode (not_json kind) =
    throw (Exn.xui_request (codes "Unexpected response content type: " ++ kind))
decode malformed = throw Exn.value_error
decode scalar = throw (Exn.xui_request (codes "Unexpected X-UI JSON payload type."))
decode b = give b

abbrev pub login_json : HttpRequest
login_json = record { path = codes "login"; is_form = false }

abbrev pub login_form : HttpRequest
login_form = record { path = codes "login"; is_form = true }

-- The answer to a login without a cookie.
unfoldable pub check_login : PanelRun Body → PanelRun (Unit {0})
check_login (done (wrapped false m t) st) = fail Exn.xui_authentication st
check_login (done (bare (many (n ∷ ns))) st) = fail Exn.value_error st
check_login (done b st) = set_authenticated true st
check_login (fail e st) = recover (fail e st) (λ x. throw Exn.xui_authentication)

unfoldable pub accept_login : Bool → HttpResponse → Panel (Unit {0})
unfolding decode check_login
accept_login true r st = set_authenticated true st
accept_login false r st = check_login (decode r.body st)

abbrev pub is_refused : ℕ → Bool
is_refused status = status == 401 || status == 403

-- `XUIAPIResponse` of a call that changes a client: an empty answer counts as a success, and a list of
-- something is refused.
unfoldable pub check_success : (default : Str) → Body → Panel (Unit {0})
check_success default (wrapped false m t) = throw (Exn.xui_request (or_text m default))
check_success default (bare (many (n ∷ ns))) = throw Exn.value_error
check_success default b = give tt

abbrev pub used_bytes : Traffic → ℕ
used_bytes null = 0
used_bytes other = 0
used_bytes (many []) = 0
used_bytes (many (n ∷ ns)) = n
used_bytes (one n) = n

unfoldable pub read_traffic : Body → Panel ℕ
read_traffic (wrapped false m t) =
    throw (Exn.xui_request (or_text m (codes "Failed to fetch traffic.")))
read_traffic (wrapped true m t) = give (used_bytes t)
read_traffic (bare t) = give (used_bytes t)
read_traffic b = give 0

unfoldable pub traffic_path : Str → Str
traffic_path email = codes "panel/api/inbounds/getClientTraffics/" ++ email

module _ (h : Http) where
  -- What one attempt leads to: the response, another attempt, or the error; the last one has no other.
  unfoldable pub settle_attempt :
      HttpRequest → (is_last : Bool) → Panel HttpResponse → HttpResult → Panel HttpResponse
  unfolding timeout_message status_message error_message
  settle_attempt q is_last again timeout =
      if is_last then throw (Exn.xui_request (timeout_message q.path)) else again
  settle_attempt q is_last again (request_error kind cause) =
      if is_last then throw (Exn.xui_request (error_message q.path kind cause)) else again
  settle_attempt q is_last again (received r) =
      if h.raises r.status_code
      then if leb 500 r.status_code && not is_last
        then again
        else throw (Exn.xui_request (status_message q.path (h.int_str r.status_code) (h.detail r)))
      else give r

  -- The attempts that are left.
  unfoldable pub send_from : ℕ → HttpRequest → Panel HttpResponse
  unfolding settle_attempt exhausted_message
  send_from zero q st = throw (Exn.xui_request (exhausted_message q.path)) st
  send_from (suc left) q st =
      settle_attempt q (left == 0) (send_from left q) (h.request st.sent q)
        (record st { sent = q ∷ st.sent })

  -- `_send`, with `max_retries = 3`
  unfoldable pub send : HttpRequest → Panel HttpResponse
  unfolding send_from
  send q = send_from 3 q

  unfoldable pub login : Panel (Unit {0})
  login = do
    response ← (λ st. recover (send login_json st) (λ e. send login_form))
    cookies ← (λ st. done (h.has_cookies st.sent) st)
    accept_login cookies response

  unfoldable pub login_unless : Bool → Panel (Unit {0})
  login_unless true = give tt
  login_unless false = login

  -- `if response.status_code in {401, 403}: …`
  unfoldable pub again_if : Bool → HttpRequest → HttpResponse → Panel HttpResponse
  again_if false q r = give r
  again_if true q r = do set_authenticated false; login; send q

  -- `_request`
  unfoldable pub request : HttpRequest → Panel Body
  request q = do
    known ← (λ st. done st.authenticated st)
    login_unless known
    first ← send q
    response ← again_if (is_refused first.status_code) q first
    decode response.body

  -- The call behind `add_client_to_inbound`, `update_client` and `delete_client`.
  unfoldable pub call : (path default : Str) → Panel (Unit {0})
  call path default = do
    b ← request (record { path = path; is_form = false })
    check_success default b

  unfoldable pub perform : (int_str : ℕ → Str) → Call → Panel (Unit {0})
  perform int_str (Call.add_client server_id inbound_id client) =
      call (codes "panel/api/inbounds/addClient") (codes "Failed to add inbound client.")
  perform int_str (Call.update_client server_id inbound_id client_id client) =
      call (codes "panel/api/inbounds/updateClient/" ++ client_id)
        (codes "Failed to update inbound client.")
  perform int_str (Call.delete_client server_id inbound_id client_id) =
      call
        (codes "panel/api/inbounds/" ++ (int_str inbound_id ++ (codes "/delClient/" ++ client_id)))
        (codes "Failed to delete inbound client.")
  perform int_str c = give tt

  unfoldable pub get_client_traffic : Str → Panel ℕ
  unfolding traffic_path
  get_client_traffic email = do
    b ← request (record { path = traffic_path email; is_form = false })
    read_traffic b
