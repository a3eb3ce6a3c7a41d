-- ===== src/PanelClient/Errors.antt =====
-- The exceptions of services/xui/client.py, and what its callers make of them.
use marzbot.Base.{ℕ, zero, suc, ◌≡◌, refl, Bool, true, false, List, [], ◌∷◌, ◌||◌, arith}
use marzbot.Models.{Str}
use marzbot.Session.{
  Session, Exn, is_xui_client_error, is_provisioning_error, Outside, Call, Reply, answer, failure,
}
use marzbot.Provisioning.Contract.{PanelIsForeign}
use marzbot.Sync.Expiry.{RaisesXui}
use marzbot.PanelClient.{
  Http, HttpRequest, HttpResponse, received, Body, Traffic, PanelState, PanelRun, done, fail, Panel,
  settle_attempt, send_from, send, decode, login_json, login_form, check_login, accept_login, login,
  login_unless, is_refused, again_if, request, recover, follow, check_success, call, perform,
  read_traffic, get_client_traffic, traffic_path, ◌>>=◌,
}

-- A run that ends with a value of `P`, or with an exception that is `allowed`.
abbrev pub Ends : (Exn → Bool) → {A : Type 0} → (A → Type 0) → PanelRun A → Type 0
Ends allowed P (done a st) = P a
Ends allowed P (fail e st) = allowed e ≡ true

abbrev pub Any : {A : Type 0} → A → Type 0
Any a = Unit

-- A body that JSON's decoder or pydantic may refuse.
abbrev pub is_odd : Body → Bool
is_odd Body.malformed = true
is_odd (Body.bare (Traffic.many (n ∷ ns))) = true
is_odd b = false

module _ (allowed : Exn → Bool)
    (own : (e : Exn) → is_xui_client_error e ≡ true → allowed e ≡ true) where
  follow-Ends :
      {A B : Type 0} (P : A → Type 0) (Q : B → Type 0) (m : PanelRun A) (f : A → Panel B)
      → Ends allowed P m
      → ((x : A) (t : PanelState) → P x → Ends allowed Q (f x t))
      → Ends allowed Q (follow m f)
  follow-Ends P Q (done x t) f h k = k x t h
  follow-Ends P Q (fail e t) f h k = h

  recover-Ends :
      {A : Type 0} (P : A → Type 0) (m : PanelRun A) (f : Exn → Panel A)
      → Ends allowed P m
      → ((x : Exn) (t : PanelState) → Ends allowed P (f x t))
      → Ends allowed P (recover m f)
  recover-Ends P (done x t) f h k = h
  recover-Ends P (fail (Exn.xui_request s) t) f h k = k (Exn.xui_request s) t
  recover-Ends P (fail e t) f h k = h

  -- A body that can be read, unless a `ValueError` is allowed.
  abbrev pub IsReadable : Body → Type 0
  IsReadable b = is_odd b ≡ true → allowed Exn.value_error ≡ true

  own_request : (m : Str) → allowed (Exn.xui_request m) ≡ true
  own_request m = own (Exn.xui_request m) refl

  own_authentication : allowed Exn.xui_authentication ≡ true
  own_authentication = own Exn.xui_authentication refl

  decode-Ends : (b : Body) (st : PanelState) → IsReadable b → Ends allowed IsReadable (decode b st)
  unfolding decode
  decode-Ends b st h = grind (arith, own_request)

  check_success-Ends :
      (m : Str) (b : Body) (st : PanelState)
      → IsReadable b
      → Ends allowed Any (check_success m b st)
  unfolding check_success
  check_success-Ends m b st h = grind (arith, own_request)

  read_traffic-Ends : (b : Body) (st : PanelState) → Ends allowed Any (read_traffic b st)
  unfolding read_traffic
  read_traffic-Ends b st = grind (arith, own_request)

  accept_login-Ends :
      (cookies : Bool) (r : HttpResponse) (st : PanelState)
      → IsReadable r.body
      → Ends allowed Any (accept_login cookies r st)
  unfolding accept_login check_login decode
  accept_login-Ends cookies r st h = grind (arith, own_request, own_authentication)

  module _ (h : Http)
      (readable : (sent : List HttpRequest) (q : HttpRequest) (r : HttpResponse)
        → h.request sent q ≡ received r
        → IsReadable r.body) where
    abbrev HasBody : HttpResponse → Type 0
    HasBody r = IsReadable r.body

    send_from-Ends :
        (left : ℕ) (q : HttpRequest) (st : PanelState)
        → Ends allowed HasBody (send_from h left q st)
    unfolding send_from settle_attempt
    send_from-Ends zero q st = own_request _
    send_from-Ends (suc left) q st =
        grind
          (arith, own_request, readable, send_from-Ends left q (record st { sent = q ∷ st.sent }))

    send-Ends : (q : HttpRequest) (st : PanelState) → Ends allowed HasBody (send h q st)
    unfolding send
    send-Ends q st = send_from-Ends 3 q st

    login-Ends : (st : PanelState) → Ends allowed Any (login h st)
    unfolding login
    login-Ends st =
        follow-Ends HasBody Any (recover (send h login_json st) (λ e. send h login_form))
          (λ r t. accept_login (h.has_cookies t.sent) r t)
          (recover-Ends HasBody (send h login_json st) (λ e. send h login_form)
            (send-Ends login_json st) (λ e t. send-Ends login_form t))
          (λ r t b. accept_login-Ends (h.has_cookies t.sent) r t b)

    login_unless-Ends :
        (known : Bool) (st : PanelState) → Ends allowed Any (login_unless h known st)
    unfolding login_unless
    login_unless-Ends true st = tt
    login_unless-Ends false st = login-Ends st

    again_if-Ends :
        (refused : Bool) (q : HttpRequest) (r : HttpResponse) (st : PanelState)
        → HasBody r
        → Ends allowed HasBody (again_if h refused q r st)
    unfolding again_if
    again_if-Ends false q r st b = b
    again_if-Ends true q r st b =
        follow-Ends Any HasBody (login h (record st { authenticated = false })) (λ u. send h q)
          (login-Ends (record st { authenticated = false })) (λ u t x. send-Ends q t)

    settled-Ends :
        (q : HttpRequest) (first : HttpResponse) (st : PanelState)
        → HasBody first
        → Ends allowed IsReadable
            (follow (again_if h (is_refused first.status_code) q first st) (λ r. decode r.body))
    settled-Ends q first st b =
        follow-Ends HasBody IsReadable (again_if h (is_refused first.status_code) q first st)
          (λ r. decode r.body) (again_if-Ends (is_refused first.status_code) q first st b)
          (λ r t c. decode-Ends r.body t c)

    request-Ends : (q : HttpRequest) (st : PanelState) → Ends allowed IsReadable (request h q st)
    unfolding request
    request-Ends q st =
        follow-Ends Any IsReadable (login_unless h st.authenticated st)
          (λ u. send h q >>= λ first.
            again_if h (is_refused first.status_code) q first >>= λ r. decode r.body)
          (login_unless-Ends st.authenticated st)
          (λ u t x.
            follow-Ends HasBody IsReadable (send h q t)
              (λ first. again_if h (is_refused first.status_code) q first >>= λ r. decode r.body)
              (send-Ends q t) (settled-Ends q))

    call-Ends : (path m : Str) (st : PanelState) → Ends allowed Any (call h path m st)
    unfolding call
    call-Ends path m st =
        let q : HttpRequest = record { path = path; is_form = false } in
        follow-Ends IsReadable Any (request h q st) (check_success m) (request-Ends q st)
          (λ b t c. check_success-Ends m b t c)

    perform-Ends :
        (text : ℕ → Str) (c : Call) (st : PanelState) → Ends allowed Any (perform h text c st)
    unfolding perform
    perform-Ends text (Call.add_client v i x) st = call-Ends _ _ st
    perform-Ends text (Call.update_client v i n x) st = call-Ends _ _ st
    perform-Ends text (Call.delete_client v i n) st = call-Ends _ _ st
    perform-Ends text c st = tt

    get_client_traffic-Ends :
        (email : Str) (st : PanelState) → Ends allowed Any (get_client_traffic h email st)
    unfolding get_client_traffic
    get_client_traffic-Ends email st =
        let q : HttpRequest = record { path = traffic_path email; is_form = false } in
        follow-Ends IsReadable Any (request h q st) read_traffic (request-Ends q st)
          (λ b t c. read_traffic-Ends b t)

abbrev pub reply_of : {A : Type 0} → PanelRun A → Reply A
reply_of (done a st) = answer a
reply_of (fail e st) = failure e

abbrev email_of : Call → Str
email_of (Call.get_client_traffic server_id email) = email
email_of c = []

-- The world outside whose panels are asked by the client, each call from some state of its own.
abbrev pub through : Http → (Session → PanelState) → Outside → Outside
through h at o = record o {
  panel = λ s c. reply_of (perform h o.int_str c (at s));
  panel_traffic = λ s c. reply_of (get_client_traffic h (email_of c) (at s));
}

reply_of-Ends :
    (allowed : Exn → Bool) {A : Type 0} (m : PanelRun A) (e : Exn)
    → Ends allowed Any m
    → reply_of m ≡ failure e
    → allowed e ≡ true
reply_of-Ends allowed (done a st) e h eq = ground arith
reply_of-Ends allowed (fail x st) e h eq = ground arith

abbrev pub is_value_error : Exn → Bool
is_value_error Exn.value_error = true
is_value_error e = false

abbrev pub is_panel_error : Exn → Bool
is_panel_error e = is_xui_client_error e || is_value_error e

panel_error-foreign : (e : Exn) → is_panel_error e ≡ true → is_provisioning_error e ≡ false
panel_error-foreign e h = ground arith

xui_error-panel_error : (e : Exn) → is_xui_client_error e ≡ true → is_panel_error e ≡ true
xui_error-panel_error e h = ground arith

module _ (h : Http) (at : Session → PanelState) (o : Outside) where
  -- A panel that is asked by the client fails with the client's own errors or a `ValueError`, on a
  -- change as on a query of the traffic, and never with an error of the provisioning.
  pub through-PanelIsForeign :
      ((s : Session) (c : Call) (e : Exn)
        → (through h at o).panel s c ≡ failure e
        → is_panel_error e ≡ true)
      × ((s : Session) (c : Call) (e : Exn)
          → (through h at o).panel_traffic s c ≡ failure e
          → is_panel_error e ≡ true)
      × PanelIsForeign (through h at o)
  through-PanelIsForeign =
      let changes : (s : Session) (c : Call) (e : Exn)
          → (through h at o).panel s c ≡ failure e
          → is_panel_error e ≡ true =
        λ s c e eq.
          reply_of-Ends is_panel_error (perform h o.int_str c (at s)) e
            (perform-Ends is_panel_error xui_error-panel_error h (λ sent q r g x. refl) o.int_str c
              (at s))
            eq in
      (
        changes,
        (λ s c e eq.
            reply_of-Ends is_panel_error (get_client_traffic h (email_of c) (at s)) e
              (get_client_traffic-Ends is_panel_error xui_error-panel_error h (λ sent q r g x. refl)
                (email_of c) (at s))
              eq),
        (λ s c e eq. panel_error-foreign e (changes s c e eq)),
      )

  -- If no answer has a body that JSON's decoder or pydantic may refuse, a panel that is asked by the
  -- client fails with the client's own errors alone.
  pub through-RaisesXui :
      ((sent : List HttpRequest) (q : HttpRequest) (r : HttpResponse)
        → h.request sent q ≡ received r
        → is_odd r.body ≡ false)
      → RaisesXui (through h at o)
  through-RaisesXui readable s c e eq =
      reply_of-Ends is_xui_client_error (perform h o.int_str c (at s)) e
        (perform-Ends is_xui_client_error (λ x g. g) h
          (λ sent q r g x. let y = readable sent q r g in ground arith) o.int_str c (at s))
        eq
