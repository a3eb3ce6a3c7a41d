-- ===== src/PanelClient/Attempts.antt =====
-- How often services/xui/client.py asks: `_send` and `_request`.
use marzbot.Base.{
  ℕ, zero, suc, ◌+◌, ◌≤◌, ◌≡◌, refl, Bool, true, false, ◌∷◌, arith, length, if◌then◌else◌,
}
use marzbot.Session.{Exn}
use marzbot.PanelClient.{
  Http, HttpRequest, HttpResponse, Body, PanelState, PanelRun, done, fail, Panel, settle_attempt,
  send_from, send, decode, login_json, login_form, check_login, accept_login, login, login_unless,
  is_refused, again_if, request, recover, follow, ◌>>=◌, ◌>>◌,
}

abbrev pub final : {A : Type 0} → PanelRun A → PanelState
final (done a st) = st
final (fail e st) = st

-- Between `low` and `high` requests were made on the way.
abbrev pub Within : ℕ → ℕ → PanelState → PanelState → Type 0
Within low high st t =
    (low + length st.sent ≤ length t.sent) × (length t.sent ≤ high + length st.sent)

module _ {A : Type 0} where
  follow-Within :
      {B : Type 0} (m : PanelRun A) (f : A → Panel B) (low a b : ℕ) (st : PanelState)
      → Within low a st (final m)
      → ((x : A) (t : PanelState) → Within 0 b t (final (f x t)))
      → Within low (b + a) st (final (follow m f))
  follow-Within (done x t) f low a b st h k =
      let u = k x t in (omega (arith, h, u), omega (arith, h, u))
  follow-Within (fail e t) f low a b st h k = (omega (arith, h), omega (arith, h))

  recover-Within :
      (m : PanelRun A) (f : Exn → Panel A) (low a b : ℕ) (st : PanelState)
      → Within low a st (final m)
      → ((x : Exn) (t : PanelState) → Within 0 b t (final (f x t)))
      → Within low (b + a) st (final (recover m f))
  recover-Within (done x t) f low a b st h k = (omega (arith, h), omega (arith, h))
  recover-Within (fail (Exn.xui_request s) t) f low a b st h k =
      let u = k (Exn.xui_request s) t in (omega (arith, h, u), omega (arith, h, u))
  recover-Within (fail e t) f low a b st h k = (omega (arith, h), omega (arith, h))

  follow-cong :
      {B : Type 0} (m : PanelRun A) (f g : A → Panel B)
      → ((x : A) (t : PanelState) → m ≡ done x t → f x t ≡ g x t)
      → follow m f ≡ follow m g
  follow-cong (done x t) f g k = k x t refl
  follow-cong (fail e t) f g k = refl

decode-Within : (b : Body) (st : PanelState) → Within 0 0 st (final (decode b st))
unfolding decode
decode-Within b st = ground arith

accept_login-Within :
    (cookies : Bool) (r : HttpResponse) (st : PanelState)
    → Within 0 0 st (final (accept_login cookies r st))
unfolding accept_login check_login decode
accept_login-Within cookies r st = ground arith

module _ (h : Http) where
  send_from-Within :
      (left : ℕ) (q : HttpRequest) (st : PanelState)
      → Within 1 (suc left) st (final (send_from h (suc left) q st))
  unfolding send_from settle_attempt
  send_from-Within zero q st = ground arith
  send_from-Within (suc left) q st =
      let rest = send_from-Within left q (record st { sent = q ∷ st.sent }) in ground (arith, rest)

  send-Within : (q : HttpRequest) (st : PanelState) → Within 1 3 st (final (send h q st))
  unfolding send
  send-Within = send_from-Within 2

  send-Some : (q : HttpRequest) (st : PanelState) → Within 0 3 st (final (send h q st))
  send-Some q st = let u = send-Within q st in (omega (arith, u), omega (arith, u))

  login-Within : (st : PanelState) → Within 1 6 st (final (login h st))
  unfolding login
  login-Within st =
      follow-Within (recover (send h login_json st) (λ e. send h login_form))
        (λ r t. accept_login (h.has_cookies t.sent) r t) 1 6 0 st
        (recover-Within (send h login_json st) (λ e. send h login_form) 1 3 3 st
          (send-Within login_json st) (λ e t. send-Some login_form t))
        (λ r t. accept_login-Within (h.has_cookies t.sent) r t)

  send_from-accepts :
      (left : ℕ) (q : HttpRequest) (st t : PanelState) (r : HttpResponse)
      → send_from h left q st ≡ done r t
      → h.raises r.status_code ≡ false
  unfolding send_from settle_attempt
  send_from-accepts zero q st t r e = ground arith
  send_from-accepts (suc left) q st t r e =
      ground (arith, send_from-accepts left q (record st { sent = q ∷ st.sent }) t r)

-- `_request` without the second login.
abbrev pub plain_request : Http → HttpRequest → Panel Body
plain_request h q = do
  known ← (λ st. done st.authenticated st)
  login_unless h known
  response ← send h q
  decode response.body

module _ (h : Http) (strict : (n : ℕ) → 400 ≤ n → h.raises n ≡ true) where
  accepted-is_refused :
      (r : HttpResponse) → h.raises r.status_code ≡ false → is_refused r.status_code ≡ false
  accepted-is_refused r e = let u = strict r.status_code in ground arith

  again-plain :
      (q : HttpRequest) (r : HttpResponse) (st : PanelState)
      → h.raises r.status_code ≡ false
      → (again_if h (is_refused r.status_code) q r >>= λ x. decode x.body) st ≡ decode r.body st
  unfolding again_if
  again-plain q r st e = rw (accepted-is_refused r e) refl

  send_then-plain :
      (q : HttpRequest) (st : PanelState)
      → follow
          (send h q st)
          (λ first. again_if h (is_refused first.status_code) q first >>= λ r. decode r.body)
        ≡ follow (send h q st) (λ r. decode r.body)
  unfolding send
  send_then-plain q st =
      follow-cong (send_from h 3 q st)
        (λ first. again_if h (is_refused first.status_code) q first >>= λ r. decode r.body)
        (λ r. decode r.body) (λ r t e. again-plain q r t (send_from-accepts h 3 q st t r e))

  -- If the HTTP library raises on every status from 400 on, a request of the client is one login if
  -- it has none, and the request itself: the second login after a refusal is never reached.
  pub request-plain_request :
      (q : HttpRequest) (st : PanelState) → request h q st ≡ plain_request h q st
  unfolding request
  request-plain_request q st =
      follow-cong (login_unless h st.authenticated st)
        (λ u. send h q >>= λ first.
          again_if h (is_refused first.status_code) q first >>= λ r. decode r.body)
        (λ u. send h q >>= λ r. decode r.body) (λ u t e. send_then-plain q t)

  answered-Within :
      (q : HttpRequest) (st : PanelState)
      → Within 1 3 st (final (follow (send h q st) (λ r. decode r.body)))
  answered-Within q st =
      follow-Within (send h q st) (λ r. decode r.body) 1 3 0 st (send-Within h q st)
        (λ r t. decode-Within r.body t)

  from_login-Within :
      (known : Bool) (q : HttpRequest) (st : PanelState)
      → Within 1
          (if known then 3 else 9)
          st
          (final (follow (login_unless h known st) (λ u. send h q >>= λ r. decode r.body)))
  unfolding login_unless
  from_login-Within true q st = answered-Within q st
  from_login-Within false q st =
      follow-Within (login h st) (λ u. send h q >>= λ r. decode r.body) 1 6 3 st (login-Within h st)
        (λ u t. let v = answered-Within q t in (omega (arith, v), omega (arith, v)))

  -- If the HTTP library raises on every status from 400 on, a request of the client ends after at
  -- least one and at most nine requests to the panel, and after at most three if it is logged in.
  pub request-Within :
      (q : HttpRequest) (st : PanelState)
      → Within 1 (if st.authenticated then 3 else 9) st (final (request h q st))
  request-Within q st = rw (request-plain_request q st) (from_login-Within st.authenticated q st)
