-- ===== src/Tests/Panels.antt =====
-- Requests to a panel: every one times out, or is answered.
use marzbot.Base.{◌≡◌, false, [], ◌∷◌, arith, leb}
use marzbot.Base.Text.{codes}
use marzbot.PanelClient.{Http, HttpRequest, HttpResult, Body, PanelState, request}
use marzbot.PanelClient.Attempts.{
  Within, final, plain_request, request-plain_request, request-Within,
}

-- Every request times out.
abbrev lost : Http
lost = record {
  request = λ sent q. HttpResult.timeout;
  has_cookies = λ sent. false;
  raises = λ n. leb 400 n;
  int_str = λ n. n ∷ [];
  detail = λ r. [];
}

-- The panel answers every request with an empty body.
abbrev answering : Http
answering = record lost {
  request = λ sent q. HttpResult.received (record { status_code = 200; body = Body.empty });
}

abbrev fresh : PanelState
fresh = record { authenticated = false; sent = [] }

abbrev list : HttpRequest
list = record { path = codes "panel/api/inbounds/list"; is_form = false }

request-plain_request_example : request answering list fresh ≡ plain_request answering list fresh
request-plain_request_example = request-plain_request answering (λ n h. ground arith) list fresh

request-Within_example : Within 1 9 fresh (final (request lost list fresh))
request-Within_example = request-Within lost (λ n h. ground arith) list fresh
