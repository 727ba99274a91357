-- ===== src/Http/Server/Crashes.antt =====
-- The requests on which `handle_connection_request` ends abnormally.
use simple_server.Prelude.{
  ℕ, ◌≡◌, ◌⊎◌, ◌↔◌, refl, sym, ap, ◌∙◌, true, false, Option, none, some, [], Bytes, arith, inl, inr,
  Bool-cases, Option-cases,
}
use simple_server.Socket.{Received}
use simple_server.Text.Search.{text_eq, text_eq_refl}
use simple_server.Text.Lines.{lines}
use simple_server.Text.StringMap.{Map}
use simple_server.Text.Words.{is_empty}
use simple_server.Http.Headers.{behind_first, parse_headers}
use simple_server.Http.Headers.Bare.{HasBareLine, parse_headers-bare, parse_headers_defined}
use simple_server.Http.Request.{extract_url, extract_url_with_query_params, parse_url_params}
use simple_server.Http.Request.Lone.{
  HasLone, params_of, parse_url_params-lone, parse_url_params_defined,
}
use simple_server.Http.Response.{StringMap}
use simple_server.Http.Route.{Regex, invalid_http_uri, query_endpoint_from_map}
use simple_server.Http.Route.Total.{
  Defined, some-Defined, WellFormed, IsResult, query_endpoint-Found,
}
use simple_server.Http.Server.Buffer.{Overfull, from_buffer-Defined, from_buffer-Overfull}
use simple_server.Http.Server.{
  received_str, Endpoint, answer, handle_http, handle_parsed, handle_text,
  handle_connection_request, request_of,
}
use simple_server.Websocket.Manager.{
  Sha1, Descriptors, is_upgrade, find_websocket_key, add_new_connection_connection,
}

module _ (regex : Regex) (routes : Map Endpoint) where
  -- A text that is not empty: a header line that ends with its first colon, a parameter without a
  -- value, or a request that makes no WebSocket connection and for which the chosen endpoint throws.
  pub data TextCrashes (text : Bytes) : Type 0 where
    bare_line : HasBareLine (behind_first (lines text)) → TextCrashes text
    lone_param : HasLone (params_of (extract_url_with_query_params text)) → TextCrashes text
    raises :
        (headers params : StringMap) (name : Bytes) (cb : Endpoint)
        → parse_headers text ≡ some headers
        → parse_url_params (extract_url_with_query_params text) ≡ some params
        → (is_upgrade headers ≡ false) ⊎ (is_empty (find_websocket_key headers) ≡ true)
        → query_endpoint_from_map regex (extract_url text) routes ≡ some (name, some cb)
        → text_eq name invalid_http_uri ≡ false
        → cb (request_of text headers params) ≡ none
        → TextCrashes text

  pub data Crashes : Received → Type 0 where
    overfull : (bytes : Bytes) → Overfull bytes → Crashes (some bytes)
    crashing_text :
        (received : Received) (text : Bytes)
        → received_str received ≡ some text
        → is_empty text ≡ false
        → TextCrashes text
        → Crashes received

received_str-Defined :
    (received : Received)
    → ((bytes : Bytes) × (received ≡ some bytes) × Overfull bytes) ⊎ Defined (received_str received)
unfolding received_str
received_str-Defined none = inr ([], refl)
received_str-Defined (some bytes) = elim (from_buffer-Defined bytes) [
  | inl full ↦ inl (bytes, refl, full)
  | inr d ↦ inr d
]

received_str-Overfull : (bytes : Bytes) → Overfull bytes → received_str (some bytes) ≡ none
unfolding received_str
received_str-Overfull bytes full = from_buffer-Overfull bytes full

module _ (regex : Regex) (sha1 : Sha1) (routes : Map Endpoint) (connection : ℕ)
    (descriptors : Descriptors) (formed : WellFormed regex routes) where
  handle_http-Defined :
      (text : Bytes) (headers params : StringMap)
      → parse_headers text ≡ some headers
      → parse_url_params (extract_url_with_query_params text) ≡ some params
      → (is_upgrade headers ≡ false) ⊎ (is_empty (find_websocket_key headers) ≡ true)
      → TextCrashes regex routes text
        ⊎ Defined (handle_http regex sha1 routes connection descriptors text headers params)
  unfolding handle_http answer
  handle_http-Defined text headers params eh ep plain =
      let (found, e, result) =
        query_endpoint-Found regex (extract_url text) routes (formed (extract_url text)) in
      by found e result
    where
      by :
          (found : Bytes × Option Endpoint)
          → query_endpoint_from_map regex (extract_url text) routes ≡ some found
          → IsResult found
          → TextCrashes regex routes text
            ⊎ Defined (handle_http regex sha1 routes connection descriptors text headers params)
      by found e (inl none_found) =
          inr (rw (e ∙ ap some none_found) (rw (text_eq_refl invalid_http_uri) (some-Defined _)))
      by found e (inr ((name, cb), f)) = elim (Bool-cases (text_eq name invalid_http_uri)) [
        | inl invalid ↦ inr (rw (e ∙ ap some f) (rw invalid (some-Defined _)))
        | inr valid ↦ elim (Option-cases (cb (request_of text headers params))) [
          | inl thrown ↦
              inl (raises headers params name cb eh ep plain (e ∙ ap some f) valid thrown)
          | inr (res, r) ↦ inr (rw (e ∙ ap some f) (rw valid (rw r (some-Defined _))))
        ]
      ]

  handle_parsed-Defined :
      (text : Bytes) (headers params : StringMap)
      → parse_headers text ≡ some headers
      → parse_url_params (extract_url_with_query_params text) ≡ some params
      → TextCrashes regex routes text
        ⊎ Defined (handle_parsed regex sha1 routes connection descriptors text headers params)
  unfolding handle_parsed add_new_connection_connection
  handle_parsed-Defined text headers params eh ep = elim (Bool-cases (is_upgrade headers)) [
    | inr plain ↦ rw plain (handle_http-Defined text headers params eh ep (inl plain))
    | inl upgrade ↦ elim (Bool-cases (is_empty (find_websocket_key headers))) [
      | inl keyless ↦
          rw (upgrade, keyless) (handle_http-Defined text headers params eh ep (inr keyless))
      | inr key ↦ inr (rw (upgrade, key) (some-Defined _))
    ]
  ]

  handle_text-Defined :
      (text : Bytes)
      → TextCrashes regex routes text
        ⊎ Defined (handle_text regex sha1 routes connection descriptors text)
  unfolding handle_text
  handle_text-Defined text = elim (parse_headers_defined text) [
    | inl h ↦ inl (bare_line h)
    | inr (headers, e) ↦ elim (parse_url_params_defined (extract_url_with_query_params text)) [
      | inl h ↦ inl (lone_param h)
      | inr (params, f) ↦ rw e (rw f (handle_parsed-Defined text headers params e f))
    ]
  ]

  handle_text-TextCrashes :
      (text : Bytes)
      → TextCrashes regex routes text
      → handle_text regex sha1 routes connection descriptors text ≡ none
  unfolding handle_text handle_parsed handle_http answer add_new_connection_connection
  handle_text-TextCrashes text (bare_line h) = rw (parse_headers-bare text h) refl
  handle_text-TextCrashes text (lone_param h) = elim (parse_headers_defined text) [
    | inl b ↦ rw (parse_headers-bare text b) refl
    | inr (headers, f) ↦
        rw f (rw (parse_url_params-lone (extract_url_with_query_params text) h) refl)
  ]
  handle_text-TextCrashes text (raises headers params name cb eh ep (inl plain) q valid thrown) =
      rw eh (rw ep (rw plain (rw q (rw valid (rw thrown refl)))))
  handle_text-TextCrashes text (raises headers params name cb eh ep (inr keyless) q valid thrown) =
      rw eh (
        rw ep (
          rw keyless (
            rw q (
              rw valid (
                rw thrown (elim (Bool-cases (is_upgrade headers)) [
                  | inl u ↦ rw u refl
                  | inr u ↦ rw u refl
                ]))))))

  handle-Defined :
      (received : Received)
      → Crashes regex routes received
        ⊎ Defined (handle_connection_request regex sha1 routes connection descriptors received)
  unfolding handle_connection_request
  handle-Defined received = elim (received_str-Defined received) [
    | inl (bytes, e, full) ↦ rw e (inl (overfull bytes full))
    | inr (text, e) ↦ elim (Bool-cases (is_empty text)) [
      | inl silent ↦ inr (rw e (rw silent (some-Defined _)))
      | inr filled ↦ elim (handle_text-Defined text) [
        | inl c ↦ inl (crashing_text received text e filled c)
        | inr (h, f) ↦ inr (h, rw e (rw filled f))
      ]
    ]
  ]

  handle-Crashes :
      (received : Received)
      → Crashes regex routes received
      → handle_connection_request regex sha1 routes connection descriptors received ≡ none
  unfolding handle_connection_request
  handle-Crashes received (overfull bytes full) = rw (received_str-Overfull bytes full) refl
  handle-Crashes received (crashing_text r text e filled c) =
      rw e (rw filled (handle_text-TextCrashes text c))

  -- If matching a URL with a pattern of a route never throws: the handler ends abnormally exactly for
  -- a buffer full of bytes without a zero, and for a text that is not empty and in which a line
  -- before the first empty one, behind the first, has its first colon at its end, or a parameter has
  -- fewer than two parts between its equals signs, or which makes no WebSocket connection and for
  -- which the call of the chosen endpoint throws.
  pub handle_connection_request-Crashes :
      (received : Received)
      → (handle_connection_request regex sha1 routes connection descriptors received ≡ none)
        ↔ Crashes regex routes received
  handle_connection_request-Crashes received = (
    λ undefined. elim (handle-Defined received) [
      | inl c ↦ c
      | inr (h, e) ↦ absurd (ground (arith, sym e ∙ undefined))
    ],
    handle-Crashes received,
  )
