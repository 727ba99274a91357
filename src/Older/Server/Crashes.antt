-- ===== src/Older/Server/Crashes.antt =====
-- The requests on which the thread of a connection ends the older server.
use simple_server.Prelude.{
  ℕ, ◌≡◌, ◌⊎◌, ◌↔◌, refl, sym, ap, ◌∙◌, false, Option, none, some, [], ◌∷◌, Bytes, arith, inl, inr,
  Bool-cases, Option-cases,
}
use simple_server.Socket.{Received}
use simple_server.Text.Search.{text_eq, text_eq_refl}
use simple_server.Text.Lines.{lines}
use simple_server.Text.StringMap.{Map}
use simple_server.Http.Headers.{behind_first}
use simple_server.Http.Headers.Bare.{HasBareLine, parse_headers-bare, parse_headers_defined}
use simple_server.Http.Request.Lone.{
  HasLone, params_of, parse_url_params-lone, parse_url_params_defined,
}
use simple_server.Http.Response.{StringMap}
use simple_server.Http.Route.{Regex, as_result, invalid_http_uri}
use simple_server.Http.Route.Total.{Defined, some-Defined, WellFormed, query_endpoint-Found}
use simple_server.Http.Server.{from_buffer}
use simple_server.Http.Server.Buffer.{Overfull, from_buffer-Defined, from_buffer-Overfull}
use simple_server.Older.Connections.{Connections, is_websocket_request}
use simple_server.Older.Texts.{
  extract_url, extract_url_with_query_params, parse_headers, parse_url_params,
}
use simple_server.Older.Server.{
  Endpoint, query_endpoint_from_map, response_to, request_of, handle_http, handle_text,
  handle_connection_request,
}
use simple_server.Websocket.Manager.{Sha1}

module _ (regex : Regex) (routes_map : Map Endpoint) where
  -- A header line that ends with its first colon, a parameter without a value, or a request that is
  -- no WebSocket request and for which the chosen endpoint returns a null pointer or throws.
  pub data TextCrashes (text : Bytes) : Type 0 where
    bare_line : HasBareLine (behind_first (lines text)) → TextCrashes text
    lone_param : HasLone (params_of (extract_url_with_query_params text)) → TextCrashes text
    null_response :
        (headers params : StringMap) (name : Bytes) (cb : Endpoint)
        → parse_headers text ≡ some headers
        → parse_url_params (extract_url_with_query_params text) ≡ some params
        → is_websocket_request headers ≡ false
        → query_endpoint_from_map regex (extract_url text) routes_map ≡ some (name, some cb)
        → text_eq name invalid_http_uri ≡ false
        → cb (request_of text headers params) ≡ none
        → TextCrashes text

  pub data Crashes : Received → Type 0 where
    overfull : (bytes : Bytes) → Overfull bytes → Crashes (some bytes)
    crashing_text :
        (b : ℕ) (bytes text : Bytes)
        → from_buffer (b ∷ bytes) ≡ some text
        → TextCrashes text
        → Crashes (some (b ∷ bytes))

module _ (regex : Regex) (sha1 : Sha1) (routes_map : Map Endpoint) (con : ℕ)
    (connections : Connections) (formed : WellFormed regex routes_map) where
  handle_http-Defined :
      (text : Bytes) (headers params : StringMap)
      → parse_headers text ≡ some headers
      → parse_url_params (extract_url_with_query_params text) ≡ some params
      → is_websocket_request headers ≡ false
      → TextCrashes regex routes_map text
        ⊎ Defined (handle_http regex sha1 routes_map con connections text headers params)
  unfolding handle_http response_to
  handle_http-Defined text headers params eh ep plain =
      let (found, e, result) =
        query_endpoint-Found regex (extract_url text) routes_map (formed (extract_url text)) in
      by found e result
    where
      by :
          (found : Bytes × Option Endpoint)
          → query_endpoint_from_map regex (extract_url text) routes_map ≡ some found
          → (found ≡ as_result none)
            ⊎ ((route : Bytes × Endpoint) × (found ≡ as_result (some route)))
          → TextCrashes regex routes_map text
            ⊎ Defined (handle_http regex sha1 routes_map con connections text headers params)
      by found e (inl none_found) =
          inr (rw (e ∙ ap some none_found) (rw (text_eq_refl invalid_http_uri) (some-Defined _)))
      by found e (inr ((name, cb), f)) = elim (Bool-cases (text_eq name invalid_http_uri)) [
        | inl invalid ↦ inr (rw (e ∙ ap some f) (rw invalid (some-Defined _)))
        | inr valid ↦ elim (Option-cases (cb (request_of text headers params))) [
          | inl null ↦
              inl (null_response headers params name cb eh ep plain (e ∙ ap some f) valid null)
          | inr (res, r) ↦ inr (rw (e ∙ ap some f) (rw valid (rw r (some-Defined _))))
        ]
      ]

  handle_text-Defined :
      (text : Bytes)
      → TextCrashes regex routes_map text
        ⊎ Defined (handle_text regex sha1 routes_map con connections text)
  unfolding handle_text
  handle_text-Defined text = elim (parse_headers_defined text) [
    | inl h ↦ inl (bare_line h)
    | inr (headers, e) ↦ elim (parse_url_params_defined (extract_url_with_query_params text)) [
      | inl h ↦ inl (lone_param h)
      | inr (params, f) ↦ elim (Bool-cases (is_websocket_request headers)) [
        | inl socket ↦ inr (rw e (rw f (rw socket (some-Defined _))))
        | inr plain ↦ elim (handle_http-Defined text headers params e f plain) [
          | inl c ↦ inl c
          | inr d ↦ inr (rw e (rw f (rw plain d)))
        ]
      ]
    ]
  ]

  handle_text-TextCrashes :
      (text : Bytes)
      → TextCrashes regex routes_map text
      → handle_text regex sha1 routes_map con connections text ≡ none
  unfolding handle_text handle_http response_to
  handle_text-TextCrashes text (bare_line h) = rw (parse_headers-bare text h) refl
  handle_text-TextCrashes text (lone_param h) = elim (parse_headers_defined text) [
    | inl b ↦ rw (parse_headers-bare text b) refl
    | inr (headers, f) ↦
        rw f (rw (parse_url_params-lone (extract_url_with_query_params text) h) refl)
  ]
  handle_text-TextCrashes text (null_response headers params name cb eh ep plain q valid null) =
      rw eh (rw ep (rw plain (rw q (rw valid (rw null refl)))))

  handle-Defined :
      (received : Received)
      → Crashes regex routes_map received
        ⊎ Defined (handle_connection_request regex sha1 routes_map con connections received)
  unfolding handle_connection_request
  handle-Defined none = inr (some-Defined _)
  handle-Defined (some []) = inr (some-Defined _)
  handle-Defined (some (b ∷ bytes)) = elim (from_buffer-Defined (b ∷ bytes)) [
    | inl full ↦ inl (overfull (b ∷ bytes) full)
    | inr (text, e) ↦ elim (handle_text-Defined text) [
      | inl c ↦ inl (crashing_text b bytes text e c)
      | inr (h, f) ↦ inr (h, rw e f)
    ]
  ]

  handle-Crashes :
      (received : Received)
      → Crashes regex routes_map received
      → handle_connection_request regex sha1 routes_map con connections received ≡ none
  unfolding handle_connection_request
  handle-Crashes received (overfull [] (h, l)) = absurd (omega (arith, l))
  handle-Crashes received (overfull (b ∷ bytes) full) =
      rw (from_buffer-Overfull (b ∷ bytes) full) refl
  handle-Crashes received (crashing_text b bytes text e c) = rw e (handle_text-TextCrashes text c)

  -- If matching a URL with a pattern of a route never throws: the thread of a connection ends
  -- abnormally in the older server exactly for a buffer full of bytes without a zero, and for a text in which a line before the first empty one, behind the first,
  -- has its first colon at its end, or a parameter has fewer than two parts between its equals
  -- signs, or which is no WebSocket request and for which the chosen endpoint returns a null
  -- pointer or throws.
  pub older-request-Crashes :
      (received : Received)
      → (handle_connection_request regex sha1 routes_map con connections received ≡ none)
        ↔ Crashes regex routes_map received
  older-request-Crashes received = (
    λ undefined. elim (handle-Defined received) [
      | inl c ↦ c
      | inr (h, e) ↦ absurd (ground (arith, sym e ∙ undefined))
    ],
    handle-Crashes received,
  )
