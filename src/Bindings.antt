-- ===== src/Bindings.antt =====
-- src/bindings.rs: what a binding call of the guest is answered with. The types of the openworkers_core crate
-- are written with the constructors that the source names; its handlers, serde_json and base64 are parameters.
pub mod Collect
mod Tests
use openworkers_runtime_nova.Prelude.{
  ℕ, Bool, Option, none, some, List, [], ◌∷◌, ◌++◌, map, Result, ok, err, Text, bytes, text_eq,
  if◌then◌else◌,
}
use openworkers_runtime_nova.Future.{
  Future, Task, ready, later, await, or_fail, ◌>>=◌, map_err, lift,
}

abbrev pub Headers : Type 0
Headers = List (Text × Text)

-- A channel of chunks: each comes after a while, and it closes, or stays silent for ever.
pub data Stream : Type 0 where
  closes : ℕ → Stream
  silent : Stream
  chunk : ℕ → Result (List ℕ) Text → Stream → Stream

pub data RequestBody : Type 0 where
  none_body : RequestBody
  bytes_body : List ℕ → RequestBody
  stream_body : Stream → RequestBody

pub data ResponseBody : Type 0 where
  none_body : ResponseBody
  bytes_body : List ℕ → ResponseBody
  stream_body : Stream → ResponseBody

pub record HttpRequest (M : Type 0) : Type 0 where
  pub method : M
  pub url : Text
  pub headers : Headers
  pub body : RequestBody

pub record HttpResponse : Type 0 where
  pub status : ℕ
  pub headers : Headers
  pub body : ResponseBody

pub record FetchParams : Type 0 where
  pub url : Text
  pub method : Option Text
  pub headers : Option Headers
  pub body : Option Text
  pub body_base64 : Option Text

pub record QueryParams (P : Type 0) : Type 0 where
  pub sql : Text
  pub params : List P

pub record InvokeParams (V : Type 0) : Type 0 where
  pub command : Text
  pub args : V

pub data DatabaseOp (P : Type 0) : Type 0 where
  query : Text → List P → DatabaseOp P

pub data DatabaseResult (C : Type 0) : Type 0 where
  rows : Text → DatabaseResult C
  table : List Text → List (List C) → DatabaseResult C
  error : Text → DatabaseResult C

pub data InvokeResult (V : Type 0) : Type 0 where
  value : V → InvokeResult V
  error : Text → InvokeResult V

-- The operations handler and the HTTP methods of openworkers_core: `O` is the handle, `M` a method,
-- `P` a parameter of a query, `C` a cell of a table, `V` a JSON value.
pub record Core (O M P C V : Type 0) : Type 0 where
  pub handle_binding_fetch : O → Text → HttpRequest M → Task HttpResponse
  pub handle_fetch : O → HttpRequest M → Task HttpResponse
  pub handle_binding_database : O → Text → DatabaseOp P → Future (DatabaseResult C)
  pub handle_binding_invoke : O → Text → Text → V → Future (InvokeResult V)
  pub parse_method : Text → Option M
  pub default_method : M

-- serde_json and base64.
pub record Serde (P C V : Type 0) : Type 0 where
  pub fetch_params : Text → Result FetchParams Text
  pub query_params : Text → Result (QueryParams P) Text
  pub invoke_params : Text → Result (InvokeParams V) Text
  -- `json!({ "status", "headers", "body" })`, `json!({ "rows" })`, and a `Map` from its entries.
  pub response_value : ℕ → Headers → Text → V
  pub rows_value : List V → V
  pub object : List (Text × V) → V
  pub null_value : V
  pub cell_value : C → Option V
  pub to_string : V → Result Text Text
  pub show_value : V → Text
  pub encode : List ℕ → Text
  pub decode : Text → Result (List ℕ) Text

unfoldable pub collect_stream : Stream → List ℕ → Task (List ℕ)
collect_stream (closes d) out = later d (ready (ok out))
collect_stream silent out = λ now. none
collect_stream (chunk d (ok more) rest) out = later d (collect_stream rest (out ++ more))
collect_stream (chunk d (err e) rest) out = later d (ready (err e))

unfoldable pub collect : ResponseBody → Task (List ℕ)
collect ResponseBody.none_body = ready (ok [])
collect (ResponseBody.bytes_body b) = ready (ok b)
collect (ResponseBody.stream_body s) = collect_stream s []

abbrev pub unwrap_or {ℓ} : {A : Type ℓ} → Option A → A → A
unwrap_or none d = d
unwrap_or (some a) d = a

module _ {O M P C V : Type 0} (core : Core O M P C V) (serde : Serde P C V) where
  unfoldable pub method_of : Option Text → M
  method_of method =
      unwrap_or (core.parse_method (unwrap_or method (bytes "GET"))) core.default_method

  unfoldable pub text_body : Option Text → RequestBody
  text_body (some body) = RequestBody.bytes_body body
  text_body none = RequestBody.none_body

  -- The status, the headers and the body in base64, as JSON text.
  unfoldable pub respond : HttpResponse → Task Text
  respond response = do
    body ← collect response.body
    lift (
        serde.to_string (serde.response_value response.status response.headers (serde.encode body)))

  unfoldable pub binding_fetch : O → Text → Text → Task Text
  unfolding method_of text_body respond
  binding_fetch ops name text = do
    params ← lift (map_err (◌++◌ (bytes "bad fetch parameters: ")) (serde.fetch_params text))
    let request : HttpRequest M = record {
      method = method_of params.method;
      url = params.url;
      headers = unwrap_or params.headers [];
      body = text_body params.body;
    }
    response ← core.handle_binding_fetch ops name request
    respond response

  unfoldable pub base64_body : Option Text → Result RequestBody Text
  base64_body (some body) = elim (serde.decode body) [
    | ok b ↦ ok (RequestBody.bytes_body b)
    | err e ↦ err (bytes "bad request body: " ++ e)
  ]
  base64_body none = ok RequestBody.none_body

  unfoldable pub http_fetch : O → Text → Task Text
  unfolding method_of base64_body respond
  http_fetch ops text = do
    params ← lift (map_err (◌++◌ (bytes "bad fetch parameters: ")) (serde.fetch_params text))
    body ← lift (base64_body params.body_base64)
    let request : HttpRequest M = record {
      method = method_of params.method;
      url = params.url;
      headers = unwrap_or params.headers [];
      body = body;
    }
    response ← core.handle_fetch ops request
    respond response

  unfoldable pub invoke_answer : InvokeResult V → Result Text Text
  invoke_answer (InvokeResult.value v) = ok (serde.show_value v)
  invoke_answer (InvokeResult.error message) = err message

  unfoldable pub binding_invoke : O → Text → Text → Task Text
  unfolding invoke_answer
  binding_invoke ops name text = do
    params ← lift (map_err (◌++◌ (bytes "bad invoke parameters: ")) (serde.invoke_params text))
    await (core.handle_binding_invoke ops name params.command params.args)
        (λ r. ready (invoke_answer r))

  -- `zip`: the shorter of the two ends the row.
  unfoldable pub entries : List Text → List C → List (Text × V)
  entries [] row = []
  entries (column ∷ columns) [] = []
  entries (column ∷ columns) (cell ∷ row) =
      (column, unwrap_or (serde.cell_value cell) serde.null_value) ∷ entries columns row

  unfoldable pub query_answer : DatabaseResult C → Result Text Text
  unfolding entries
  query_answer (DatabaseResult.rows text) = ok (bytes "{\"rows\":" ++ (text ++ bytes "}"))
  query_answer (DatabaseResult.table columns cells) =
      serde.to_string (serde.rows_value (map (λ row. serde.object (entries columns row)) cells))
  query_answer (DatabaseResult.error message) = err message

  unfoldable pub binding_query : O → Text → Text → Task Text
  unfolding query_answer
  binding_query ops name text = do
    params ← lift (map_err (◌++◌ (bytes "bad query parameters: ")) (serde.query_params text))
    await (core.handle_binding_database ops name (query params.sql params.params))
        (λ r. ready (query_answer r))

  -- `answer`, of a build with the `invoke` feature.
  unfoldable pub answer : O → Text → Text → Text → Task Text
  answer ops kind name params =
      if text_eq kind (bytes "fetch")
      then binding_fetch ops name params
      else if text_eq kind (bytes "http")
      then http_fetch ops params
      else if text_eq kind (bytes "query")
      then binding_query ops name params
      else if text_eq kind (bytes "invoke")
      then binding_invoke ops name params
      else ready (err (bytes "'" ++ (kind ++ bytes "' is not a binding call this runtime makes")))
