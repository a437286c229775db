-- ===== src/Plugins.antt =====
-- plugins: what the plugins for the message services share. The network behind libcurl and the JSON
-- library are parameters (`Web`); the exceptions are told apart as the plugins do.
use secure_dialogues.Common.{
  ℕ, ◌==◌, Bool, true, false, List, [], ◌∷◌, ◌++◌, Text, codes, if◌then◌else◌,
}
use secure_dialogues.Common.Int.{ℤ}
use secure_dialogues.MessageContainer.{is_empty}
pub mod Messages
pub mod Gmail
pub mod Vk
pub mod Smtp

-- The exceptions of vmime that the SMTP plugin names; `other_vmime_exception` is any other one.
pub data VmimeException : Type 0 where
  connection_error authentication_error connection_greeting_error : VmimeException
  socket_not_connected_exception not_connected other_vmime_exception : VmimeException

-- `std_exception` is any exception but those that the plugins name.
pub data Failure : Type 0 where
  curl_http_send_error std_exception : Failure
  http_error : ℕ → Failure
  auth_fail_exception api_call_error : ℤ → Failure
  vmime : VmimeException → Failure

pub data Attempt (A : Type 0) : Type 0 where
  success : A → Attempt A
  failure : Failure → Attempt A

abbrev pub Call : Type 0 → Type 0 → Type 0
Call S A = S → Attempt A × S

abbrev pub resume_with : {S A B : Type 0} → (A → Call S B) → Attempt A × S → Attempt B × S
resume_with f (success a, s) = f a s
resume_with f (failure e, s) = (failure e, s)

infixl 5 ◌>>=◌ ◌>>◌
abbrev pub ◌>>=◌ : {S A B : Type 0} → Call S A → (A → Call S B) → Call S B
◌>>=◌ m f s = resume_with f (m s)

abbrev pub ◌>>◌ : {S A B : Type 0} → Call S A → Call S B → Call S B
◌>>◌ m k s = resume_with (λ _. k) (m s)

abbrev pub return : {S A : Type 0} → A → Call S A
return a s = (success a, s)

-- An attempt that does not look at the state.
abbrev pub lift : {S A : Type 0} → Attempt A → Call S A
lift r s = (r, s)

abbrev pub chain : {A B : Type 0} → Attempt A → (A → Attempt B) → Attempt B
chain (success a) f = f a
chain (failure e) f = failure e

-- `HttpRequest::get` and `post`, `curl_easy_escape`, and the operations of `nlohmann::json` that the
-- plugins use: `at` throws if there is no such element, and the conversions throw for other kinds. The
-- clock, in milliseconds, is read where the network stands; `getTimeFilter` prints its day,
-- and `getRaindomId` draws a number there.
pub record Web : Type 1 where
  pub Network : Type 0
  pub Json : Type 0
  pub get : Text → List (Text × Text) → Network → Attempt (ℕ × Text) × Network
  pub post : Text → Text → List (Text × Text) → Network → Attempt (ℕ × Text) × Network
  pub escape : Text → Attempt Text
  pub clock : Network → ℤ
  pub get_time_filter : Network → Text
  pub get_random_id : Network → Text
  pub parse : Text → Attempt Json
  pub contains : Text → Json → Bool
  pub at : Text → Json → Attempt Json
  pub at_index : ℕ → Json → Attempt Json
  pub size : Json → ℕ
  pub elements : Json → List Json
  pub to_string : Json → Attempt Text
  pub to_int : Json → Attempt ℤ
  pub equals_text : Json → Text → Bool
  pub equals_int : Json → ℕ → Bool

abbrev pub http_ok : ℕ
http_ok = 200

-- plugins/plugins-libs/curl-wrapper/src/uribuilder.cpp.
pub record UriBuilder : Type 0 where
  pub path : Text
  pub query : Text

abbrev pub make_uri_builder : Text → UriBuilder
make_uri_builder path = record { path = path; query = [] }

abbrev pub get_uri : UriBuilder → Text
get_uri b = if is_empty b.path then b.query else b.path ++ b'?' ∷ b.query

module _ ⦃web : Web⦄ where
  unfoldable pub append_path : Text → UriBuilder → Attempt UriBuilder
  append_path path b =
      chain (web.escape path) (λ escaped. success (record b { path = b.path ++ b'/' ∷ escaped }))

  abbrev pub joined : Text → Text → Text
  joined old more = if is_empty old then more else old ++ b'&' ∷ more

  unfoldable pub append_query : Text → Text → UriBuilder → Attempt UriBuilder
  append_query name value b = chain (web.escape name) (λ n.
      chain (web.escape value) (λ v. success (record b { query = joined b.query (n ++ b'=' ∷ v) })))

  abbrev pub append_paths : List Text → UriBuilder → Attempt UriBuilder
  append_paths [] b = success b
  append_paths (p ∷ ps) b = chain (append_path p b) (append_paths ps)

  abbrev pub append_queries : List (Text × Text) → UriBuilder → Attempt UriBuilder
  append_queries [] b = success b
  append_queries ((n, v) ∷ qs) b = chain (append_query n v b) (append_queries qs)

  -- The uri of a path, with the parts of the path and of the query in their order.
  abbrev pub make_uri : Text → List Text → List (Text × Text) → Attempt UriBuilder
  make_uri base paths queries =
      chain (append_paths paths (make_uri_builder base)) (append_queries queries)

  abbrev pub http_get : Text → List (Text × Text) → Call web.Network (ℕ × Text)
  http_get uri headers n = web.get uri headers n

  abbrev pub http_post : Text → Text → List (Text × Text) → Call web.Network (ℕ × Text)
  http_post uri body headers n = web.post uri body headers n

  -- `json.at(first).at(second)`.
  abbrev pub at_path : List Text → web.Json → Attempt web.Json
  at_path [] j = success j
  at_path (k ∷ ks) j = chain (web.at k j) (at_path ks)

  abbrev pub string_at : Text → web.Json → Attempt Text
  string_at key j = chain (web.at key j) web.to_string
