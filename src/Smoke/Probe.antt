-- ===== src/Smoke/Probe.antt =====
-- internal/smoke/smoke.go: the MCP conversation, the check of input schemas and the snapshot of the
-- tools; internal/smoke/probe.go: the address of a package's socket. What a JSON library reads and
-- writes, and what the schema compiler accepts, are the fields of a codec.
use mcp_library.Common.{
  ℕ, Bool, true, false, ◌&&◌, ◌||◌, not, List, [], ◌∷◌, ◌++◌, Option, none, some, is_nil, length,
  if◌then◌else◌,
}
use mcp_library.Common.Keyed.{and_then}
use mcp_library.Common.Sort.{sort_by}
use mcp_library.Common.Text.{Text, codes, text_eq, text_lt, has_prefix, mem, trim_space}
use mcp_library.Smoke.Listing.{
  Call, Reply, answer, failed, Session, Failure, no_socket, bad_endpoint, bad_initialize,
  not_notified, unsupported_protocol, no_tools, bad_schema, no_snapshot, Failed, call_failed, Tool,
  Page, list_tools,
}

pub record Init : Type 0 where
  pub protocol : Text
  pub resources : Text
  pub prompts : Text

-- A JSON value: an object with the text of its "type", if that is one.
pub data Json : Type 0 where
  object : Option Text → Json
  other : Json

pub record Entry : Type 0 where
  pub name : Text
  pub description : Text
  pub input_schema : Text

pub record Codec : Type 0 where
  pub init : Text → Option Init
  pub page : Text → Option Page
  pub schema : Text → Option Json
  pub compiles : Text → Bool
  pub generic : Text → Option Text
  pub entries : List Entry → Option Text

pub data SchemaError : Type 0 where
  no_schema not_json not_object wrong_type not_schema : SchemaError

abbrev supported_protocol_versions : List Text
supported_protocol_versions =
    codes "2026-07-28"
    ∷ codes "2025-11-25"
    ∷ codes "2025-06-18"
    ∷ codes "2025-03-26"
    ∷ codes "2024-11-05"
    ∷ []

abbrev pub is_supported : Text → Bool
is_supported version = mem version supported_protocol_versions

abbrev default_endpoint : Text
default_endpoint = codes "/mcp"

abbrev endpoint_or_default : Text → Text
endpoint_or_default endpoint = if text_eq endpoint [] then default_endpoint else endpoint

-- The URL of a session over a socket.
unfoldable pub dial_socket_at : Text → Text → Option Text
unfolding has_prefix
dial_socket_at path endpoint =
    if text_eq path []
    then none
    else if has_prefix (codes "/") (endpoint_or_default endpoint)
    then some (codes "http://mcp-package" ++ endpoint_or_default endpoint)
    else none

abbrev is_absent : Text → Bool
is_absent raw = text_eq raw [] || text_eq raw (codes "null")

abbrev pub initialize_call : Call
initialize_call = record { method = codes "initialize"; cursor = [] }

pub record Probed : Type 0 where
  pub failures : List Failure
  pub protocol : Text
  pub tool_count : ℕ
  pub has_session : Bool
  pub closed : Bool
  pub snap : Option Text

abbrev pub no_session : Failure → Probed
no_session f = record {
  failures = f ∷ [];
  protocol = [];
  tool_count = 0;
  has_session = false;
  closed = false;
  snap = none;
}

abbrev pub ended : List Failure → Text → ℕ → Bool → Option Text → Probed
ended failures protocol count closed snap = record {
  failures = failures;
  protocol = protocol;
  tool_count = count;
  has_session = true;
  closed = closed;
  snap = snap;
}

abbrev pub unless : Bool → Failure → List Failure
unless test f = if test then [] else f ∷ []

module _ (codec : Codec) where
  abbrev pub kind_error : Text → Json → Option SchemaError
  kind_error raw other = some not_object
  kind_error raw (object none) = some wrong_type
  kind_error raw (object (some kind)) =
      if not (text_eq kind (codes "object"))
      then some wrong_type
      else if codec.compiles raw
      then none
      else some not_schema

  unfoldable pub check_input_schema : Text → Option SchemaError
  unfolding trim_space
  check_input_schema raw =
      if is_absent (trim_space raw)
      then some no_schema
      else elim (codec.schema raw) [ none ↦ some not_json | some json ↦ kind_error raw json ]

  abbrev pub schema_failures : List Tool → List Failure
  schema_failures [] = []
  schema_failures (t ∷ tools) = elim (check_input_schema t.input_schema) [
    | none ↦ schema_failures tools
    | some why ↦ bad_schema t.name ∷ schema_failures tools
  ]

  abbrev pub entry_of : Tool → Option Entry
  entry_of t = and_then (codec.generic t.input_schema) (λ schema.
      some (record { name = t.name; description = t.description; input_schema = schema }))

  abbrev pub entries_of : List Tool → Option (List Entry)
  entries_of [] = some []
  entries_of (t ∷ tools) =
      and_then (entry_of t) (λ e. and_then (entries_of tools) (λ es. some (e ∷ es)))

  unfoldable pub snapshot : List Tool → Option Text
  unfolding text_lt
  snapshot tools =
      and_then (entries_of tools) (λ es. codec.entries (sort_by (λ a b. text_lt a.name b.name) es))

  module _ (session : Session) where
    abbrev pub after_other : Reply → (List Failure → Failed) → Text → Failed
    after_other (answer raw) rest method = rest []
    after_other (failed closed expired) rest method =
        let f = call_failed method closed expired in if f.closed then f else rest f.failures

    -- The listings that the package says it serves.
    abbrev pub other_lists : List (Text × Text) → List Call → Failed
    other_lists [] calls = record { failures = []; closed = false }
    other_lists ((method, served) ∷ lists) calls =
        let call : Call = record { method = method; cursor = [] } in
        let skipped = other_lists lists calls in
        let later = other_lists lists (call ∷ calls) in
        let called : Failed =
          after_other (session (call ∷ calls))
            (λ fs. record { failures = fs ++ later.failures; closed = later.closed }) method in
        if is_absent served then skipped else called

    abbrev pub snapshot_of : Bool → List Tool → List Failure × Option Text
    snapshot_of true tools = elim (snapshot tools) [
      | none ↦ (no_snapshot ∷ [], none)
      | some bytes ↦ ([], some bytes)
    ]
    snapshot_of false tools = ([], none)

    abbrev pub lists_of : Init → List (Text × Text)
    lists_of init =
        (codes "resources/list", init.resources) ∷ (codes "prompts/list", init.prompts) ∷ []

    abbrev pub after_tools : Init → List Failure → List Call → List Tool → Probed
    after_tools init before calls tools =
        let bad = schema_failures tools in
        let taken = snapshot_of (is_nil bad && not (is_nil tools)) tools in
        let others = other_lists (lists_of init) calls in
        ended
          (before
            ++ (unless (not (is_nil tools)) no_tools ++ (bad ++ (taken.0 ++ others.failures))))
          init.protocol (length tools) others.closed taken.1

    abbrev pub after_listing :
        Init → List Failure → List Call → Option (List Tool) → Bool → List Failure → Probed
    after_listing init before calls none closed failures =
        ended (before ++ failures) init.protocol 0 closed none
    after_listing init before calls (some tools) closed failures =
        after_tools init (before ++ failures) calls tools

    module _ (full notifies : Bool) where
      abbrev pub handshake : Init → List Failure
      handshake init =
          unless (is_supported init.protocol) (unsupported_protocol init.protocol)
          ++ unless notifies not_notified

      abbrev pub after_init : Init → Probed
      after_init init =
          let listed = list_tools session codec.page (initialize_call ∷ []) in
          if full
          then after_listing init (handshake init) listed.calls listed.tools listed.closed
              listed.failures
          else ended (handshake init) init.protocol 0 false none

      abbrev pub after_call : Reply → Probed
      after_call (failed closed expired) =
          let f = call_failed (codes "initialize") closed expired in
          ended f.failures [] 0 f.closed none
      after_call (answer raw) = elim (codec.init raw) [
        | none ↦ ended (bad_initialize ∷ []) [] 0 false none
        | some init ↦ after_init init
      ]

      abbrev pub converse : Probed
      converse = after_call (session (initialize_call ∷ []))

      unfoldable pub probe : (over_http : Bool) → (socket_opens : Bool) → Text → Text → Probed
      unfolding call_failed list_tools check_input_schema snapshot dial_socket_at
      probe over_http socket_opens path endpoint =
          let dialed : Probed = elim (dial_socket_at path endpoint) [
            | none ↦ no_session bad_endpoint
            | some url ↦ converse
          ] in
          if over_http then (if socket_opens then dialed else no_session no_socket) else converse
