-- ===== src/Smoke/Surface.antt =====
-- internal/smoke/smoke.go: what a probe that records no failure saw of the package.
use mcp_library.Common.{
  ℕ, ◌≤◌, ◌≡◌, ◌≢◌, refl, inl, inr, Bool, true, false, not, ◌&&◌, List, [], ◌∷◌, ◌++◌, Option, none,
  some, All, on_if, is_nil, length,
}
use mcp_library.Common.Tests.{Option-cases}
use mcp_library.Common.Text.{Text}
use mcp_library.Smoke.Listing.{
  Call, Reply, answer, failed, Session, Failure, Tool, max_pages, list_tools, no_tools,
  bad_initialize, no_socket, bad_endpoint,
}
use mcp_library.Smoke.Pages.{Pages, list_tools_iff, list_tools-failed, call_failed-ne-nil}
use mcp_library.Smoke.Probe.{
  Codec, Init, Probed, is_supported, initialize_call, check_input_schema, schema_failures, snapshot,
  snapshot_of, after_tools, after_listing, handshake, after_init, after_call, converse, probe,
  dial_socket_at, unless, no_session, ended,
}

pub no_left : (xs ys : List Failure) → xs ++ ys ≡ [] → xs ≡ []
no_left [] ys h = refl
no_left (x ∷ xs) ys h = absurd (cc h)

pub no_right : (xs ys : List Failure) → xs ++ ys ≡ [] → ys ≡ []
no_right [] ys h = h
no_right (x ∷ xs) ys h = absurd (cc h)

pub unless-nil : (b : Bool) (f : Failure) → unless b f ≡ [] → b ≡ true
unless-nil true f h = refl
unless-nil false f h = absurd (cc h)

schema_failures-nil :
    (codec : Codec) (tools : List Tool)
    → schema_failures codec tools ≡ []
    → All (λ t. check_input_schema codec t.input_schema ≡ none) tools
schema_failures-nil codec [] h = tt
schema_failures-nil codec (t ∷ tools) h =
    elim (Option-cases (check_input_schema codec t.input_schema)) [
      | inl fine ↦ (fine, schema_failures-nil codec tools (rw (fine, schema_failures) at h))
      | inr (why, bad) ↦ absurd (cc (rw (bad, schema_failures) at h))
    ]

-- The tools that the package listed, in pages, and the snapshot that was made of them.
pub record Surfaced (codec : Codec) (session : Session) (probed : Probed) : Type 0 where
  pub tools : List Tool
  pub pages : ℕ
  pub few : pages ≤ max_pages
  pub listed : Pages session codec.page pages (initialize_call ∷ []) [] tools
  pub some_tool : tools ≢ []
  pub counted : probed.tool_count ≡ length tools
  pub schemas : All (λ t. check_input_schema codec t.input_schema ≡ none) tools
  pub bytes : Text
  pub rendered : snapshot codec tools ≡ some bytes
  pub kept : probed.snap ≡ some bytes

-- A probe that records no failure saw a supported version, and in full mode the tools.
abbrev pub Clean : Codec → Session → Bool → Probed → Type 0
Clean codec session full probed =
    probed.failures ≡ []
    → (is_supported probed.protocol ≡ true) × (full ≡ true → Surfaced codec session probed)

module _ (codec : Codec) (session : Session) where
  taken-snapshot :
      (b : Bool) (tools : List Tool)
      → b ≡ true
      → (snapshot_of codec session b tools).0 ≡ []
      → (bytes : Text) × (snapshot codec tools ≡ some bytes)
        × ((snapshot_of codec session b tools).1 ≡ some bytes)
  taken-snapshot false tools t h = absurd (cc t)
  taken-snapshot true tools t h = elim (Option-cases (snapshot codec tools)) [
    | inl lost ↦ absurd (cc (rw (lost, snapshot_of) at h))
    | inr (bytes, made) ↦ (bytes, made, rw (made, snapshot_of) refl)
  ]

  after_tools-Clean :
      (init : Init) (notifies : Bool) (calls : List Call) (tools : List Tool)
      → (list_tools session codec.page (initialize_call ∷ [])).tools ≡ some tools
      → (more : List Failure)
      → Clean codec session true (
          after_tools codec session init
            (handshake codec session true notifies init ++ more)
            calls
            tools)
  after_tools-Clean init notifies calls tools listed more h =
      let before = handshake codec session true notifies init in
      let bad = schema_failures codec tools in
      let taken = snapshot_of codec session (is_nil bad && not (is_nil tools)) tools in
      let shaken = no_left before more (no_left (before ++ more) _ h) in
      let rest = no_right (before ++ more) _ h in
      let filled = unless-nil (not (is_nil tools)) no_tools (no_left _ _ rest) in
      let rest1 = no_right (unless (not (is_nil tools)) no_tools) _ rest in
      let no_bad = no_left bad _ rest1 in
      let rest2 = no_right bad _ rest1 in
      let (bytes, made, kept) =
        taken-snapshot (is_nil bad && not (is_nil tools)) tools (rw (no_bad, filled) refl)
          (no_left taken.0 _ rest2) in
      let (pages, few, all) =
        (list_tools_iff session codec.page (initialize_call ∷ []) tools).0 listed in
      (
        unless-nil (is_supported init.protocol) _ (no_left _ _ shaken),
        λ full. record {
          tools = tools;
          pages = pages;
          few = few;
          listed = all;
          some_tool = λ e. cc (rw e at filled);
          counted = refl;
          schemas = schema_failures-nil codec tools no_bad;
          bytes = bytes;
          rendered = made;
          kept = kept;
        },
      )

  after_listing-Clean :
      (init : Init) (notifies : Bool) (calls : List Call) (tools : Option (List Tool))
      → (list_tools session codec.page (initialize_call ∷ [])).tools ≡ tools
      → (closed : Bool) (failures : List Failure) → (tools ≡ none → failures ≢ [])
      → Clean codec session true (
          after_listing codec session init
            (handshake codec session true notifies init)
            calls
            tools
            closed
            failures)
  after_listing-Clean init notifies calls none listed closed failures stops =
      λ h. absurd (stops refl (no_right (handshake codec session true notifies init) failures h))
  after_listing-Clean init notifies calls (some tools) listed closed failures stops =
      after_tools-Clean init notifies calls tools listed failures

  -- A listing that does not complete has recorded why.
  list_tools-stops :
      (calls : List Call)
      → (list_tools session codec.page calls).tools ≡ none
      → (list_tools session codec.page calls).failures ≢ []
  list_tools-stops calls = list_tools-failed session codec.page calls

  after_call-Clean :
      (full notifies : Bool) (reply : Reply)
      → Clean codec session full (after_call codec session full notifies reply)
  after_call-Clean full notifies (failed closed expired) =
      λ h. absurd (call_failed-ne-nil _ closed expired h)
  after_call-Clean full notifies (answer raw) = by_init (codec.init raw)
    where
      by_full :
          (init : Init) (full : Bool)
          → Clean codec session full (after_init codec session full notifies init)
      by_full init true =
          let listed = list_tools session codec.page (initialize_call ∷ []) in
          after_listing-Clean init notifies listed.calls listed.tools refl listed.closed
            listed.failures (list_tools-stops (initialize_call ∷ []))
      by_full init false =
          λ h. (unless-nil (is_supported init.protocol) _ (no_left _ _ h), λ f. absurd (cc f))

      by_init :
          (init : Option Init)
          → Clean codec session full (elim init [
            | none ↦ ended (bad_initialize ∷ []) [] 0 false none
            | some i ↦ after_init codec session full notifies i
          ])
      by_init none = λ h. absurd (cc h)
      by_init (some init) = by_full init full

  no_session-Clean : (full : Bool) (f : Failure) → Clean codec session full (no_session f)
  no_session-Clean full f h = absurd (cc h)

  pub probe-Clean :
      (full notifies over_http socket_opens : Bool) (path endpoint : Text)
      → Clean codec session full
          (probe codec session full notifies over_http socket_opens path endpoint)
  unfolding probe
  probe-Clean full notifies over_http socket_opens path endpoint =
      on_if (Clean codec session full) over_http
        (λ http.
          on_if (Clean codec session full) socket_opens
            (λ opens. by_url (dial_socket_at path endpoint))
            (λ shut. no_session-Clean full no_socket))
        (λ stdio. after_call-Clean full notifies (session (initialize_call ∷ [])))
    where
      by_url :
          (url : Option Text)
          → Clean codec session full (elim url [
            | none ↦ no_session bad_endpoint
            | some u ↦ converse codec session full notifies
          ])
      by_url none = no_session-Clean full bad_endpoint
      by_url (some u) = after_call-Clean full notifies (session (initialize_call ∷ []))
