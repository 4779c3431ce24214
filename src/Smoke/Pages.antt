-- ===== src/Smoke/Pages.antt =====
-- internal/smoke/smoke.go: a listing is the pages that the package answers, in order, of at most a
-- hundred calls.
use mcp_library.Common.{
  ℕ, zero, suc, ◌+◌, ◌≤◌, ◌≡◌, ◌≢◌, refl, sym, ap, subst, ◌∙◌, ◌↔◌, inl, inr, Bool, true, false,
  List, [], ◌∷◌, ◌++◌, Option, none, some, length, arith, append_assoc,
}
use mcp_library.Common.Tests.{Bool-cases, on_elim}
use mcp_library.Common.Text.{Text, text_eq, text_eq→eq, text_eq_iff}
use mcp_library.Smoke.Listing.{
  Call, Reply, answer, failed, Session, Tool, Page, Listed, max_pages, list_call, after_page,
  after_reply, call_failed, finished, list_pages, list_tools,
}

pub call_failed-ne-nil :
    (method : Text) (closed expired : Bool) → (call_failed method closed expired).failures ≢ []
unfolding call_failed
call_failed-ne-nil method true expired h = cc h
call_failed-ne-nil method false true h = cc h
call_failed-ne-nil method false false h = cc h

-- Where no tools are returned, a failure is.
abbrev Explains : Listed → Type 0
Explains l = l.tools ≡ none → l.failures ≢ []

module _ (session : Session) (decode_page : Text → Option Page) where
  -- The package answers a page to the call.
  pub record Answers (calls : List Call) (cursor : Text) (page : Page) : Type 0 where
    pub raw : Text
    pub answered : session (list_call cursor ∷ calls) ≡ answer raw
    pub decoded : decode_page raw ≡ some page

  -- From a cursor on, the package answers so many pages, with these tools, and then no cursor.
  pub data Pages : ℕ → List Call → Text → List Tool → Type 0 where
    last :
        {calls : List Call} {cursor : Text}
        → (page : Page) → Answers calls cursor page
        → page.next_cursor ≡ []
        → Pages 1 calls cursor page.tools
    more :
        {n : ℕ} {calls : List Call} {cursor : Text} {tools : List Tool}
        → (page : Page) → Answers calls cursor page
        → page.next_cursor ≢ []
        → Pages n (list_call cursor ∷ calls) page.next_cursor tools
        → Pages (suc n) calls cursor (page.tools ++ tools)

  abbrev turn : ℕ → Text → List Tool → List Call → Page → Listed
  turn n cursor tools calls page = elim (text_eq page.next_cursor []) [
    | true ↦ finished (list_call cursor ∷ calls) (tools ++ page.tools)
    | false ↦
        list_pages session decode_page n page.next_cursor (tools ++ page.tools)
          (list_call cursor ∷ calls)
  ]

  -- The listing read the tools from so many pages, which fit.
  abbrev ReadFrom : ℕ → List Call → Text → List Tool → List Tool → Type 0
  ReadFrom n calls cursor acc tools =
      (k : ℕ) × (more : List Tool) × (k ≤ n) × Pages k calls cursor more × (tools ≡ acc ++ more)

  turn-ReadFrom :
      (n : ℕ) (calls : List Call) (cursor : Text) (acc tools : List Tool) (page : Page)
      → Answers calls cursor page
      → ((list_pages session decode_page n page.next_cursor
              (acc ++ page.tools)
              (list_call cursor ∷ calls)).tools
            ≡ some tools
          → ReadFrom n (list_call cursor ∷ calls) page.next_cursor (acc ++ page.tools) tools)
      → (turn n cursor acc calls page).tools ≡ some tools
      → ReadFrom (suc n) calls cursor acc tools
  turn-ReadFrom n calls cursor acc tools page answers rest h =
      elim (Bool-cases (text_eq page.next_cursor [])) [
        | inl end ↦ (
          1,
          page.tools,
          omega arith,
          last page answers (text_eq→eq page.next_cursor [] end),
          cc (rw (end, turn) at h),
        )
        | inr next ↦
            let (k, us, fits, pages, e) = rest (rw (next, turn) at h) in
            (
              suc k,
              page.tools ++ us,
              omega (arith, fits),
              more page answers (λ end. cc (next, (text_eq_iff page.next_cursor []).1 end)) pages,
              e ∙ append_assoc acc page.tools us,
            )
      ]

  reply-ReadFrom :
      (n : ℕ) (calls : List Call) (cursor : Text) (acc tools : List Tool) (reply : Reply)
      → session (list_call cursor ∷ calls) ≡ reply
      → ((page : Page)
          → (list_pages session decode_page n page.next_cursor
              (acc ++ page.tools)
              (list_call cursor ∷ calls)).tools
            ≡ some tools
          → ReadFrom n (list_call cursor ∷ calls) page.next_cursor (acc ++ page.tools) tools)
      → (after_reply session decode_page
          (list_call cursor ∷ calls)
          reply
          (turn n cursor acc calls)).tools
        ≡ some tools
      → ReadFrom (suc n) calls cursor acc tools
  reply-ReadFrom n calls cursor acc tools (failed closed expired) e rest h = absurd (cc h)
  reply-ReadFrom n calls cursor acc tools (answer raw) e rest h = by_page (decode_page raw) refl h
    where
      by_page :
          (page : Option Page)
          → decode_page raw ≡ page
          → (after_page (list_call cursor ∷ calls) page (turn n cursor acc calls)).tools
            ≡ some tools
          → ReadFrom (suc n) calls cursor acc tools
      by_page none d h = absurd (cc h)
      by_page (some page) d h =
          turn-ReadFrom n calls cursor acc tools page
            (record { raw = raw; answered = e; decoded = d }) (rest page) h

  list_pages-ReadFrom :
      (n : ℕ) (cursor : Text) (acc : List Tool) (calls : List Call) (tools : List Tool)
      → (list_pages session decode_page n cursor acc calls).tools ≡ some tools
      → ReadFrom n calls cursor acc tools
  unfolding list_pages
  list_pages-ReadFrom zero cursor acc calls tools h = absurd (cc h)
  list_pages-ReadFrom (suc n) cursor acc calls tools h =
      reply-ReadFrom n calls cursor acc tools (session (list_call cursor ∷ calls)) refl
        (λ page.
          list_pages-ReadFrom n page.next_cursor (acc ++ page.tools) (list_call cursor ∷ calls)
            tools)
        h

  list_pages-turn :
      (n : ℕ) (calls : List Call) (cursor : Text) (acc : List Tool) (page : Page)
      → Answers calls cursor page
      → list_pages session decode_page (suc n) cursor acc calls ≡ turn n cursor acc calls page
  unfolding list_pages
  list_pages-turn n calls cursor acc page answers =
      rw (answers.answered, answers.decoded, list_pages) refl

  Pages-list_pages :
      {k : ℕ} {calls : List Call} {cursor : Text} {us : List Tool}
      → Pages k calls cursor us
      → (n : ℕ) (acc : List Tool) → k ≤ n
      → (list_pages session decode_page n cursor acc calls).tools ≡ some (acc ++ us)
  Pages-list_pages (last page answers end) zero acc fits = absurd (omega (arith, fits))
  Pages-list_pages (more page answers next rest) zero acc fits = absurd (omega (arith, fits))
  Pages-list_pages {calls} {cursor} (last page answers end) (suc n) acc fits =
      elim (Bool-cases (text_eq page.next_cursor [])) [
        | inl ended ↦ rw (list_pages-turn n calls cursor acc page answers, ended, turn) refl
        | inr going ↦ absurd (cc (going, (text_eq_iff page.next_cursor []).1 end))
      ]
  Pages-list_pages {calls} {cursor} (more {tools} page answers next rest) (suc n) acc fits =
      elim (Bool-cases (text_eq page.next_cursor [])) [
        | inl end ↦ absurd (next (text_eq→eq page.next_cursor [] end))
        | inr going ↦
            rw (list_pages-turn n calls cursor acc page answers, going, turn)
              (Pages-list_pages rest n (acc ++ page.tools) (omega (arith, fits))
                ∙ ap (λ l. some l) (append_assoc acc page.tools tools))
      ]

  -- For any session and any decoding of pages, listTools returns some tools exactly when the
  -- package answers at most a hundred pages, each to the cursor of the one before, of which only
  -- the last has no cursor, and the tools are those of the pages in order.
  pub list_tools_iff :
      (calls : List Call) (tools : List Tool)
      → ((list_tools session decode_page calls).tools ≡ some tools)
        ↔ ((k : ℕ) × (k ≤ max_pages) × Pages k calls [] tools)
  unfolding list_tools
  list_tools_iff calls tools = (
    λ h.
        let (k, us, fits, pages, e) = list_pages-ReadFrom max_pages [] [] calls tools h in
        (k, fits, subst (λ l. Pages k calls [] l) (sym e) pages),
    λ p. Pages-list_pages p.2 max_pages [] p.1,
  )

  list_pages_bounds :
      (n : ℕ) (cursor : Text) (acc : List Tool) (calls : List Call)
      → length (list_pages session decode_page n cursor acc calls).calls ≤ length calls + n
  unfolding list_pages call_failed
  list_pages_bounds zero cursor acc calls = omega arith
  list_pages_bounds (suc n) cursor acc calls =
      by_reply (session (list_call cursor ∷ calls)) (λ page.
        list_pages_bounds n page.next_cursor (acc ++ page.tools) (list_call cursor ∷ calls))
    where
      by_turn :
          (page : Page)
          → length
              (list_pages session decode_page n page.next_cursor
                (acc ++ page.tools)
                (list_call cursor ∷ calls)).calls
            ≤ length calls + suc n
          → length (turn n cursor acc calls page).calls ≤ length calls + suc n
      by_turn page rest =
          on_elim {A = Listed} (λ l. length l.calls ≤ length calls + suc n)
            (text_eq page.next_cursor []) (λ end. omega arith) (λ going. rest)

      by_page :
          (page : Option Page)
          → ((page : Page)
              → length
                  (list_pages session decode_page n page.next_cursor
                    (acc ++ page.tools)
                    (list_call cursor ∷ calls)).calls
                ≤ length calls + suc n)
          → length (after_page (list_call cursor ∷ calls) page (turn n cursor acc calls)).calls
            ≤ length calls + suc n
      by_page none rest = omega arith
      by_page (some page) rest = by_turn page (rest page)

      by_reply :
          (reply : Reply)
          → ((page : Page)
              → length
                  (list_pages session decode_page n page.next_cursor
                    (acc ++ page.tools)
                    (list_call cursor ∷ calls)).calls
                ≤ suc (length calls) + n)
          → length
              (after_reply session decode_page
                (list_call cursor ∷ calls)
                reply
                (turn n cursor acc calls)).calls
            ≤ length calls + suc n
      by_reply (failed closed expired) rest = omega arith
      by_reply (answer raw) rest = by_page (decode_page raw) (λ page. omega (arith, rest page))

  -- Whatever the package answers, listTools makes at most a hundred calls.
  pub list_tools_bounds :
      (calls : List Call)
      → length (list_tools session decode_page calls).calls ≤ length calls + max_pages
  unfolding list_tools
  list_tools_bounds calls = list_pages_bounds max_pages [] [] calls

  list_pages-failed :
      (n : ℕ) (cursor : Text) (acc : List Tool) (calls : List Call)
      → (list_pages session decode_page n cursor acc calls).tools ≡ none
      → (list_pages session decode_page n cursor acc calls).failures ≢ []
  unfolding list_pages call_failed
  list_pages-failed zero cursor acc calls = λ h. cc
  list_pages-failed (suc n) cursor acc calls =
      by_reply (session (list_call cursor ∷ calls)) (λ page.
        list_pages-failed n page.next_cursor (acc ++ page.tools) (list_call cursor ∷ calls))
    where
      by_page :
          (page : Option Page)
          → ((page : Page)
              → Explains (
                  list_pages session decode_page n page.next_cursor
                    (acc ++ page.tools)
                    (list_call cursor ∷ calls)))
          → Explains (after_page (list_call cursor ∷ calls) page (turn n cursor acc calls))
      by_page none rest = λ h. cc
      by_page (some page) rest =
          on_elim Explains (text_eq page.next_cursor []) (λ end h. absurd (cc h))
            (λ going. rest page)

      by_reply :
          (reply : Reply)
          → ((page : Page)
              → Explains (
                  list_pages session decode_page n page.next_cursor
                    (acc ++ page.tools)
                    (list_call cursor ∷ calls)))
          → Explains (
              after_reply session decode_page
                (list_call cursor ∷ calls)
                reply
                (turn n cursor acc calls))
      by_reply (failed closed expired) rest = λ h. call_failed-ne-nil _ closed expired
      by_reply (answer raw) rest = by_page (decode_page raw) rest

  -- A listing that does not complete has recorded a failure.
  pub list_tools-failed :
      (calls : List Call)
      → (list_tools session decode_page calls).tools ≡ none
      → (list_tools session decode_page calls).failures ≢ []
  unfolding list_tools
  list_tools-failed calls = list_pages-failed max_pages [] [] calls
