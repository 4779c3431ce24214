-- ===== src/Smoke/Listing.antt =====
-- internal/smoke/smoke.go: failed calls, and the paging through tools/list. A session is a function
-- that answers a call from the calls so far, the newest first; the failures that a function records
-- on the report, in their order, are part of what it returns. JSON decoding is a parameter.
use mcp_library.Common.{
  ℕ, zero, suc, Bool, true, false, List, [], ◌∷◌, ◌++◌, Option, none, some, if◌then◌else◌,
}
use mcp_library.Common.Int.{ℤ}
use mcp_library.Common.Text.{Text, codes, text_eq}

pub record Call : Type 0 where
  pub method : Text
  pub cursor : Text

-- An answer, or an error: whether it says that the session closed, and whether the call's time was
-- over.
pub data Reply : Type 0 where
  answer : Text → Reply
  failed : (closed : Bool) → (expired : Bool) → Reply

abbrev pub Session : Type 0
Session = List Call → Reply

pub data Failure : Type 0 where
  closed_session no_answer call_error : Text → Failure
  no_socket bad_endpoint bad_initialize not_notified : Failure
  unsupported_protocol : Text → Failure
  bad_page too_many_pages no_tools : Failure
  bad_schema : Text → Failure
  no_snapshot : Failure
  exited_early exited_on_eof exited_on_term : ℤ → Failure
  not_reaped not_stopped killed still_running : Failure
  denied_egress : Text → ℤ → Failure
  snapshot_missing snapshot_unreadable snapshot_drift snapshot_unwritten : Failure

pub record Failed : Type 0 where
  pub failures : List Failure
  pub closed : Bool

unfoldable pub call_failed : Text → Bool → Bool → Failed
call_failed method closed expired =
    if closed
    then record { failures = closed_session method ∷ []; closed = true }
    else if expired
    then record { failures = no_answer method ∷ []; closed = false }
    else record { failures = call_error method ∷ []; closed = false }

pub record Tool : Type 0 where
  pub name : Text
  pub description : Text
  pub input_schema : Text

pub record Page : Type 0 where
  pub tools : List Tool
  pub next_cursor : Text

abbrev pub max_pages : ℕ
max_pages = 100

-- `tools` is `none` where the listing did not complete.
pub record Listed : Type 0 where
  pub tools : Option (List Tool)
  pub closed : Bool
  pub failures : List Failure
  pub calls : List Call

abbrev pub list_call : Text → Call
list_call cursor = record { method = codes "tools/list"; cursor = cursor }

abbrev pub stopped : List Call → Bool → Failure → Listed
stopped calls closed f = record { tools = none; closed = closed; failures = f ∷ []; calls = calls }

abbrev after_failure : List Call → Failed → Listed
after_failure calls f = record {
  tools = none;
  closed = f.closed;
  failures = f.failures;
  calls = calls;
}

abbrev pub finished : List Call → List Tool → Listed
finished calls tools = record { tools = some tools; closed = false; failures = []; calls = calls }

abbrev pub after_page : List Call → Option Page → (Page → Listed) → Listed
after_page calls none rest = stopped calls false bad_page
after_page calls (some page) rest = rest page

module _ (session : Session) (decode_page : Text → Option Page) where
  abbrev pub after_reply : List Call → Reply → (Page → Listed) → Listed
  after_reply calls (failed closed expired) rest =
      after_failure calls (call_failed (codes "tools/list") closed expired)
  after_reply calls (answer raw) rest = after_page calls (decode_page raw) rest

  -- The first pages may be this many.
  unfoldable pub list_pages : ℕ → Text → List Tool → List Call → Listed
  unfolding call_failed
  list_pages zero cursor tools calls = stopped calls false too_many_pages
  list_pages (suc n) cursor tools calls =
      after_reply (list_call cursor ∷ calls) (session (list_call cursor ∷ calls)) (λ page.
        elim (text_eq page.next_cursor []) [
          | true ↦ finished (list_call cursor ∷ calls) (tools ++ page.tools)
          | false ↦ list_pages n page.next_cursor (tools ++ page.tools) (list_call cursor ∷ calls)
        ])

  unfoldable pub list_tools : List Call → Listed
  unfolding list_pages
  list_tools calls = list_pages max_pages [] [] calls
