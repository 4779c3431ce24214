-- ===== src/Smoke/Tests.antt =====
-- A package that passes its smoke run, and the theorems at it.
use mcp_library.Common.{
  ℕ, ◌+◌, ◌≤◌, ◌≡◌, refl, ◌↔◌, true, false, List, [], ◌∷◌, ◌++◌, Option, some, none, All, Any,
  length, arith, if◌then◌else◌,
}
use mcp_library.Common.Int.{ℤ, pos}
use mcp_library.Common.Result.{ok, err}
use mcp_library.Common.Text.{Text, codes, text_eq, mem, to_lower}
use mcp_library.Proxy.{Attempt, new_proxy, is_allowed}
use mcp_library.Proxy.Serving.{Request, serve_all, World as Network}
use mcp_library.Proxy.Guard.{Paired}
use mcp_library.Proxy.Tests.{network, connect}
use mcp_library.Smoke.Contacts.{passed_contacts}
use mcp_library.Smoke.Declared.{Declares, NamesHost, declared_egress}
use mcp_library.Smoke.Egress.{EgressRule, egress_hosts, cidr_rule, unknown_param}
use mcp_library.Smoke.Ending.{Events, settled, stopped, content, shutdown}
use mcp_library.Smoke.Listing.{answer, failed, Session, Tool, Page, max_pages, list_tools, killed}
use mcp_library.Smoke.Pages.{Pages, list_tools_iff, list_tools_bounds}
use mcp_library.Smoke.Probe.{Codec, Entry, object, initialize_call}
use mcp_library.Smoke.Run.{Input, PackageInfo, World, Outcome, run}

runs : Unit {0}
unfolding mem to_lower run serve_all new_proxy is_allowed text_eq egress_hosts shutdown
runs = tt

abbrev tool : Text → Tool
tool name = record { name = name; description = []; input_schema = codes "{}" }

abbrev first_page : Page
first_page = record { tools = tool (codes "write") ∷ []; next_cursor = codes "2" }

abbrev second_page : Page
second_page = record { tools = tool (codes "read") ∷ []; next_cursor = [] }

abbrev names : List Entry → Text
names [] = []
names (e ∷ es) = e.name ++ (codes ";" ++ names es)

abbrev codec : Codec
codec = record {
  init = λ raw.
      some (record { protocol = codes "2025-06-18"; resources = []; prompts = codes "null" });
  page = λ raw. some (if text_eq raw (codes "first") then first_page else second_page);
  schema = λ raw. some (object (some (codes "object")));
  compiles = λ raw. true;
  generic = λ raw. some raw;
  entries = λ es. some (names es);
}

abbrev session : Session
session [] = failed true false
session (call ∷ calls) = answer (if text_eq call.cursor [] then codes "first" else codes "second")

abbrev rule : Text → ℤ → EgressRule
rule host port = record { host = host; cidr = []; port = port }

abbrev server : PackageInfo
server = record {
  name = codes "files";
  transport = codes "stdio";
  endpoint = [];
  params =
      record {
        name = codes "url";
        env = codes "URL";
        secret = false;
        required = true;
        kind = codes "string";
        default_value = [];
        enum = [];
      }
      ∷ [];
  egress = rule (codes "example.com") (pos 443) ∷ rule (codes "${url.host}") (pos 0) ∷ [];
}

abbrev attempt : Attempt
attempt = record { host = codes "example.com"; port = pos 443; allowed = true }

abbrev decode_attempt : Text → Option Attempt
decode_attempt line = some attempt

abbrev events : Events
events = record {
  watch = settled;
  early_exit = none;
  eof_exit = some (pos 0);
  stop = stopped;
  term_exit = none;
}

abbrev input : Input
input = record { name = codes "files"; mode = []; write_snapshot = false }

abbrev world : World
world = record {
  unpacked = some server;
  stack_up = true;
  starts = true;
  socket = codes "/tmp/s/mcp.sock";
  socket_opens = true;
  session = session;
  notifies = true;
  events = events;
  proxy_log = content (codes "{}");
  committed = content (codes "read;write;");
  writable = true;
}

abbrev out : Outcome
out = record {
  result = record {
    passed = true;
    failures = [];
    protocol = codes "2025-06-18";
    tool_count = 2;
    full = true;
    egress = attempt ∷ [];
  };
  allow = codes "example.com:443" ∷ codes "url.smoke.invalid" ∷ [];
  written = none;
}

ran : run codec decode_attempt input world ≡ ok out
unfolding runs
ran = refl

abbrev requests : List (Network × Request)
requests = (network, connect (codes "example.com:443")) ∷ []

hosts_named : All NamesHost server.egress
unfolding runs
hosts_named = (
  ((λ h. cc h), (refl, refl), 443, refl, omega arith),
  (((λ h. cc h), (refl, refl), 0, refl, omega arith), tt),
)

passed_contacts_example :
    Paired (serve_all (new_proxy out.allow) requests).contacts out.result.egress
    × All (λ a. Any (Declares a.host a.port) server.egress) out.result.egress
unfolding runs
passed_contacts_example =
    passed_contacts codec decode_attempt input world out server requests ran refl refl (refl, tt)
      refl hosts_named

abbrev values : List (Text × Text)
values = (codes "url", codes "https://url.smoke.invalid") ∷ []

declared : egress_hosts server.params server.egress ≡ ok (out.allow, values)
unfolding runs
declared = refl

declared_egress_example :
    (is_allowed (new_proxy out.allow) (codes "URL.smoke.invalid") (pos 80) ≡ true)
    ↔ Any (Declares (codes "URL.smoke.invalid") (pos 80)) server.egress
declared_egress_example =
    declared_egress server.params server.egress (out.allow, values) declared hosts_named
      (codes "URL.smoke.invalid") (pos 80)

test_cidr :
    egress_hosts [] (record { host = []; cidr = codes "10.0.0.0/8"; port = pos 0 } ∷ [])
    ≡ err (cidr_rule (codes "10.0.0.0/8"))
unfolding runs
test_cidr = refl

test_unknown_param :
    egress_hosts [] (rule (codes "${url.host}") (pos 0) ∷ []) ≡ err (unknown_param (codes "url"))
unfolding runs
test_unknown_param = refl

test_killed : shutdown false (record events { term_exit = some (pos 137) }) ≡ killed ∷ []
unfolding runs
test_killed = refl

list_tools_iff_example :
    ((list_tools session codec.page (initialize_call ∷ [])).tools
      ≡ some (tool (codes "write") ∷ tool (codes "read") ∷ []))
    ↔ ((k : ℕ) × (k ≤ max_pages)
        × Pages session codec.page k
            (initialize_call ∷ [])
            []
            (tool (codes "write") ∷ tool (codes "read") ∷ []))
list_tools_iff_example =
    list_tools_iff session codec.page (initialize_call ∷ [])
      (tool (codes "write") ∷ tool (codes "read") ∷ [])

-- A package whose cursor never ends.
abbrev endless : Session
endless calls = answer (codes "first")

list_tools_bounds_example : length (list_tools endless codec.page []).calls ≤ 0 + max_pages
list_tools_bounds_example = list_tools_bounds endless codec.page []
