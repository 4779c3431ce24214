-- ===== src/Lib.antt =====
-- Verification of mcp-library: the tool that audits, packs and publishes a signed library of MCP
-- servers.
--
-- The program's parts. A recipe names a server's source and steps; the build stages a tree, which
-- internal/pack writes as a reproducible tar after refusing whatever could leave the package root;
-- internal/audit classifies licences and compares the versions of dependencies with advisories;
-- internal/index folds the built packages into the published index, whose digests are immutable;
-- internal/smoke runs a package in a container that reaches the network through a proxy only, talks
-- to it as an MCP client, and judges the run. The development models the parts that decide
-- something: what is refused, how a licence is classified, which version is newer, what a merge
-- publishes, what a package may contact and when a run passes.
--
-- Which file models what:
-- - Common and its children: Go strings as lists of code points (Text), the package strings,
--   decimal numbers on a 64-bit int (Int, with Atoi and Itoa in Decimal), net's SplitHostPort and
--   JoinHostPort (HostPort), comparisons as preorders (Order), `(value, error)` results (Result),
--   stable sorting (Sort), regular expressions with Go's choice of submatches (Regex, with Times),
--   and lists of records that are looked up by a key and folded into each other (Keyed, with Union,
--   Folds and Keys).
-- - License: internal/audit/license.go. tokenize_spdx is tokenizeSPDX; parse_or, or_loop,
--   parse_and, and_loop and parse_term are the parser's methods, with the tokens left in place of a
--   position; classify_license is ClassifyLicense. Grammar has the syntax trees of the grammar that
--   the source states in a comment.
-- - Version: internal/audit/version.go. compare_version is compareVersion, with none for a false
--   ok.
-- - Paths: Clean, Join, Dir and Base of Go's package path, as far as the packages call them, and an
--   independent reading of a path as a depth below a directory.
-- - Pack: internal/pack/refuse.go and the header that writeEntry of internal/pack/tar.go writes.
-- - Audit: vulnFindings of internal/audit/audit.go and the part of Run behind it; a line of the
--   report is a value with what it is printed from, and the flags of used waivers are a function of
--   the index.
-- - Osv: fixedVersions and rangeFixes of internal/audit/osv.go. osv_compare is the closure cmp,
--   sort_onto the insertion sort with its sorted part last one first, sweep the last loop. Order
--   has the order of the versions of a range, Sorted and Points what the sort does with its points.
-- - Recipe: StepNeedsNetwork, ResolvesAtBuildTime and insidePath of internal/recipe/validate.go.
-- - Validation: Validate of internal/recipe/validate.go as a list of rules in their order, with
--   AllowsRuntime of internal/target/target.go. A date is its number of days.
-- - Target: Parse's checks, Ref and CheckWindow of internal/target/target.go, with the hash of
--   bytes and the decoding of the window file as parameters.
-- - Lock: the readers of internal/audit/lock.go, from decoded entries of an npm lock file in some
--   order of its map, or from the lines of the other two, where a line that is too long for
--   bufio.Scanner ends the reading with an error.
-- - Proxy: internal/smoke/proxy.go. new_proxy makes the map of NewProxy from its entries;
--   is_allowed is isAllowed; in Serving, serve_connect and serve_plain return the attempts they
--   log, the contacts they make and the answer, where a World says what becomes of a dial, a hijack
--   and a round trip. Admission reads the list entry by entry; Guard relates contacts to the log.
-- - Smoke: internal/smoke/smoke.go. Egress has egressHosts and the rules of
--   internal/manifest/runtime.go, Listing listTools, Probe probe with the schemas and the snapshot,
--   Ending shutdown and the proxy's log, Run Run. The report's failures are a list that each step
--   returns a part of, a session is a function from the calls made to the answer of the last, and
--   Events are the outcomes of the waits. Declared, Pages, Surface, Verdict and Contacts have the
--   theorems; Contacts joins the run to the proxy.
-- - Container: internal/smoke/container.go. Container has the specification and the environment of
--   a package, Argv the command lines, Tail tailBuffer, Stack the steps Up, Start and Down over the
--   networks and containers that docker has, where the answer to a command and what it leaves
--   behind are inputs; Tracked and Cleanup say what Down leaves. RunLine reads a command line as
--   docker does, and Confined has what it reads.
-- - Rpc: internal/smoke/probe.go. Rpc has the stdio session's state and its steps, where a call's
--   wait is a step of its own; Channels has the invariant, Answers what follows for a call, Mail
--   what a session holds for its calls, Frames readFrame and readResponse, Socket the session over
--   HTTP with its log of requests, Headers what that log carries.
-- - Index: internal/index/merge.go, and Canonicalise, Retire, Empty and Parse's schema check of
--   internal/index/index.go. Lookup defines the digest that an index publishes, through the first
--   record of every key.
--
-- Numbers, bounds and fuel. An int is ℤ, and what strconv.Atoi cannot hold in 64 bits is refused
-- or, where the source ignores the error, the largest int. Licence expressions are parsed on fuel,
-- three for each token and three more, which is enough on any input. A repetition in a regular
-- expression runs at most once for each character that is left, and its body always takes one. A
-- tool listing is fetched on fuel that is the source's own limit of a hundred pages. Every other
-- loop is a recursion on a list. The number of a call is a natural number that does not wrap.
--
-- Not modelled: error texts, JSON and YAML, files, processes, the docker CLI, hashing and
-- signatures, the clock and the bytes of a tunnel. Decoders of JSON, the print of a share of a CPU
-- and the outcomes of network and docker calls are parameters. A Go string is compared by its code
-- points, which for valid UTF-8 is the order of its bytes; lower-casing and digits are those of
-- ASCII. Slices are values here: that Merge and Canonicalise reorder slices of their arguments in
-- place is left out.
pub mod Audit
pub mod Common
pub mod Container
pub mod Index
pub mod License
pub mod Lock
pub mod Osv
pub mod Pack
pub mod Paths
pub mod Proxy
pub mod Recipe
pub mod Rpc
pub mod Smoke
pub mod Target
pub mod Validation
pub mod Version
