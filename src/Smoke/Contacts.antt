-- ===== src/Smoke/Contacts.antt =====
-- internal/smoke: the composition of the egress rules, the proxy and the verdict.
use mcp_library.Common.{
  ◌≡◌, refl, sym, subst, ◌∙◌, true, List, [], ◌∷◌, Option, some, All, All-map, Any,
}
use mcp_library.Common.Result.{ok}
use mcp_library.Common.Text.{Text}
use mcp_library.Proxy.{Attempt, new_proxy}
use mcp_library.Proxy.Serving.{Request, serve_all, World as Network}
use mcp_library.Proxy.Guard.{Paired, NamesPort, admitted, serve_all-IsGuarded}
use mcp_library.Proxy.Admission.{Admits}
use mcp_library.Smoke.Declared.{Declares, NamesHost, declared_entries}
use mcp_library.Smoke.Egress.{egress_hosts}
use mcp_library.Smoke.Probe.{Codec}
use mcp_library.Smoke.Run.{Input, PackageInfo, World, Outcome, run}
use mcp_library.Smoke.Verdict.{run-Deployed}

admitted-All : (as' : List Attempt) → All (λ a. a.allowed ≡ true) as' → admitted as' ≡ as'
admitted-All [] h = refl
admitted-All (a ∷ as') h = rw (h.0, admitted-All as' h.1) refl

module _ {A : Type 0} (P Q : A → Type 0) where
  All-both : (xs : List A) → All P xs → All (λ x. P x → Q x) xs → All Q xs
  All-both [] p q = tt
  All-both (x ∷ xs) p q = (q.0 p.0, All-both xs p.1 q.1)

some-injective : {A : Type 0} (a b : A) → ◌≡◌ {A = Option A} (some a) (some b) → a ≡ b
some-injective a b h = cc h

-- Where a run returns a passed report, the proxy log it read is that of a proxy that had the run's
-- allow-list and served some requests, all of which write the port out where their scheme is https,
-- and every egress rule of the package names a non-empty host with neither a colon nor a bracket
-- and no port or one up to 65535: the contacts that the proxy made and the attempts of the report
-- pair one for one and in order, each contact going to the host and port of its attempt, and every
-- attempt is declared by some egress rule of the package.
pub passed_contacts :
    (codec : Codec) (decode_attempt : Text → Option Attempt) (input : Input) (w : World)
    (out : Outcome) (p : PackageInfo) (requests : List (Network × Request))
    → run codec decode_attempt input w ≡ ok out
    → out.result.passed ≡ true
    → out.result.egress ≡ (serve_all (new_proxy out.allow) requests).log
    → All (λ x. NamesPort x.1) requests
    → w.unpacked ≡ some p
    → All NamesHost p.egress
    → Paired (serve_all (new_proxy out.allow) requests).contacts out.result.egress
      × All (λ a. Any (Declares a.host a.port) p.egress) out.result.egress
passed_contacts codec decode_attempt input w out p requests ran passed logged named opened hosts =
    let deployed = run-Deployed codec decode_attempt input w out ran passed in
    let guarded = serve_all-IsGuarded out.allow requests named in
    let traffic = serve_all (new_proxy out.allow) requests in
    let only = deployed.only_allowed in
    let same = some-injective deployed.package_info p (sym deployed.unpacked ∙ opened) in
    let declared =
      subst
        (λ q.
          (values : List (Text × Text)) × (egress_hosts q.params q.egress ≡ ok (out.allow, values)))
        same deployed.declared in
    (
      subst (λ l. Paired traffic.contacts l) (admitted-All out.result.egress only)
          (subst (λ l. Paired traffic.contacts (admitted l)) (sym logged) guarded.0),
      All-both (λ a. a.allowed ≡ true) (λ a. Any (Declares a.host a.port) p.egress)
          out.result.egress only
          (All-map
            (λ a honest allowed.
              (declared_entries p.params p.egress (out.allow, declared.0) a.host a.port declared.1
                  hosts).0
                (honest allowed))
            out.result.egress
            (subst (λ l. All (λ a. a.allowed ≡ true → Any (Admits a.host a.port) out.allow) l)
              (sym logged) guarded.1)),
    )
