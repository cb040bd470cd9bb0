-- ===== src/Contracts/Events/Lawful.antt =====
-- What the events of src/shelfwise_contracts/__init__.py keep, in terms of their fields.
use shelfwise.Prelude.{
  String, ◌≡◌, ◌≢◌, refl, true, false, ◌&&◌, not, some, text_key, ==_iff, arith, subst, ◌∙◌,
}
use shelfwise.Prelude.Text.{truthy, strip, lower}
use shelfwise.Prelude.Results.{ok, raise_if, bind-ok}
use shelfwise.Runtime.Provenance.{DataDomain, operational_twin, value, normalize_domain}
use shelfwise.Contracts.Json.{
  Json, null, boolean, number, text, array, object, Members, get, json_truthy,
}
use shelfwise.Contracts.Events.{
  domain_of, domain_named, same_domain, payload_domain_fits, is_synthetic,
}
use shelfwise.Contracts.Events.Construction.{Clock, Event, parse_wire}
use shelfwise.Contracts.Events.RoundTrip.{parse_wire-IsEvent}

named_value : (s : String) (d : DataDomain) → domain_named s ≡ ok d → s ≡ value d
named_value s d h = ground (
  arith,
  h,
  ==_iff s "operational_twin",
  ==_iff s "world_simulation",
  ==_iff s "training_fixture",
  ==_iff s "twin_scenario",
)

domain_of-text :
    (s : String) (default d : DataDomain)
    → truthy s ≡ true
    → domain_of (text s) default ≡ ok d
    → lower (strip s) ≡ value d
unfolding domain_of normalize_domain
domain_of-text s default d t h =
    let (c, (normal, named)) = bind-ok (normalize_domain (some s) default) domain_named d h in
    let same : lower (strip s) ≡ c = ground (arith, normal, t) in same ∙ named_value c d named

fits-same :
    (s : String) (domain : DataDomain)
    → truthy s ≡ true
    → payload_domain_fits (some (text s)) domain ≡ ok tt
    → lower (strip s) ≡ value domain
fits-same s domain t h =
    let (named, (named_ok, rest)) =
      bind-ok (domain_of (text s) domain) (λ n. raise_if (not (same_domain n domain))) tt h in
    let alike : value named ≡ value domain =
      ground (arith, rest, ==_iff (value named) (value domain)) in
    domain_of-text s domain named t named_ok ∙ alike

-- Only a text names a data domain.
fits-text :
    (j : Json) (domain : DataDomain)
    → payload_domain_fits (some j) domain ≡ ok tt
    → json_truthy j ≡ true
    → (s : String) × (j ≡ text s)
unfolding domain_of
fits-text (text s) domain h t = (s, refl)
fits-text null domain h t = absurd (ground (arith, t))
fits-text (boolean b) domain h t = absurd (ground (arith, h, t))
fits-text (number z) domain h t = absurd (ground (arith, h, t))
fits-text (array js) domain h t = absurd (ground (arith, h, t))
fits-text (object ms) domain h t = absurd (ground (arith, h, t))

unmarked :
    (ms : Members)
    → is_synthetic ms ≡ false
    → (get "synthetic" ms ≢ some (boolean true)) × (get "synthetic_probe" ms ≢ some (boolean true))
unmarked ms h = (λ marked. ground (arith, h, marked), λ marked. ground (arith, h, marked))

module _ {Time : Type 0} (clock : Clock Time) where
  -- What an event is, in terms of its fields: what it has, that its payload names no other data domain
  -- than its own, and that in the operational twin its payload is not marked as synthetic.
  pub record IsLawful (e : Event Time) : Type 0 where
    pub has_id : json_truthy e.id ≡ true
    pub has_actor : json_truthy e.actor ≡ true
    pub has_tenant : json_truthy e.tenant_id ≡ true
    pub correlated : json_truthy e.correlation_id ≡ true
    pub zone : clock.has_zone e.ts ≡ true
    pub one_domain :
        (s : String)
        → get "data_domain" e.payload ≡ some (text s)
        → truthy s ≡ true
        → lower (strip s) ≡ value e.data_domain
    pub named_by_text :
        (j : Json)
        → get "data_domain" e.payload ≡ some j
        → json_truthy j ≡ true
        → (s : String) × (j ≡ text s)
    pub measured :
        e.data_domain ≡ operational_twin
        → (get "synthetic" e.payload ≢ some (boolean true))
          × (get "synthetic_probe" e.payload ≢ some (boolean true))

  -- Every event that `parse_wire` returns has an id, an actor, a tenant and a correlation id that
  -- count as true, and a time with a zone. Where its payload has a data domain that counts as true,
  -- that is a text, and, stripped and in lower case, the value of the event's own domain. In the
  -- operational twin neither `synthetic` nor `synthetic_probe` of its payload is true.
  pub parse_wire-IsLawful : (j : Json) (e : Event Time) → parse_wire clock j ≡ ok e → IsLawful e
  parse_wire-IsLawful j e h =
      let checked = parse_wire-IsEvent clock j e h in
      record {
        has_id = checked.has_id;
        has_actor = checked.has_actor;
        has_tenant = checked.has_tenant;
        correlated = checked.correlated;
        zone = checked.zone;
        one_domain = λ s there t.
            fits-same s e.data_domain t
              (subst (λ o. payload_domain_fits o e.data_domain ≡ ok tt) there checked.fits);
        named_by_text = λ v there.
            fits-text v e.data_domain
              (subst (λ o. payload_domain_fits o e.data_domain ≡ ok tt) there checked.fits);
        measured = λ twin. unmarked e.payload (
            subst (λ d. (same_domain d operational_twin && is_synthetic e.payload) ≡ false) twin
              checked.not_synthetic);
      }
