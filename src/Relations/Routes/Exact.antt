-- ===== src/Relations/Routes/Exact.antt =====
-- The paths that `paths` in src/shelfwise_decision_science/relations.py returns.
use shelfwise.Prelude.{
  ℕ, suc, ◌+◌, ◌≤◌, String, true, ◌≡◌, ◌↔◌, some, inl, inr, ap, List, [], ◌∷◌, length, text_key,
  ◌==◌, Bool-cases, arith, refl, sym, subst, ◌∙◌, length-append, ==_iff, ==_refl,
}
use shelfwise.Relations.{
  RelationStore, elem, extended, paths, last_of, path_key, IsWalk, IsFresh, IsRoute,
}
use shelfwise.Relations.Routes.{completes, settles, paths-completes, elem-append}
use shelfwise.Relations.Prefixes.{after}
use shelfwise.Relations.Fuel.{paths_terminates}

last_of-extended :
    (d : String) (path : List String) (node : String) → last_of d (extended path node) ≡ node
last_of-extended d [] node = refl
last_of-extended d (x ∷ path) node = last_of-extended x path node

length-extended :
    (path : List String) (node : String) → length (extended path node) ≡ suc (length path)
length-extended path node = omega (arith, length-append path (node ∷ []))

-- Fresh nodes do not end at a node of the path.
fresh_ends :
    (path : List String) (node : String) (nodes : List String) (t : String)
    → elem t path ≡ true
    → IsFresh path (node ∷ nodes)
    → last_of node nodes ≡ t
    → ⊥
fresh_ends path node [] t h f e = ground arith
fresh_ends path node (x ∷ nodes) t h f e =
    fresh_ends (extended path node) x nodes t (ground (arith, elem-append t path (node ∷ []))) f.1 e

module _ (out : RelationStore) (target : String) (max_hops : ℕ) where
  -- What the search asks of the nodes that follow a path.
  record Follows (path : List String) (node : String) (nodes : List String) : Type 0 where
    walks : IsWalk out (last_of "" path) (node ∷ nodes)
    fresh : IsFresh path (node ∷ nodes)
    ends : last_of node nodes ≡ target
    short : length path + length nodes ≤ max_hops

  completes-Follows :
      (nodes path : List String) (node : String)
      → 1 ≤ length path
      → completes out target max_hops path (node ∷ nodes) ≡ true
      → Follows path node nodes
  unfolding completes
  completes-Follows [] path node n h = record {
    walks = (ground (arith, h), tt);
    fresh = (ground (arith, h), tt);
    ends = ground (arith, h, ==_iff node target);
    short = ground (arith, h);
  }
  completes-Follows (x ∷ nodes) path node n h =
      let longer = extended path node in
      let more : completes out target max_hops longer (x ∷ nodes) ≡ true = ground (arith, h) in
      let rest = completes-Follows nodes longer x (omega (arith, length-extended path node)) more in
      record {
        walks = (
          ground (arith, h),
          subst (λ d. IsWalk out d (x ∷ nodes)) (last_of-extended "" path node) rest.walks,
        );
        fresh = (ground (arith, h), rest.fresh);
        ends = rest.ends;
        short = omega (arith, rest.short, length-extended path node);
      }

  Follows-completes :
      (nodes path : List String) (node : String)
      → 1 ≤ length path
      → Follows path node nodes
      → completes out target max_hops path (node ∷ nodes) ≡ true
  unfolding completes
  Follows-completes [] path node n f =
      ground (arith, ==_iff node target, f.ends, f.walks.0, f.fresh.0, f.short)
  Follows-completes (x ∷ nodes) path node n f =
      let longer = extended path node in
      let rest : Follows longer x nodes = record {
        walks =
            subst (λ d. IsWalk out d (x ∷ nodes)) (sym (last_of-extended "" path node)) f.walks.1;
        fresh = f.fresh.1;
        ends = f.ends;
        short = omega (arith, f.short, length-extended path node);
      } in
      let more = Follows-completes nodes longer x (omega (arith, length-extended path node)) rest in
      elim (Bool-cases (node == target)) [
        | inl e ↦ absurd (
            fresh_ends longer x nodes target
              (ground (
                arith,
                elem-append target path (node ∷ []),
                ==_iff node target,
                ==_iff target node,
                e,
              ))
              f.fresh.1 f.ends)
        | inr e ↦ ground (arith, more, f.walks.0, f.fresh.0, f.short)
      ]

module _ (out : RelationStore) (source target : String) (max_hops : ℕ) where
  settles-IsRoute :
      (p : List String)
      → settles out target max_hops (source ∷ []) (after (source ∷ []) p) ≡ true
      → IsRoute out source target max_hops p
  unfolding after completes
  settles-IsRoute [] h = absurd (ground (arith, h))
  settles-IsRoute (first ∷ []) h = absurd (ground (arith, h))
  settles-IsRoute (first ∷ next ∷ nodes) h =
      let (same, more) : (source ≡ first)
          × (completes out target max_hops (source ∷ []) (next ∷ nodes) ≡ true) =
        (ground (arith, h, ==_iff source first), ground (arith, h)) in
      let f = completes-Follows out target max_hops nodes (source ∷ []) next (omega arith) more in
      record {
        next = next;
        nodes = nodes;
        starts = ap (λ z. z ∷ next ∷ nodes) (sym same);
        walks = f.walks;
        simple = (refl, subst (λ z. IsFresh (z ∷ []) (next ∷ nodes)) same f.fresh);
        ends = f.ends;
        short = omega (arith, f.short);
      }

  IsRoute-settles :
      (p : List String)
      → IsRoute out source target max_hops p
      → settles out target max_hops (source ∷ []) (after (source ∷ []) p) ≡ true
  unfolding after
  IsRoute-settles p r =
      let f : Follows out target max_hops (source ∷ []) r.next r.nodes = record {
        walks = r.walks;
        fresh = (subst (IsFresh []) r.starts r.simple).1;
        ends = r.ends;
        short = omega (arith, r.short);
      } in
      rw (r.starts, ==_refl source)
        (Follows-completes out target max_hops r.nodes (source ∷ []) r.next (omega arith) f)

-- `paths` returns a list that has exactly the routes from the source to the target: the paths along
-- relations, in at least one step and at most `max_hops`, that meet no node twice.
pub paths_iff :
    (out : RelationStore) (source target : String) (max_hops : ℕ)
    → (found : List (List String)) × (paths out source target max_hops ≡ some found)
      × ((p : List String) → (elem p found ≡ true) ↔ IsRoute out source target max_hops p)
paths_iff out source target max_hops =
    let (found, e) = paths_terminates out source target max_hops in
    let same = λ (p : List String). paths-completes out source target max_hops found p e in
    (
      found,
      e,
      λ p. (
        λ h. settles-IsRoute out source target max_hops p (sym (same p) ∙ h),
        λ r. same p ∙ IsRoute-settles out source target max_hops p r,
      ),
    )
