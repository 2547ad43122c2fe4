-- ===== src/Catalogue/Capabilities/Indexes.antt =====
-- The index of capabilities by endpoint, against the catalogue.
use conformance_suite_v.Base.{
  String, ◌≡◌, refl, ◌∙◌, Bool, true, false, ◌&&◌, ◌||◌, List, [], ◌∷◌, ok, arith, eq_iff, str_eq,
  any,
}
use conformance_suite_v.Base.Dict.{Dict, get, put, has, get-put}
use conformance_suite_v.Catalogue.{EndpointRef}
use conformance_suite_v.Catalogue.Selection.{same_ref}
use conformance_suite_v.Catalogue.Capabilities.{
  EndpointCapability, RefDict, at_ref, add_at_ref, add_at_refs, index_capabilities,
  capability_indexes,
}

-- a capability with this identifier applies to the endpoint
abbrev pub offers : List EndpointCapability → EndpointRef → String → Bool
offers capabilities r i =
    any (λ c. str_eq c.capability_id i && any (same_ref r) c.endpoint_refs) capabilities

same_ref-swap : (q r : EndpointRef) → same_ref q r ≡ same_ref r q
same_ref-swap q r = ground (
  arith,
  eq_iff q.method r.method,
  eq_iff r.method q.method,
  eq_iff q.path r.path,
  eq_iff r.path q.path,
)

same_ref_trans : (q r s : EndpointRef) → same_ref q r ≡ true → same_ref q s ≡ same_ref r s
same_ref_trans q r s h = ground (arith, eq_iff q.method r.method, eq_iff q.path r.path)

has-nil : (i : String) → has {V = EndpointCapability} [] i ≡ false
unfolding get
has-nil i = refl

has-put :
    (d : Dict EndpointCapability) (k i : String) (c : EndpointCapability)
    → has (put d k c) i ≡ (has d i || str_eq k i)
has-put d k i c = ground (arith, get-put d k i c)

has-add_at_ref :
    (c : EndpointCapability) (q r : EndpointRef) (m : RefDict (Dict EndpointCapability))
    (i : String)
    → has (at_ref (add_at_ref c q m) r) i
      ≡ (has (at_ref m r) i || (str_eq c.capability_id i && same_ref r q))
unfolding add_at_ref at_ref
has-add_at_ref c q r [] i =
    ground (arith, same_ref-swap q r, has-nil i, has-put [] c.capability_id i c)
has-add_at_ref c q r ((p, d) ∷ m) i = ground (
  arith,
  same_ref-swap q r,
  same_ref_trans p q r,
  same_ref_trans p r q,
  has-put d c.capability_id i c,
  has-add_at_ref c q r m i,
)

or_swap : (a b c d : Bool) → (a || (b && c) || (b && d)) ≡ (a || (b && (c || d)))
or_swap a b c d = ground arith

has-add_at_refs :
    (c : EndpointCapability) (refs : List EndpointRef) (r : EndpointRef)
    (m : RefDict (Dict EndpointCapability)) (i : String)
    → has (at_ref (add_at_refs c refs m) r) i
      ≡ (has (at_ref m r) i || (str_eq c.capability_id i && any (same_ref r) refs))
unfolding add_at_refs any
has-add_at_refs c [] r m i = ground arith
has-add_at_refs c (q ∷ refs) r m i =
    has-add_at_refs c refs r (add_at_ref c q m) i
    ∙ rw (has-add_at_ref c q r m i) (
        or_swap (has (at_ref m r) i) (str_eq c.capability_id i) (same_ref r q)
          (any (same_ref r) refs))

has-index_capabilities :
    (cs : List EndpointCapability) (d by_id : Dict EndpointCapability)
    (m by_ref : RefDict (Dict EndpointCapability)) (r : EndpointRef) (i : String)
    → index_capabilities cs d m ≡ ok (by_id, by_ref)
    → has (at_ref by_ref r) i ≡ (has (at_ref m r) i || offers cs r i)
unfolding index_capabilities any
has-index_capabilities [] d by_id m by_ref r i h =
    let same : m ≡ by_ref = cc in rw same (ground arith)
has-index_capabilities (c ∷ cs) d by_id m by_ref r i h = ground (
  arith,
  has-index_capabilities cs (put d c.capability_id c) by_id (add_at_refs c c.endpoint_refs m) by_ref
      r i,
  has-add_at_refs c c.endpoint_refs r m i,
)

-- When the catalogue's capabilities are indexed, an endpoint's index has an identifier exactly if a
-- capability of the catalogue with that identifier names the endpoint.
pub capability_indexes-offers :
    (capabilities : List EndpointCapability) (by_id : Dict EndpointCapability)
    (by_ref : RefDict (Dict EndpointCapability)) (r : EndpointRef) (i : String)
    → capability_indexes capabilities ≡ ok (by_id, by_ref)
    → has (at_ref by_ref r) i ≡ offers capabilities r i
unfolding capability_indexes at_ref
capability_indexes-offers capabilities by_id by_ref r i h =
    has-index_capabilities capabilities [] by_id [] by_ref r i h ∙ rw (has-nil i) refl
