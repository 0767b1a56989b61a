-- ===== src/Provenance/ToolOutput/Restrictive.antt =====
-- `derive_tool_output` of provenance.py: trust, classification and labels of its attestation and of
-- the fields, next to those of the report and of the parents.
use sentinelgate.Prelude.{
  cat, ◌≡◌, refl, String, Option, none, some, List, [], ◌∷◌, ◌++◌, map, gather, sorted_set,
  is_empty, eq_nil, All, All-weaken, arith, contains-append, contains-sorted_set, Bool-cases, inl,
  inr,
}
use sentinelgate.Json.{Json}
use sentinelgate.Models.{FieldTaint, VerifiedProvenance}
use sentinelgate.Taint.{classification_rank, trust_rank, highest_classification, least_trusted}
use sentinelgate.Taint.Join.{least_trusted_bounds, highest_classification_bounds}
use sentinelgate.Taint.Within.{
  Restriction, IsSubset, IsWithin, bounded-IsWithin, labels-IsSubset, combination-IsWithin,
}
use sentinelgate.Runtime.{Runtime}
use sentinelgate.Security.{injection_signals}
use sentinelgate.Identity.{ok}
use sentinelgate.Provenance.Signed.{sign-states}
use sentinelgate.FieldTaint.Pointer.{leaf_values}
use sentinelgate.FieldTaint.Combine.{build_uniform_field_taint, uniform_field}
use sentinelgate.Provenance.{ProvenanceService, ProvenanceAttestation, Draws, injection_label}
use sentinelgate.Provenance.ToolOutput.{
  Reported, inherited_fields, effective_trust, effective_classification, effective_labels,
  joined_field, output_fields, output_statement, field_claims, parent_lineage, derive_tool_output,
}

abbrev pub of_source : VerifiedProvenance → Restriction
of_source p = record { trust = p.trust; classification = p.classification; labels = p.labels }

abbrev pub of_field : FieldTaint → Restriction
of_field f = record { trust = f.trust; classification = f.classification; labels = f.labels }

abbrev pub of_report : Reported → Restriction
of_report r = record { trust = r.trust; classification = r.classification; labels = r.labels }

abbrev pub of_attestation : ProvenanceAttestation → Restriction
of_attestation a = record { trust = a.trust; classification = a.classification; labels = a.labels }

-- What the document as a whole is restricted by.
abbrev effective : Reported → List VerifiedProvenance → List String → Restriction
effective reported parents signals = record {
  trust = effective_trust reported.trust parents;
  classification = effective_classification reported.classification parents;
  labels = effective_labels reported.labels parents signals;
}

effective-IsWithin :
    (reported : Reported) (parents : List VerifiedProvenance) (signals : List String)
    → IsWithin (of_report reported) (effective reported parents signals)
      × All (λ p. IsWithin (of_source p) (effective reported parents signals)) parents
unfolding effective_trust effective_classification effective_labels IsSubset IsWithin
effective-IsWithin reported parents signals =
    let s : Restriction = effective reported parents signals in
    let trusts =
      least_trusted_bounds (trust_rank s.trust) (reported.trust ∷ map (λ p. p.trust) parents)
        (omega arith) in
    let classes =
      highest_classification_bounds (classification_rank s.classification)
        (reported.classification ∷ map (λ p. p.classification) parents) (omega arith) in
    let gathered : List String = gather (λ p. p.labels) parents in
    let rest : List String = gathered ++ injection_label signals in
    (
      (
        trusts.0,
        classes.0,
        λ label h. ground (
          arith,
          contains-sorted_set label (reported.labels ++ rest),
          contains-append label reported.labels rest,
        ),
      ),
      bounded-IsWithin of_source s parents trusts.1 classes.1 (
          labels-IsSubset of_source s parents (λ label h. ground (
            arith,
            contains-sorted_set label (reported.labels ++ rest),
            contains-append label reported.labels rest,
            contains-append label gathered (injection_label signals),
          ))),
    )

-- A connector's field joined with the parents' fields.
joined_field-IsWithin :
    (inherited : List FieldTaint) (lineage : List String) (item : FieldTaint)
    → IsWithin (of_field item) (of_field (joined_field inherited lineage item))
      × All (λ f. IsWithin (of_field f) (of_field (joined_field inherited lineage item))) inherited
unfolding joined_field IsWithin IsSubset
joined_field-IsWithin inherited lineage item =
    let s : Restriction = of_field (joined_field inherited lineage item) in
    let trusts =
      least_trusted_bounds (trust_rank s.trust)
        (item.trust ∷ least_trusted (map (λ f. f.trust) inherited) ∷ []) (omega arith) in
    let classes =
      highest_classification_bounds (classification_rank s.classification)
        (item.classification ∷ highest_classification (map (λ f. f.classification) inherited) ∷ [])
        (omega arith) in
    let gathered : List String = gather (λ f. f.labels) inherited in
    (
      (
        trusts.0,
        classes.0,
        λ label h. ground (
          arith,
          contains-sorted_set label (item.labels ++ gathered),
          contains-append label item.labels gathered,
        ),
      ),
      combination-IsWithin of_field s inherited trusts.1.0 classes.1.0 (λ label h. ground (
        arith,
        contains-sorted_set label (item.labels ++ gathered),
        contains-append label item.labels gathered,
      )),
    )

-- Each field stands where the connector put it, is restricted at least as the connector says, and at
-- least as every inherited field.
unfoldable pub Joins :
    List FieldTaint → List (String × FieldTaint) → List (String × FieldTaint) → Type 0
Joins inherited [] out = out ≡ []
Joins inherited (given ∷ fields) [] = ⊥
Joins inherited (given ∷ fields) (entry ∷ out) =
    (entry.0 ≡ given.0)
    × IsWithin (of_field given.1) (of_field entry.1)
    × All (λ f. IsWithin (of_field f) (of_field entry.1)) inherited
    × Joins inherited fields out

-- What bounds the fields of the output: the report and the parents if the connector gives no field
-- metadata, and that metadata and the parents' fields if it gives some.
unfoldable pub BoundsFields :
    Reported
    → Option (List (String × FieldTaint))
    → List VerifiedProvenance
    → List (String × FieldTaint)
    → Type 0
BoundsFields reported none parents out =
    All
      (λ entry.
        IsWithin (of_report reported) (of_field entry.1)
        × All (λ p. IsWithin (of_source p) (of_field entry.1)) parents)
      out
BoundsFields reported (some fields) parents out = Joins (inherited_fields parents) fields out

IsWithin-refl : (r : Restriction) → IsWithin r r
unfolding IsWithin IsSubset
IsWithin-refl r = (omega arith, omega arith, λ label h. h)

kept_fields-Joins : (fields : List (String × FieldTaint)) → Joins [] fields fields
unfolding Joins
kept_fields-Joins [] = refl
kept_fields-Joins (given ∷ fields) =
    (refl, IsWithin-refl (of_field given.1), tt, kept_fields-Joins fields)

joined_fields-Joins :
    (inherited : List FieldTaint) (lineage : List String) (fields : List (String × FieldTaint))
    → Joins inherited fields
        (map (λ entry. (entry.0, joined_field inherited lineage entry.1)) fields)
unfolding Joins
joined_fields-Joins inherited lineage [] = refl
joined_fields-Joins inherited lineage (given ∷ fields) =
    let (own, others) = joined_field-IsWithin inherited lineage given.1 in
    (refl, own, others, joined_fields-Joins inherited lineage fields)

module _ (runtime : Runtime) where
  uniform_fields :
      (P : FieldTaint → Type 0) (f : Json → FieldTaint) (leaves : List (String × Json))
      → ((v : Json) → P (f v))
      → All {A = String × FieldTaint}
          (λ entry. P entry.1)
          (map (λ entry. (entry.0, f entry.1)) leaves)
  uniform_fields P f [] h = tt
  uniform_fields P f (entry ∷ leaves) h = (h entry.1, uniform_fields P f leaves h)

  effective-uniform :
      (reported : Reported) (parents : List VerifiedProvenance) (signals lineage : List String)
      (v : Json)
      → let item =
          uniform_field runtime
            (effective_trust reported.trust parents)
            (effective_classification reported.classification parents)
            (effective_labels reported.labels parents signals)
            lineage
            v in
        IsWithin (of_report reported) (of_field item)
        × All (λ p. IsWithin (of_source p) (of_field item)) parents
  unfolding IsWithin IsSubset uniform_field
  effective-uniform reported parents signals lineage v =
      let labels = effective_labels reported.labels parents signals in
      let ((t, c, l), holds) = effective-IsWithin reported parents signals in
      (
        (t, c, λ label h. ground (arith, contains-sorted_set label labels, l label h)),
        All-weaken parents
            (λ p (t, c, l).
              (t, c, λ label h. ground (arith, contains-sorted_set label labels, l label h)))
            holds,
      )

  given-BoundsFields :
      (reported : Reported) (given : Option (List (String × FieldTaint)))
      (parents : List VerifiedProvenance) (signals lineage : List String)
      → BoundsFields reported given parents (
          output_fields runtime
            (record reported { field_taint = given })
            parents
            (effective_labels reported.labels parents signals)
            lineage)
  unfolding output_fields BoundsFields build_uniform_field_taint
  given-BoundsFields reported none parents signals lineage =
      uniform_fields
        (λ item.
          IsWithin (of_report reported) (of_field item)
          × All (λ p. IsWithin (of_source p) (of_field item)) parents)
        (uniform_field runtime (effective_trust reported.trust parents)
          (effective_classification reported.classification parents)
          (effective_labels reported.labels parents signals) lineage)
        (leaf_values runtime reported.output "")
        (effective-uniform reported parents signals lineage)
  given-BoundsFields reported (some fields) parents signals lineage =
      elim (Bool-cases (is_empty (inherited_fields parents))) [
        | inl e ↦ rw (e, eq_nil (inherited_fields parents) e) (kept_fields-Joins fields)
        | inr e ↦ rw e (joined_fields-Joins (inherited_fields parents) lineage fields)
      ]

  -- What `derive_tool_output` answers is trusted no more and classified no lower than the tool's
  -- report and than every parent, and carries all their labels. If the connector gives no field
  -- metadata, each field of the field taint is bounded in the same way by the report and by every
  -- parent. If it gives some, the fields stand at its pointers, and each is bounded by what the
  -- connector says of it and by every field of the parents; the parents' and the report's values for
  -- the whole do not bound it.
  pub derive_tool_output-IsWithin :
      (service : ProvenanceService) (tenant_id trace_id request_id tool_name : String)
      (reported : Reported) (parents : List VerifiedProvenance) (draws : Draws)
      (a : ProvenanceAttestation)
      → derive_tool_output runtime service tenant_id trace_id request_id tool_name reported parents
          draws
        ≡ ok a
      → IsWithin (of_report reported) (of_attestation a)
        × All (λ p. IsWithin (of_source p) (of_attestation a)) parents
        × BoundsFields reported reported.field_taint parents a.field_taint
  unfolding derive_tool_output output_statement
  derive_tool_output-IsWithin service tenant_id trace_id request_id tool_name reported parents draws
        a h =
      let statement = output_statement runtime trace_id reported parents draws.lineage in
      let (trust, classification, labels, fields) =
        sign-states runtime service (cat "tool:" (cat tool_name (cat ":" request_id))) tenant_id
          statement (sorted_set (parent_lineage parents)) (field_claims runtime statement) draws a
          h in
      let signals = injection_signals runtime (runtime.dumps reported.output) in
      let (reports, holds) = effective-IsWithin reported parents signals in
      rw (trust, classification, labels, fields)
        (
          reports,
          holds,
          given-BoundsFields reported reported.field_taint parents signals
              (draws.lineage ∷ sorted_set (parent_lineage parents)),
        )
