-- ===== src/Provenance/Derivation/Sourced.antt =====
-- `derive_structured` of provenance.py: the fields of a derived value and their sources.
use sentinelgate.Prelude.{
  ◌≡◌, refl, sym, String, Bool, true, false, Option, none, some, List, [], ◌∷◌, map, gather,
  sorted_set, get_key, All, arith, contains-sorted_set, contains-append, ◌==◌, ◌++◌, if◌then◌else◌,
  not,
}
use sentinelgate.Json.{Json, field, object, end}
use sentinelgate.Models.{FieldTaint}
use sentinelgate.Taint.Within.{IsSubset, IsWithin, combination-IsWithin}
use sentinelgate.Runtime.{Runtime}
use sentinelgate.Security.{injection_signals}
use sentinelgate.Identity.{Answer, ok, value_error, or_raise}
use sentinelgate.Identity.Accepted.{bind-ok}
use sentinelgate.FieldTaint.Pointer.{leaf_values}
use sentinelgate.FieldTaint.Combine.{combine_field_taint, value_digest}
use sentinelgate.Provenance.{
  ProvenanceService, ProvenanceAttestation, Draws, injection_label, dump_fields,
}
use sentinelgate.Provenance.Signed.{sign-states}
use sentinelgate.Provenance.ToolOutput.Restrictive.{of_field, of_attestation}
use sentinelgate.Provenance.Derivation.{
  StructuredProvenanceDeriveRequest, with_lineage, verify_inputs, derived_field, derived_fields,
  structured_fields, attest_derived, derive_structured, derived_statement, same_keys,
}
use sentinelgate.Provenance.Derivation.Recipe.{
  DerivationInput, FieldDerivation, sources_of, computed_value,
}

combine_field_taint-IsWithin :
    (runtime : Runtime) (value : Json) (items : List FieldTaint)
    → All (λ s. IsWithin (of_field s) (of_field (combine_field_taint runtime value items))) items
unfolding combine_field_taint IsSubset
combine_field_taint-IsWithin runtime value items =
    combination-IsWithin of_field (of_field (combine_field_taint runtime value items)) items
      (omega arith) (omega arith)
      (λ label h. ground (arith, contains-sorted_set label (gather (λ item. item.labels) items)))

or_raise-ok :
    {A : Type 0} (message : String) (o : Option A) (a : A)
    → or_raise (value_error message) o ≡ ok a
    → o ≡ some a
unfolding or_raise
or_raise-ok message none a h = ground arith
or_raise-ok message (some b) a h = ground arith

ok-injective : {A : Type 0} (x y : A) → ok x ≡ ok y → x ≡ y
ok-injective x y h = ground arith

accepted-ok :
    {A : Type 0} (equal : Bool) (x : A) (message : String) (a : A)
    → (if equal then ok x else value_error message) ≡ ok a
    → (equal ≡ true) × (x ≡ a)
accepted-ok true x message a h = (refl, ground arith)
accepted-ok false x message a h = ground arith

module _ (runtime : Runtime) (inputs : List (String × DerivationInput)) where
  -- The sources of a field: all inputs, or those that its recipe names, and then the value that the
  -- recipe computes is the one that is digested.
  unfoldable pub AreSources :
      Bool
      → List (String × FieldTaint)
      → List (String × FieldDerivation)
      → (String × FieldTaint)
      → List FieldTaint
      → Type 0
  AreSources true verified derivations entry sources = sources ≡ map (λ v. v.1) verified
  AreSources false verified derivations entry sources =
      (recipe : FieldDerivation) × (value : Json) × (output : Json) × (get_key entry.0 derivations
        ≡ some recipe)
      × (sources_of verified recipe.inputs ≡ ok sources)
      × (computed_value runtime inputs recipe ≡ ok value)
      × (runtime.json_equal value output ≡ true)
      × (entry.1.content_digest ≡ value_digest runtime output)

  unfoldable pub IsSourced :
      Bool
      → List (String × FieldTaint)
      → List (String × FieldDerivation)
      → (String × FieldTaint)
      → Type 0
  IsSourced llm verified derivations entry =
      (sources : List FieldTaint) × AreSources llm verified derivations entry sources
      × All (λ s. IsWithin (of_field s) (of_field entry.1)) sources

  derived_field-IsSourced :
      (verified : List (String × FieldTaint)) (derivations : List (String × FieldDerivation))
      (pointer : String) (recipe : FieldDerivation) (output : Json) (item : FieldTaint)
      → get_key pointer derivations ≡ some recipe
      → derived_field runtime inputs verified recipe output ≡ ok item
      → IsSourced false verified derivations (pointer, item)
  unfolding derived_field IsSourced AreSources
  derived_field-IsSourced verified derivations pointer recipe output item k h =
      let (sources, (s, computed)) = bind-ok (sources_of verified recipe.inputs) _ item h in
      let (value, (c, checked)) = bind-ok (computed_value runtime inputs recipe) _ item computed in
      let (equal, same) =
        accepted-ok (runtime.json_equal value output) (combine_field_taint runtime output sources)
          "Derivation output mismatch" item checked in
      rw (sym same) (
        sources,
        (recipe, value, output, k, s, c, equal, refl),
        combine_field_taint-IsWithin runtime output sources,
      )

  derived_fields-IsSourced :
      (verified : List (String × FieldTaint)) (derivations : List (String × FieldDerivation))
      (outputs : List (String × Json)) (fields : List (String × FieldTaint))
      → derived_fields runtime inputs verified derivations outputs ≡ ok fields
      → All (IsSourced false verified derivations) fields
  unfolding derived_fields
  derived_fields-IsSourced verified derivations [] fields h = rw (sym (ok-injective [] fields h)) tt
  derived_fields-IsSourced verified derivations ((pointer, output) ∷ outputs) fields h =
      let (recipe, (k, computed)) = bind-ok (or_raise _ (get_key pointer derivations)) _ fields h in
      let (item, (i, further)) =
        bind-ok (derived_field runtime inputs verified recipe output) _ fields computed in
      let (rest, (r, last)) =
        bind-ok (derived_fields runtime inputs verified derivations outputs) _ fields further in
      rw (sym (ok-injective ((pointer, item) ∷ rest) fields last)) (
        derived_field-IsSourced verified derivations pointer recipe output item
            (or_raise-ok _ (get_key pointer derivations) recipe k) i,
        derived_fields-IsSourced verified derivations outputs rest r,
      )

  combined-IsSourced :
      (verified : List (String × FieldTaint)) (derivations : List (String × FieldDerivation))
      (outputs : List (String × Json))
      → All (IsSourced true verified derivations) (
          map
            (λ entry. (entry.0, combine_field_taint runtime entry.1 (map (λ v. v.1) verified)))
            outputs)
  unfolding IsSourced AreSources
  combined-IsSourced verified derivations [] = tt
  combined-IsSourced verified derivations (entry ∷ outputs) = (
    (
      map (λ v. v.1) verified,
      refl,
      combine_field_taint-IsWithin runtime entry.1 (map (λ v. v.1) verified),
    ),
    combined-IsSourced verified derivations outputs,
  )

  AreSources-with_lineage :
      (llm : Bool) (verified : List (String × FieldTaint))
      (derivations : List (String × FieldDerivation)) (lineage_id : String)
      (entry : String × FieldTaint) (sources : List FieldTaint)
      → AreSources llm verified derivations entry sources
      → AreSources llm verified derivations (entry.0, with_lineage lineage_id entry.1) sources
  unfolding AreSources with_lineage
  AreSources-with_lineage true verified derivations lineage_id entry sources h = h
  AreSources-with_lineage false verified derivations lineage_id entry sources h = h

  -- A later lineage changes no restriction.
  with_lineage-IsSourced :
      (llm : Bool) (verified : List (String × FieldTaint))
      (derivations : List (String × FieldDerivation)) (lineage_id : String)
      (fields : List (String × FieldTaint))
      → All (IsSourced llm verified derivations) fields
      → All
          (IsSourced llm verified derivations)
          (map (λ entry. (entry.0, with_lineage lineage_id entry.1)) fields)
  unfolding IsSourced with_lineage
  with_lineage-IsSourced llm verified derivations lineage_id [] h = tt
  with_lineage-IsSourced llm verified derivations lineage_id (entry ∷ fields) h = (
    (h.0.0, AreSources-with_lineage llm verified derivations lineage_id entry h.0.0 h.0.1, h.0.2),
    with_lineage-IsSourced llm verified derivations lineage_id fields h.1,
  )

value_guard-ok :
    {A : Type 0} (failed : Bool) (message : String) (rest : Answer A) (a : A)
    → (if failed then value_error message else rest) ≡ ok a
    → rest ≡ ok a
value_guard-ok true message rest a h = ground arith
value_guard-ok false message rest a h = h

module _ (runtime : Runtime) (request : StructuredProvenanceDeriveRequest) where
  mode-IsSourced :
      (llm : Bool) (verified fields : List (String × FieldTaint))
      → (let outputs : List (String × Json) = leaf_values runtime request.value "" in
          if llm
          then ok (
              map
                (λ entry. (entry.0, combine_field_taint runtime entry.1 (map (λ v. v.1) verified)))
                outputs)
          else if not (same_keys request.derivations outputs)
          then value_error "Every output leaf requires a deterministic derivation"
          else derived_fields runtime request.inputs verified request.derivations outputs)
        ≡ ok fields
      → All (IsSourced runtime request.inputs llm verified request.derivations) fields
  mode-IsSourced true verified fields h = rw (sym (ok-injective _ fields h)) (
      combined-IsSourced runtime request.inputs verified request.derivations
        (leaf_values runtime request.value ""))
  mode-IsSourced false verified fields h =
      let outputs = leaf_values runtime request.value "" in
      derived_fields-IsSourced runtime request.inputs verified request.derivations outputs fields
        (value_guard-ok (not (same_keys request.derivations outputs)) _ _ fields h)

  derived_statement-IsWithin :
      (fields : List (String × FieldTaint))
      → (let s = derived_statement runtime request fields in
          All {A = String × FieldTaint}
            (λ entry.
              IsWithin
                (of_field entry.1)
                (record { trust = s.trust; classification = s.classification; labels = s.labels }))
            fields)
  unfolding derived_statement IsSubset
  derived_statement-IsWithin fields =
      let s = derived_statement runtime request fields in
      let gathered : List String = gather (λ entry. entry.1.labels) fields in
      let more = injection_label (injection_signals runtime (runtime.dumps request.value)) in
      combination-IsWithin (λ entry. of_field entry.1)
        (record { trust = s.trust; classification = s.classification; labels = s.labels }) fields
        (omega arith) (omega arith)
        (λ label h. ground (
          arith,
          contains-sorted_set label (gathered ++ more),
          contains-append label gathered more,
        ))

  -- What `derive_structured` answers comes from inputs that were all verified as bound to signed
  -- provenance. Every field is trusted no more and classified no lower than its sources, and carries
  -- their labels: all inputs in the `llm` mode, otherwise those its recipe names, and then the
  -- digested value equals the one that the recipe computes. The whole is restricted like each field.
  pub derive_structured-IsSourced :
      (service : ProvenanceService) (tenant_id : String) (draws : Draws) (a : ProvenanceAttestation)
      → derive_structured runtime service request tenant_id draws ≡ ok a
      → (verified : List (String × FieldTaint)) × (verify_inputs runtime service.signer tenant_id
            request.trace_id draws.now request.inputs
          ≡ ok verified)
        × All
            (IsSourced runtime request.inputs (request.mode == "llm") verified request.derivations)
            a.field_taint
        × All (λ entry. IsWithin (of_field entry.1) (of_attestation a)) a.field_taint
  unfolding derive_structured structured_fields attest_derived derived_statement
  derive_structured-IsSourced service tenant_id draws a h =
      let (verified, (v, further)) =
        bind-ok
          (verify_inputs runtime service.signer tenant_id request.trace_id draws.now request.inputs)
          _ a h in
      let (combined, (c, signed)) =
        bind-ok (structured_fields runtime request verified) _ a further in
      let llm = request.mode == "llm" in
      let fields : List (String × FieldTaint) =
        map (λ entry. (entry.0, with_lineage draws.lineage entry.1)) combined in
      let sourced =
        with_lineage-IsSourced runtime request.inputs llm verified request.derivations draws.lineage
          combined (mode-IsSourced llm verified combined c) in
      let (trust, classification, labels, taint) =
        sign-states runtime service request.source_id tenant_id
          (derived_statement runtime request fields)
          (sorted_set (gather (λ entry. entry.1.lineage_ids) verified))
          (field "field_taint" (object (dump_fields fields)) end) draws a signed in
      (
        verified,
        v,
        rw taint sourced,
        rw (trust, classification, labels, taint) (derived_statement-IsWithin fields),
      )
