-- ===== src/Provenance/Declassify/Removed.antt =====
-- `declassify_labels` of provenance.py: the fields of the value and their labels.
use mathlib.Core.Path.{subst}
use sentinelgate.Prelude.{
  ◌≡◌, refl, sym, ap, ◌∙◌, String, Bool, true, false, not, ◌&&◌, ◌||◌, none, some, List, [], ◌∷◌,
  contains, select, get_key, set_key, get_key-set_key, contains-select, contains-append, gather,
  contains-sorted_set, eq_iff, arith, any, Option-cases, Bool-cases, inl, inr, cat, ◌==◌,
}
use sentinelgate.Models.{FieldTaint, VerifiedProvenance}
use sentinelgate.Taint.Within.{IsSubset}
use sentinelgate.Runtime.{Runtime}
use sentinelgate.Identity.{ok}
use sentinelgate.Identity.Accepted.{guard-ok}
use sentinelgate.Provenance.{ProvenanceService, ProvenanceAttestation, Draws}
use sentinelgate.Provenance.Signed.{sign-states}
use sentinelgate.Provenance.Verify.{verify_many}
use sentinelgate.Provenance.Declassify.{
  without_labels, remove_at, declassified, declassify_labels, field_labels, first_verified,
  declassified_statement, declassified_claims, source_parents, is_missing,
}

-- A field with the same content, trust and classification, and without these labels if it is named.
unfoldable pub IsDeclassified : Bool → List String → FieldTaint → FieldTaint → Type 0
IsDeclassified named remove_labels before after =
    (after.content_digest ≡ before.content_digest)
    × (after.trust ≡ before.trust)
    × (after.classification ≡ before.classification)
    × ((label : String)
        → contains label after.labels
          ≡ (contains label before.labels && not (named && contains label remove_labels)))

without_labels-IsDeclassified :
    (remove_labels : List String) (lineage_id : String) (current : FieldTaint)
    → IsDeclassified true remove_labels current (without_labels remove_labels lineage_id current)
unfolding IsDeclassified without_labels
without_labels-IsDeclassified remove_labels lineage_id current = (
  refl,
  refl,
  refl,
  λ label.
      contains-sorted_set label (select (λ l. not (contains l remove_labels)) current.labels)
      ∙ contains-select label (λ l. not (contains l remove_labels)) current.labels,
)

IsDeclassified-same :
    (remove_labels : List String) (x : FieldTaint) → IsDeclassified false remove_labels x x
unfolding IsDeclassified
IsDeclassified-same remove_labels x = (refl, refl, refl, λ label. ground arith)

IsDeclassified-after :
    (b c : Bool) (remove_labels : List String) (x y z : FieldTaint)
    → IsDeclassified b remove_labels x y
    → IsDeclassified c remove_labels y z
    → IsDeclassified (b || c) remove_labels x z
unfolding IsDeclassified
IsDeclassified-after b c remove_labels x y z (d, t, k, l) (d', t', k', l') =
    (d' ∙ d, t' ∙ t, k' ∙ k, λ label. ground (arith, l label, l' label))

-- What the field at a pointer is after the loop.
unfoldable IsDeclassifiedAt :
    List String → List (String × FieldTaint) → String → Bool → FieldTaint → Type 0
IsDeclassifiedAt remove_labels fields pointer named before =
    (after : FieldTaint) × ((get_key pointer fields ≡ some after)
      × IsDeclassified named remove_labels before after)

get_key-other :
    (path pointer : String) (item before : FieldTaint) (fields : List (String × FieldTaint))
    → get_key pointer fields ≡ some before
    → (path == pointer) ≡ false
    → get_key pointer (set_key path item fields) ≡ some before
get_key-other path pointer item before fields h e =
    get_key-set_key pointer path item fields ∙ rw e h

get_key-same :
    (path pointer : String) (item : FieldTaint) (fields : List (String × FieldTaint))
    → (path == pointer) ≡ true
    → get_key pointer (set_key path item fields) ≡ some item
get_key-same path pointer item fields e = get_key-set_key pointer path item fields ∙ rw e refl

same_value :
    (path pointer : String) (current before : FieldTaint) (fields : List (String × FieldTaint))
    → (path == pointer) ≡ true
    → get_key path fields ≡ some current
    → get_key pointer fields ≡ some before
    → current ≡ before
same_value path pointer current before fields e h k = ground (arith, eq_iff path pointer)

other_path :
    (path pointer : String) (before : FieldTaint) (fields : List (String × FieldTaint))
    → get_key path fields ≡ none
    → get_key pointer fields ≡ some before
    → (path == pointer) ≡ false
other_path path pointer before fields h k = ground (arith, eq_iff path pointer)

module _ (remove_labels : List String) (lineage_id pointer : String) where
  remove_at-IsDeclassified :
      (paths : List String) (fields : List (String × FieldTaint)) (before : FieldTaint)
      → get_key pointer fields ≡ some before
      → IsDeclassifiedAt remove_labels
          (remove_at remove_labels lineage_id paths fields)
          pointer
          (contains pointer paths)
          before
  unfolding remove_at contains IsDeclassifiedAt
  remove_at-IsDeclassified [] fields before h =
      (before, (h, IsDeclassified-same remove_labels before))
  remove_at-IsDeclassified (path ∷ paths) fields before h =
      let rest = remove_at-IsDeclassified paths in
      elim (Option-cases (get_key path fields)) [
        | inl e ↦
            rw (e, remove_at, other_path path pointer before fields e h) (rest fields before h)
        | inr (current, e) ↦
            let item = without_labels remove_labels lineage_id current in
            let fields' = set_key path item fields in
            elim (Bool-cases (path == pointer)) [
              | inl k ↦
                  let (after, (found, further)) =
                    rest fields' item (get_key-same path pointer item fields k) in
                  rw (e, remove_at, k)
                    (
                      after,
                      (
                        found,
                        IsDeclassified-after true (contains pointer paths) remove_labels before item
                            after
                            (subst (λ b. IsDeclassified true remove_labels b item)
                              (same_value path pointer current before fields k e h)
                              (without_labels-IsDeclassified remove_labels lineage_id current))
                            further,
                      ),
                    )
              | inr k ↦
                  rw (e, remove_at, k)
                    (rest fields' before (get_key-other path pointer item before fields h k))
            ]
      ]

contains-gather :
    {A : Type 0} (label : String) (f : A → List String) (xs : List A)
    → contains label (gather f xs) ≡ any (λ x. contains label (f x)) xs
unfolding contains gather any
contains-gather label f [] = refl
contains-gather label f (x ∷ xs) =
    contains-append label (f x) (gather f xs)
    ∙ ap (λ b. contains label (f x) || b) (contains-gather label f xs)

-- A label of one field is a label of some field.
any-found :
    (label pointer : String) (item : FieldTaint) (fields : List (String × FieldTaint))
    → get_key pointer fields ≡ some item
    → contains label item.labels ≡ true
    → any (λ entry. contains label entry.1.labels) fields ≡ true
unfolding get_key any
any-found label pointer item [] found h = ground arith
any-found label pointer item (entry ∷ fields) found h =
    ground (arith, any-found label pointer item fields)

pub declassify_labels-declassified :
    (runtime : Runtime) (service : ProvenanceService) (token tenant_id : String)
    (paths remove_labels : List String) (reviewer : String) (draws : Draws)
    (source : VerifiedProvenance)
    → verify_many runtime service.signer (token ∷ []) tenant_id draws.now ≡ ok (source ∷ [])
    → declassify_labels runtime service token tenant_id paths remove_labels reviewer draws
      ≡ declassified runtime service source tenant_id paths remove_labels reviewer draws
unfolding declassify_labels first_verified
declassify_labels-declassified runtime service token tenant_id paths remove_labels reviewer draws
      source v =
    rw v refl

-- If `declassify_labels` answers for a token that verifies as this source: the trust and the
-- classification stay; a field of the source keeps its content, trust and classification, loses the named
-- labels if its pointer is among the paths, and loses no label otherwise; and the labels that are
-- left on it are among those of the whole.
pub declassify_labels-IsDeclassified :
    (runtime : Runtime) (service : ProvenanceService) (token tenant_id : String)
    (paths remove_labels : List String) (reviewer : String) (draws : Draws)
    (source : VerifiedProvenance) (a : ProvenanceAttestation) (pointer : String)
    (before : FieldTaint)
    → verify_many runtime service.signer (token ∷ []) tenant_id draws.now ≡ ok (source ∷ [])
    → get_key pointer source.field_taint ≡ some before
    → declassify_labels runtime service token tenant_id paths remove_labels reviewer draws ≡ ok a
    → (a.trust ≡ source.trust)
      × (a.classification ≡ source.classification)
      × ((after : FieldTaint) × (get_key pointer a.field_taint ≡ some after)
          × IsDeclassified (contains pointer paths) remove_labels before after
          × IsSubset after.labels a.labels)
unfolding declassified field_labels declassified_statement IsDeclassifiedAt IsSubset
declassify_labels-IsDeclassified runtime service token tenant_id paths remove_labels reviewer draws
      source a pointer before v found h =
    let answered =
      sym (
        declassify_labels-declassified runtime service token tenant_id paths remove_labels reviewer
          draws source v)
      ∙ h in
    let (trust, classification, labels, fields) =
      sign-states runtime service (cat "declassified:" reviewer) tenant_id
        (declassified_statement source paths remove_labels draws.lineage)
        (source_parents source.lineage_id)
        (declassified_claims source paths remove_labels reviewer draws.lineage) draws a
        (guard-ok (any (is_missing source.field_taint) paths)
          "Declassification path is not present in signed provenance" _ a answered).1 in
    let (after, (kept, removed)) =
      remove_at-IsDeclassified remove_labels draws.lineage pointer paths source.field_taint before
        found in
    (
      trust,
      classification,
      rw (labels, fields)
          (
            after,
            kept,
            removed,
            λ label h.
                contains-sorted_set label _
                ∙ contains-gather label (λ entry. entry.1.labels) _
                ∙ any-found label pointer after _ kept h,
          ),
    )
