-- ===== src/Provenance/Signed.antt =====
-- provenance.py: the statement that is signed and the attestation that is answered.
use sentinelgate.Prelude.{String, ◌≡◌, List, arith}
use sentinelgate.Json.{Fields}
use sentinelgate.Runtime.{Runtime}
use sentinelgate.Identity.{ok, issue}
use sentinelgate.Provenance.{ProvenanceService, ProvenanceAttestation, Statement, Draws, sign}

pub sign-states :
    (runtime : Runtime) (service : ProvenanceService) (subject tenant_id : String) (s : Statement)
    (parent_ids : List String) (rest : Fields) (draws : Draws) (a : ProvenanceAttestation)
    → sign runtime service subject tenant_id s parent_ids rest draws ≡ ok a
    → (a.trust ≡ s.trust)
      × (a.classification ≡ s.classification)
      × (a.labels ≡ s.labels)
      × (a.field_taint ≡ s.field_taint)
unfolding sign issue
sign-states runtime service subject tenant_id s parent_ids rest draws a h =
    (ground arith, ground arith, ground arith, ground arith)
