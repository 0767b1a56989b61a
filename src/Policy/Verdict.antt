-- ===== src/Policy/Verdict.antt =====
-- How src/sentinelgate/policy.py answers: a check returns early with an `Evaluation` or passes on to
-- the next one.
use sentinelgate.Prelude.{
  String, ◌≡◌, ◌≢◌, refl, Option, none, some, List, [], ◌∷◌, ◌==◌, if◌then◌else◌,
}
use sentinelgate.Models.{Decision, allow, deny, require_approval, Evaluation}

-- `PolicyEngine._deny`, the policy's version last
unfoldable pub deny_with : String → String → String → Evaluation
deny_with reason risk version = record {
  decision = deny;
  reasons = reason ∷ [];
  risk = risk;
  policy_version = version;
}

abbrev pub verdict : Decision → List String → String → String → Evaluation
verdict d reasons risk version = record {
  decision = d;
  reasons = reasons;
  risk = risk;
  policy_version = version;
}

-- the decision that an `action` key asks for when a flow is blocked
unfoldable pub action_decision : String → Decision
action_decision action = if action == "require_approval" then require_approval else deny

-- An early return, or what follows it.
infixr 20 ◌otherwise◌
abbrev pub ◌otherwise◌ : Option Evaluation → Evaluation → Evaluation
none otherwise rest = rest
some e otherwise rest = e

-- A check that never grants: it passes, or it denies or asks for approval.
abbrev pub NeverAllows : Option Evaluation → Type 0
NeverAllows none = Unit
NeverAllows (some e) = e.decision ≢ allow

-- An early return that is not a grant: a granted result comes from what follows.
pub otherwise_allow :
    (check : Option Evaluation) (rest : Evaluation)
    → NeverAllows check
    → (check otherwise rest).decision ≡ allow
    → (check ≡ none) × (rest.decision ≡ allow)
otherwise_allow none rest never h = (refl, h)
otherwise_allow (some e) rest never h = absurd (never h)
