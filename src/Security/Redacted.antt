-- ===== src/Security/Redacted.antt =====
-- security.py: what is left of a value after `redact`.
use sentinelgate.Prelude.{true, false, ◌≡◌, refl, ◌⊎◌, inl, inr, Bool-cases}
use sentinelgate.Json.{
  Json, Items, Fields, nil, cons, end, field, null, boolean, number, text, array, object,
}
use sentinelgate.Runtime.{Runtime}
use sentinelgate.Security.{redact, redact_items, redact_fields, sub_all, secret_patterns}

module _ (runtime : Runtime) where
  -- The second value is the first one with every text replaced by what the patterns leave of it,
  -- and under a secret name, at any depth, by the mark alone.
  unfoldable mutual
    pub IsRedaction : Json → Json → Type 0
    IsRedaction (text s) (text t) = t ≡ sub_all runtime secret_patterns s
    IsRedaction (array xs) (array ys) = AreRedactions xs ys
    IsRedaction (object d) (object e) = IsRedactionOf d e
    IsRedaction null null = Unit
    IsRedaction (boolean b) (boolean c) = b ≡ c
    IsRedaction (number n) (number k) = n ≡ k
    IsRedaction _ _ = ⊥

    pub AreRedactions : Items → Items → Type 0
    AreRedactions nil nil = Unit
    AreRedactions (cons x xs) (cons y ys) = IsRedaction x y × AreRedactions xs ys
    AreRedactions _ _ = ⊥

    pub IsRedactionOf : Fields → Fields → Type 0
    IsRedactionOf end end = Unit
    IsRedactionOf (field j v d) (field k w e) =
        (j ≡ k)
        × (((runtime.secret_key_search j ≡ true) × (w ≡ text "[REDACTED]"))
            ⊎ ((runtime.secret_key_search j ≡ false) × IsRedaction v w))
        × IsRedactionOf d e
    IsRedactionOf _ _ = ⊥

  mutual
    unfolding redact redact_items redact_fields IsRedaction AreRedactions IsRedactionOf

    redacted : (v : Json) → IsRedaction v (redact runtime v)
    redacted null = tt
    redacted (boolean b) = refl
    redacted (number n) = refl
    redacted (text s) = refl
    redacted (array xs) = items_redacted xs
    redacted (object d) = fields_redacted d

    items_redacted : (xs : Items) → AreRedactions xs (redact_items runtime xs)
    items_redacted nil = tt
    items_redacted (cons x xs) = (redacted x, items_redacted xs)

    fields_redacted : (d : Fields) → IsRedactionOf d (redact_fields runtime d)
    fields_redacted end = tt
    fields_redacted (field k v d) = elim (Bool-cases (runtime.secret_key_search k)) [
      | inl e ↦ rw e (refl, inl (e, refl), fields_redacted d)
      | inr e ↦ rw e (refl, inr (e, redacted v), fields_redacted d)
    ]

  -- `redact` keeps a value's shape, its keys, numbers and truth values; a field with a secret name,
  -- at any depth, holds the mark alone, and every other text is what the patterns leave of it.
  pub redact-IsRedaction : (v : Json) → IsRedaction v (redact runtime v)
  redact-IsRedaction v = redacted v
