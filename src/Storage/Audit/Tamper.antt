-- ===== src/Storage/Audit/Tamper.antt =====
-- `verify_audit_chain` of storage.py and the texts of the events.
use Prim.Native.String.{count as size}
use text.Mathlib.TextLemmas.{
  nil-append, cons-append, length-cons, length-append as text_length-append, tail-eq_of_cons-eq,
  append_assoc as text_append_assoc,
}
use sentinelgate.Prelude.{
  String, ◌≡◌, refl, sym, ◌∙◌, ap, true, Option, none, some, List, [], ◌∷◌, arith, eq_iff, length,
  cat,
}
use sentinelgate.Runtime.{Runtime}
use sentinelgate.Storage.Audit.{
  AuditRow, sorted_events, genesis, audit_message, audit_digest, chain_from, verify_audit_chain,
}
use sentinelgate.Storage.Audit.Chain.{final}

-- Texts that end alike: the ends agree if they are equally long.
same_end : (a b p q : String) → cat a p ≡ cat b q → size p ≡ size q → p ≡ q
same_end String.[] String.[] p q e n = sym (nil-append p) ∙ e ∙ nil-append q
same_end String.[] (String.◌∷◌ d b) p q e n = absurd (
    omega (
      arith,
      n,
      ap size (sym (nil-append p) ∙ e ∙ cons-append d b q),
      length-cons d (cat b q),
      text_length-append b q,
    ))
same_end (String.◌∷◌ c a) String.[] p q e n = absurd (
    omega (
      arith,
      n,
      ap size (sym (cons-append c a p) ∙ e ∙ nil-append q),
      length-cons c (cat a p),
      text_length-append a p,
    ))
same_end (String.◌∷◌ c a) (String.◌∷◌ d b) p q e n =
    same_end a b p q (tail-eq_of_cons-eq (sym (cons-append c a p) ∙ e ∙ cons-append d b q)) n

-- No text of the first list has the digest of another text at its place in the second.
abbrev pub IsCollisionFree : Runtime → String → List String → List String → Type 0
IsCollisionFree runtime key [] ns = Unit
IsCollisionFree runtime key (m ∷ ms) [] = Unit
IsCollisionFree runtime key (m ∷ ms) (n ∷ ns) =
    (runtime.hmac_sha256 key m ≡ runtime.hmac_sha256 key n → m ≡ n)
    × IsCollisionFree runtime key ms ns

-- The texts that the rows of a chain sign, each with the hash before it.
unfoldable pub signed_texts : Runtime → String → String → List AuditRow → List String
signed_texts runtime key previous [] = []
signed_texts runtime key previous (row ∷ rows) =
    audit_message runtime key row.id row.created_at row.event_type row.payload previous
    ∷ signed_texts runtime key row.event_hash rows

abbrev pub last_hash : String → Option AuditRow → String
last_hash previous none = previous
last_hash previous (some y) = y.event_hash

module _ (runtime : Runtime) (key : String)
    (fixed_size : (m : String) → size (runtime.hmac_sha256 key m) ≡ 64) where
  -- What one accepted row says of its hash.
  link :
      (previous : String) (row : AuditRow) (rows : List AuditRow)
      → chain_from runtime key previous (row ∷ rows) ≡ true
      → (audit_digest runtime key row.id row.created_at row.event_type row.payload previous
          ≡ row.event_hash)
        × (chain_from runtime key row.event_hash rows ≡ true)
  unfolding chain_from
  link previous row rows h = (
    ground (
      arith,
      eq_iff (audit_digest runtime key row.id row.created_at row.event_type row.payload previous)
          row.event_hash,
    ),
    ground arith,
  )

  last_hash-cons :
      (previous : String) (row : AuditRow) (rows : List AuditRow)
      → last_hash previous (final (row ∷ rows)) ≡ last_hash row.event_hash (final rows)
  unfolding final
  last_hash-cons previous row rows = ground arith

  -- The digest of a row is that of its text.
  digest-message :
      (p q : String) (x y : AuditRow)
      → audit_digest runtime key x.id x.created_at x.event_type x.payload p
        ≡ audit_digest runtime key y.id y.created_at y.event_type y.payload q
      → runtime.hmac_sha256 key
          (audit_message runtime key x.id x.created_at x.event_type x.payload p)
        ≡ runtime.hmac_sha256 key
            (audit_message runtime key y.id y.created_at y.event_type y.payload q)
  unfolding audit_digest
  digest-message p q x y e = e

  -- A signed text ends in the hash before it.
  message-previous :
      (p q : String) (x y : AuditRow)
      → audit_message runtime key x.id x.created_at x.event_type x.payload p
        ≡ audit_message runtime key y.id y.created_at y.event_type y.payload q
      → size p ≡ size q
      → p ≡ q
  unfolding audit_message
  message-previous p q x y e n =
      same_end
        (cat x.id (
          cat "|" (
            cat (runtime.isoformat x.created_at)
              (cat "|" (cat x.event_type (cat "|" (cat x.payload "|")))))))
        (cat y.id (
          cat "|" (
            cat (runtime.isoformat y.created_at)
              (cat "|" (cat y.event_type (cat "|" (cat y.payload "|")))))))
        p q (simp text_append_assoc e) n

  hash-size :
      (previous : String) (row : AuditRow) (rows : List AuditRow)
      → chain_from runtime key previous (row ∷ rows) ≡ true
      → size row.event_hash ≡ 64
  unfolding audit_digest
  hash-size previous row rows h = rw (← (link previous row rows h).0) (fixed_size _)

  -- The last hash determines the texts of the rows and the hash before them.
  chains_agree :
      (p q : String) (xs ys : List AuditRow)
      → chain_from runtime key p xs ≡ true
      → chain_from runtime key q ys ≡ true
      → length xs ≡ length ys
      → last_hash p (final xs) ≡ last_hash q (final ys)
      → IsCollisionFree runtime key (signed_texts runtime key p xs) (signed_texts runtime key q ys)
      → (signed_texts runtime key p xs ≡ signed_texts runtime key q ys) × (size p ≡ size q → p ≡ q)
  unfolding signed_texts
  chains_agree p q [] [] h k n e free = (refl, λ _. unfold final in e)
  chains_agree p q [] (y ∷ ys) h k n e free = absurd (omega arith)
  chains_agree p q (x ∷ xs) [] h k n e free = absurd (omega arith)
  chains_agree p q (x ∷ xs) (y ∷ ys) h k n e free =
      let (rest, same) =
        chains_agree x.event_hash y.event_hash xs ys (link p x xs h).1 (link q y ys k).1
          (omega arith) (sym (last_hash-cons p x xs) ∙ e ∙ last_hash-cons q y ys) free.1 in
      let hashes = same (hash-size p x xs h ∙ sym (hash-size q y ys k)) in
      let texts =
        free.0 (digest-message p q x y ((link p x xs h).0 ∙ hashes ∙ sym (link q y ys k).0)) in
      (rw (texts, rest), message-previous p q x y texts)

  -- Two tables that verify under one key, with equally many events and the same last hash, hold the
  -- same signed texts in the same order: no event can be altered, replaced or moved behind a known
  -- last hash. The digests are taken to be 64 characters long, and not to collide on these texts.
  pub verify_audit_chain-commits :
      (table other : List AuditRow)
      → verify_audit_chain runtime key table ≡ true
      → verify_audit_chain runtime key other ≡ true
      → length (sorted_events table) ≡ length (sorted_events other)
      → last_hash genesis (final (sorted_events table))
        ≡ last_hash genesis (final (sorted_events other))
      → IsCollisionFree runtime key
          (signed_texts runtime key genesis (sorted_events table))
          (signed_texts runtime key genesis (sorted_events other))
      → signed_texts runtime key genesis (sorted_events table)
        ≡ signed_texts runtime key genesis (sorted_events other)
  unfolding verify_audit_chain
  verify_audit_chain-commits table other h k n e free =
      (chains_agree genesis genesis (sorted_events table) (sorted_events other) h k n e free).0
