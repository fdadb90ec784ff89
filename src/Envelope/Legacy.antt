-- ===== src/Envelope/Legacy.antt =====
-- Legacy dictionaries as envelopes.
use enterprise_ai_sales_orch.Prelude.{ℕ, ◌≡◌, ◌≢◌, ◌↔◌, true, none, some, arith, [], ◌∷◌, refl}
use enterprise_ai_sales_orch.Prelude.Text.{Text, codes, lower, listed, or_empty}
use enterprise_ai_sales_orch.Envelope.{
  Envelope, LegacyEnvelope, dict, normalize_envelope, normalize_legacy, error, pending,
  legacy_status,
}

module _ {P D : Type 0} where
  -- What an envelope has of a legacy dictionary.
  pub record Reads (l : LegacyEnvelope P D) (e : Envelope P D) : Type 0 where
    pub started : e.status ≢ pending
    pub failed :
        (e.status ≡ error)
        ↔ (listed (lower (or_empty l.status)) (codes "error" ∷ codes "failed" ∷ []) ≡ true)
    pub kept : e.status ≡ error → e.error_text ≡ l.error_text
    pub dropped : e.status ≢ error → e.error_text ≡ none
    pub fresh : e.metadata.retry_count ≡ 0

  -- A legacy dictionary that does not validate becomes an envelope that is never pending and has no
  -- retry counted. It is an error exactly when the legacy status is "error" or "failed", in any case
  -- of its letters; then it has the error's text, and otherwise none.
  normalize_envelope-Reads :
      (message_id : Text) (now : ℕ) (fresh default_source : Text) (l : LegacyEnvelope P D)
      → (e : Envelope P D) × (normalize_envelope message_id now fresh default_source
            (dict none (some l))
          ≡ some e)
        × Reads l e
  unfolding normalize_envelope normalize_legacy legacy_status
  normalize_envelope-Reads message_id now fresh default_source l =
      let e = normalize_legacy message_id now fresh default_source l in
      (
        e,
        refl,
        record {
          started = ground arith;
          failed = ground arith;
          kept = ground arith;
          dropped = ground arith;
          fresh = refl;
        },
      )
