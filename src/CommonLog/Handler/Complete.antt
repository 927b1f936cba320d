-- ===== src/CommonLog/Handler/Complete.antt =====
-- Every field of the format has its token in the log line.
use pandora_web_server.Base.{
  ◌≡◌, refl, ap, ◌∙◌, ◌⊎◌, inl, inr, Option, none, some, List, [], ◌∷◌, or, is_empty, false,
}
use pandora_web_server.CommonLog.Fields.{
  LogField, skipped, remote_addr, remote_port, remote_name, time_local, time_iso, request, status,
  bytes_sent, processing_time, request_header, response_header, CommonLogConf,
}
use pandora_web_server.CommonLog.Handler.{
  LogToken, no_value, Arrived, Finished, early_token, early_tokens, late_token, all_tokens,
  request_filter, line, logging,
}

module _ {H A T : Type 0} (arrived : Arrived H A) (finished : Finished H T) where
  -- The token of a field, whichever phase it is from.
  abbrev pub field_token : LogField H → LogToken A T
  unfolding early_token late_token
  field_token field = elim (or (early_token arrived field) (late_token finished field)) [
    | none ↦ no_value
    | some token ↦ token
  ]

  abbrev pub field_tokens : List (LogField H) → List (LogToken A T)
  unfolding field_token
  field_tokens [] = []
  field_tokens (field ∷ fields) = field_token field ∷ field_tokens fields

  abbrev IsAbsent : Option (LogToken A T) → Type 0
  IsAbsent o = o ≡ none

  -- Exactly one of the phases has the token.
  phase :
      (field : LogField H)
      → ((early_token arrived field ≡ some (field_token field))
          × IsAbsent (late_token {A = A} finished field))
        ⊎ (IsAbsent (early_token {T = T} arrived field)
            × (late_token finished field ≡ some (field_token field)))
  unfolding early_token late_token
  phase skipped = inl (refl, refl)
  phase remote_addr = inl (refl, refl)
  phase remote_port = inl (refl, refl)
  phase time_local = inl (refl, refl)
  phase time_iso = inl (refl, refl)
  phase request = inl (refl, refl)
  phase (request_header h) = inl (refl, refl)
  phase remote_name = inr (refl, refl)
  phase status = inr (refl, refl)
  phase bytes_sent = inr (refl, refl)
  phase processing_time = inr (refl, refl)
  phase (response_header h) = inr (refl, refl)

  early_step :
      (field : LogField H) (fields : List (LogField H)) (token : LogToken A T)
      → early_token arrived field ≡ some token
      → early_tokens arrived (field ∷ fields) ≡ token ∷ early_tokens arrived fields
  unfolding early_tokens
  early_step field fields token h = rw (h, early_tokens) refl

  early_skip :
      (field : LogField H) (fields : List (LogField H))
      → IsAbsent (early_token {T = T} arrived field)
      → ◌≡◌ {A = List (LogToken A T)}
          (early_tokens arrived (field ∷ fields))
          (early_tokens arrived fields)
  unfolding early_tokens
  early_skip field fields h = rw (h, early_tokens) refl

  late_step :
      (field : LogField H) (fields : List (LogField H)) (token : LogToken A T)
      (existing rest : List (LogToken A T))
      → late_token finished field ≡ some token
      → all_tokens finished fields existing ≡ some rest
      → all_tokens finished (field ∷ fields) existing ≡ some (token ∷ rest)
  unfolding all_tokens
  late_step field fields token existing rest h k = rw (h, all_tokens) (rw k refl)

  late_next :
      (field : LogField H) (fields : List (LogField H)) (token : LogToken A T)
      (existing rest : List (LogToken A T))
      → IsAbsent (late_token {A = A} finished field)
      → all_tokens finished fields existing ≡ some rest
      → all_tokens finished (field ∷ fields) (token ∷ existing) ≡ some (token ∷ rest)
  unfolding all_tokens
  late_next field fields token existing rest h k = rw (h, all_tokens) (rw k refl)

  all_tokens-early_tokens :
      (fields : List (LogField H))
      → all_tokens finished fields (early_tokens arrived fields) ≡ some (field_tokens fields)
  unfolding all_tokens early_tokens
  all_tokens-early_tokens [] = refl
  all_tokens-early_tokens (field ∷ fields) = elim (phase field) [
    | inl (early, late) ↦
        ap (all_tokens finished (field ∷ fields)) (early_step field fields _ early)
        ∙ late_next field fields _ _ _ late (all_tokens-early_tokens fields)
    | inr (early, late) ↦
        ap (all_tokens finished (field ∷ fields)) (early_skip field fields early)
        ∙ late_step field fields _ _ _ late (all_tokens-early_tokens fields)
  ]

  -- With a log file, `logging` after `request_filter` does not panic, and sends a line that has
  -- the token of every field of the format, in the format's order.
  pub logging-request_filter :
      (conf : CommonLogConf H)
      → is_empty conf.log_file ≡ false
      → logging conf finished (request_filter conf arrived)
        ≡ line conf.log_file (field_tokens conf.log_format)
  unfolding logging request_filter
  logging-request_filter conf enabled = rw (enabled, all_tokens-early_tokens conf.log_format) refl
