-- ===== src/Envelope/RoundTrip.antt =====
-- An envelope that travels as a message: what `EnvelopeFromMsg` makes of `ToMsg`.
use natsx.Base.{
  ◌⊎◌, true, false, ◌&&◌, not, List, [], ◌∷◌, some, if◌then◌else◌, is_empty, ◌≡◌, refl, arith, All,
  text_eq, inl, inr,
}
use natsx.Base.Text.{Text, equal_fold}
use natsx.Nats.Header.{Header, HeaderApi, values}
use natsx.Envelope.{
  Envelope, header_event_id, header_message_id, header_schema_version, header_trace_id, set_header,
  to_header, to_msg, envelope_from_msg,
}
use natsx.Envelope.Headers.{
  from_header_lem, Avoids, IsUnique, values-set_header, values-to_header, Avoids-set_header,
  Avoids-to_header, first_header-Avoids, first_header_exact,
}

-- The keys that carry the fields of an envelope.
abbrev pub reserved : List Text
reserved = header_event_id ∷ header_message_id ∷ header_schema_version ∷ header_trace_id ∷ []

-- The custom headers keep off the four reserved keys, in any case of letters.
abbrev pub IsCustom : Header → Type 0
IsCustom h = All (λ key. Avoids key h) reserved

module _ (api : HeaderApi) (e : Envelope) where
  -- An identity that is set decides its header, whatever the custom headers hold.
  header_lem :
      (j : Text)
      → values j (to_msg api e).header ≡ (
          if not (is_empty e.trace_id) && text_eq header_trace_id j
          then e.trace_id ∷ []
          else if not (is_empty e.schema_version) && text_eq header_schema_version j
          then e.schema_version ∷ []
          else if not (is_empty e.message_id) && text_eq header_message_id j
          then e.message_id ∷ []
          else if not (is_empty e.event_id) && text_eq header_event_id j
          then e.event_id ∷ []
          else values j (to_header api e.headers))
  unfolding to_msg
  header_lem j = rw (
    values-set_header api _ header_trace_id j e.trace_id,
    values-set_header api _ header_schema_version j e.schema_version,
    values-set_header api _ header_message_id j e.message_id,
    values-set_header api _ header_event_id j e.event_id,
  )

  abbrev received : Envelope
  received = envelope_from_msg api (some (to_msg api e))

  received_fields :
      (received.subject ≡ e.subject)
      × (received.reply ≡ e.reply)
      × (received.payload ≡ e.payload)
      × (is_empty e.event_id ≡ false → received.event_id ≡ e.event_id)
      × (is_empty e.message_id ≡ false → received.message_id ≡ e.message_id)
      × (is_empty e.schema_version ≡ false → received.schema_version ≡ e.schema_version)
      × (is_empty e.trace_id ≡ false → received.trace_id ≡ e.trace_id)
  unfolding envelope_from_msg
  received_fields = (
    unfold to_msg in refl,
    unfold to_msg in refl,
    unfold to_msg in refl,
    λ h.
        first_header_exact api header_event_id e.event_id (to_msg api e).header
          (rw header_lem (ground (arith, h))) h,
    λ h.
        first_header_exact api header_message_id e.message_id (to_msg api e).header
          (rw header_lem (ground (arith, h))) h,
    λ h.
        first_header_exact api header_schema_version e.schema_version (to_msg api e).header
          (rw header_lem (ground (arith, h))) h,
    λ h.
        first_header_exact api header_trace_id e.trace_id (to_msg api e).header
          (rw header_lem (ground (arith, h))) h,
  )

  empty_or :
      (field sent : Text)
      → (is_empty sent ≡ false → field ≡ sent)
      → (is_empty sent ≡ true) ⊎ (field ≡ sent)
  empty_or field [] keep = inl refl
  empty_or field (c ∷ sent) keep = inr (keep refl)

  -- Every identity field that is set arrives as it was sent, even where a custom header uses its
  -- key; subject, reply and payload always do.
  pub envelope_from_msg-to_msg_set :
      (received.subject ≡ e.subject)
      × (received.reply ≡ e.reply)
      × (received.payload ≡ e.payload)
      × ((is_empty e.event_id ≡ true) ⊎ (received.event_id ≡ e.event_id))
      × ((is_empty e.message_id ≡ true) ⊎ (received.message_id ≡ e.message_id))
      × ((is_empty e.schema_version ≡ true) ⊎ (received.schema_version ≡ e.schema_version))
      × ((is_empty e.trace_id ≡ true) ⊎ (received.trace_id ≡ e.trace_id))
  envelope_from_msg-to_msg_set =
      let (s, r, p, event_set, message_set, schema_set, trace_set) = received_fields in
      (
        s,
        r,
        p,
        empty_or received.event_id e.event_id event_set,
        empty_or received.message_id e.message_id message_set,
        empty_or received.schema_version e.schema_version schema_set,
        empty_or received.trace_id e.trace_id trace_set,
      )

  -- An identity that is not set leaves its header out, if the custom headers do.
  Avoids-set_empty :
      (h : Header) (key value : Text)
      → is_empty value ≡ true
      → Avoids key h
      → Avoids key (set_header api h key value)
  unfolding set_header
  Avoids-set_empty h key value empty a = rw empty a

  module _ (custom : IsCustom e.headers) where
    first_event_id : is_empty e.event_id ≡ true → received.event_id ≡ []
    unfolding envelope_from_msg to_msg equal_fold
    first_event_id h = first_header-Avoids api header_event_id _ (
        Avoids-set_header api header_event_id _ header_trace_id e.trace_id
          (Avoids-set_header api header_event_id _ header_schema_version e.schema_version
            (Avoids-set_header api header_event_id _ header_message_id e.message_id
              (Avoids-set_empty _ header_event_id e.event_id h
                (Avoids-to_header api header_event_id e.headers custom.0))
              refl)
            refl)
          refl)

    first_message_id : is_empty e.message_id ≡ true → received.message_id ≡ []
    unfolding envelope_from_msg to_msg equal_fold
    first_message_id h = first_header-Avoids api header_message_id _ (
        Avoids-set_header api header_message_id _ header_trace_id e.trace_id
          (Avoids-set_header api header_message_id _ header_schema_version e.schema_version
            (Avoids-set_empty _ header_message_id e.message_id h (
              Avoids-set_header api header_message_id _ header_event_id e.event_id
                (Avoids-to_header api header_message_id e.headers custom.1.0) refl))
            refl)
          refl)

    first_schema_version : is_empty e.schema_version ≡ true → received.schema_version ≡ []
    unfolding envelope_from_msg to_msg equal_fold
    first_schema_version h = first_header-Avoids api header_schema_version _ (
        Avoids-set_header api header_schema_version _ header_trace_id e.trace_id
          (Avoids-set_empty _ header_schema_version e.schema_version h (
            Avoids-set_header api header_schema_version _ header_message_id e.message_id
              (Avoids-set_header api header_schema_version _ header_event_id e.event_id
                (Avoids-to_header api header_schema_version e.headers custom.1.1.0) refl)
              refl))
          refl)

    first_trace_id : is_empty e.trace_id ≡ true → received.trace_id ≡ []
    unfolding envelope_from_msg to_msg equal_fold
    first_trace_id h = first_header-Avoids api header_trace_id _ (
        Avoids-set_empty _ header_trace_id e.trace_id h (
          Avoids-set_header api header_trace_id _ header_schema_version e.schema_version
            (Avoids-set_header api header_trace_id _ header_message_id e.message_id
              (Avoids-set_header api header_trace_id _ header_event_id e.event_id
                (Avoids-to_header api header_trace_id e.headers custom.1.1.1.0) refl)
              refl)
            refl))

    -- The two cases of an identity field, joined.
    same_field :
        (field sent : Text)
        → (is_empty sent ≡ false → field ≡ sent)
        → (is_empty sent ≡ true → field ≡ [])
        → field ≡ sent
    same_field field [] keep gone = gone refl
    same_field field (c ∷ s) keep gone = keep refl

    -- An envelope whose custom headers have distinct keys, none of which folds to one of the four
    -- reserved keys, is received as it was sent: every field is the same, and a key that is not
    -- reserved has the values that it had.
    pub envelope_from_msg-to_msg :
        IsUnique e.headers
        → (j : Text) → All (λ key. text_eq key j ≡ false) reserved
        → (received.subject ≡ e.subject)
          × (received.reply ≡ e.reply)
          × (received.payload ≡ e.payload)
          × (received.event_id ≡ e.event_id)
          × (received.message_id ≡ e.message_id)
          × (received.schema_version ≡ e.schema_version)
          × (received.trace_id ≡ e.trace_id)
          × (values j received.headers ≡ values j e.headers)
    envelope_from_msg-to_msg unique j other =
        let (s, r, p, event_set, message_set, schema_set, trace_set) = received_fields in
        (
          s,
          r,
          p,
          same_field received.event_id e.event_id event_set first_event_id,
          same_field received.message_id e.message_id message_set first_message_id,
          same_field received.schema_version e.schema_version schema_set first_schema_version,
          same_field received.trace_id e.trace_id trace_set first_trace_id,
          same_values,
        )
      where
        same_values : values j received.headers ≡ values j e.headers
        same_values =
            unfold envelope_from_msg in
            rw (from_header_lem, header_lem j)
              (rw (values-to_header api e.headers j unique)
                (rw (other.0, other.1.0, other.1.1.0, other.1.1.1.0) (ground arith)))
