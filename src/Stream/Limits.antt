-- ===== src/Stream/Limits.antt =====
-- internal/api/sse.go: what the forwarding of events keeps.
use one_llm_router.Prelude.{
  ℕ, ◌≤◌, ◌≡◌, In, In-append, inl, inr, false, not, ◌&&◌, Option, none, some, List, [], ◌∷◌, ltb,
  length, arith, if_intro, Bool-cases,
}
use one_llm_router.Stream.{
  Line, Forwarding, data_field, start_forwarding, joined, add_data, process_event, end_event,
  use_field, send_line, sse_field, forward_line, forward_lines, forward_sse, is_blank, is_comment,
}

module _ (cap : ℕ) where
  -- The data that is kept and every event that was read are within the cap.
  record IsBounded (s : Forwarding) : Type 0 where
    pub kept : length s.event_data ≤ cap
    pub read :
        (event : Line) → In event s.processed → (length event ≤ cap) × (is_blank event ≡ false)

  add_data-IsBounded :
      (value : Line) (s : Forwarding) → IsBounded s → IsBounded (add_data cap value s)
  add_data-IsBounded value s b =
      if_intro IsBounded s.event_too_large (λ t. b)
        (λ f. elim (Bool-cases (ltb cap (length (joined s.event_data value)))) [
          | inl over ↦ rw over (record { kept = omega arith; read = b.read })
          | inr fits ↦ rw fits (record { kept = ground (arith, fits); read = b.read })
        ])

  process_event-IsBounded : (s : Forwarding) → IsBounded s → IsBounded (process_event cap s)
  process_event-IsBounded s b =
      elim (Bool-cases (not s.event_too_large && not (is_blank s.event_data))) [
        | inl t ↦ rw t (record {
          kept = b.kept;
          read = λ event i. elim (In-append event s.processed (s.event_data ∷ []) i) [
            | inl before ↦ b.read event before
            | inr own ↦ elim own [
              | inl e ↦ rw e (b.kept, ground (arith, t))
              | inr nobody ↦ absurd nobody
            ]
          ];
        })
        | inr f ↦ rw f b
      ]

  end_event-IsBounded : (s : Forwarding) → IsBounded s → IsBounded (end_event cap s)
  end_event-IsBounded s b = record { kept = omega arith; read = (process_event-IsBounded s b).read }

  use_field-IsBounded :
      (o : Option Line) (line : Line) (s : Forwarding)
      → IsBounded s
      → IsBounded (use_field cap o line s)
  use_field-IsBounded (some value) line s b = add_data-IsBounded value s b
  use_field-IsBounded none line s b =
      if_intro IsBounded (is_blank line) (λ t. end_event-IsBounded s b) (λ f. b)

  send_line-IsBounded :
      (line : Line) (s : Forwarding) → IsBounded s → IsBounded (send_line cap line s)
  send_line-IsBounded line s b = record { kept = b.kept; read = b.read }

  forward_lines-IsBounded :
      (lines : List Line) (s : Forwarding) → IsBounded s → IsBounded (forward_lines cap lines s)
  unfolding forward_lines forward_line
  forward_lines-IsBounded [] s b = b
  forward_lines-IsBounded (line ∷ lines) s b =
      forward_lines-IsBounded lines (forward_line cap line s) (
        if_intro IsBounded (is_comment line) (λ t. send_line-IsBounded line s b)
          (λ f.
            use_field-IsBounded (sse_field line data_field) line (send_line cap line s)
              (send_line-IsBounded line s b)))

  -- Every event that is read from a stream is not empty and within the cap, whatever the lines are.
  pub events_bounded :
      (lines : List Line) (event : Line)
      → In event (forward_sse cap lines).processed
      → (length event ≤ cap) × (is_blank event ≡ false)
  unfolding forward_sse
  events_bounded lines event i =
      (process_event-IsBounded _ (
          forward_lines-IsBounded lines start_forwarding
            (record { kept = omega arith; read = λ e n. absurd n }))).read
        event i
