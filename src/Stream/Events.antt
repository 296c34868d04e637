-- ===== src/Stream/Events.antt =====
-- internal/api/sse.go: the events that are read, against a description without the cap.
use one_llm_router.Prelude.{
  ℕ, ◌≤◌, ◌<◌, ◌≡◌, ◌⊎◌, inl, inr, refl, sym, ap, ◌∙◌, subst, Bool, true, false, not, ◌&&◌, Option,
  none, some, List, [], ◌∷◌, ◌++◌, ltb, leb, length, length-append, arith, if_intro, Bool-cases,
  if◌then◌else◌,
}
use mathlib.Core.List.{append-nil, append_assoc}
use one_llm_router.Stream.{
  Line, Forwarding, data_field, start_forwarding, joined, add_data, process_event, end_event,
  use_field, send_line, sse_field, forward_line, forward_lines, forward_sse, is_blank, is_comment,
}

module _ (cap : ℕ) where
  -- The data of an event that is not empty and within the cap.
  abbrev pub kept_event : Line → List Line → List Line
  kept_event event rest =
      if leb (length event) cap && not (is_blank event) then event ∷ rest else rest

  abbrev next_data : Option Line → Line → Line
  next_data none event = event
  next_data (some value) event = joined event value

  abbrev is_end : Option Line → Line → Bool
  is_end (some value) line = false
  is_end none line = is_blank line

  -- The events of a stream, each with all of its data, and then the ones within the cap.
  abbrev pub read_events : Line → List Line → List Line
  read_events event [] = kept_event event []
  read_events event (line ∷ lines) =
      let ended = kept_event event (read_events [] lines) in
      let same = read_events event lines in
      let more = read_events (next_data (sse_field line data_field) event) lines in
      if is_comment line
      then same
      else if is_end (sse_field line data_field) line
      then ended
      else more

  -- A state of the forwarding against all of the data of its event.
  abbrev Follows : Forwarding → Line → Type 0
  Follows s event =
      ((s.event_too_large ≡ false) × (s.event_data ≡ event) × (length event ≤ cap))
      ⊎ ((s.event_too_large ≡ true) × (cap < length event))

  joined-length : (event value : Line) → length event ≤ length (joined event value)
  joined-length [] value = omega arith
  joined-length (b ∷ event) value = omega (arith, length-append event (10 ∷ value))

  add_data-Follows :
      (value : Line) (s : Forwarding) (event : Line)
      → Follows s event
      → Follows (add_data cap value s) (joined event value)
  add_data-Follows value s event (inl (small, same, fits)) =
      rw small (elim (Bool-cases (ltb cap (length (joined s.event_data value)))) [
        | inl over ↦
            rw over (inr (refl, ground (arith, over, ap (λ e. length (joined e value)) same)))
        | inr within ↦ rw within (
            inl (
              refl,
              ap (λ e. joined e value) same,
              ground (arith, within, ap (λ e. length (joined e value)) same),
            ))
      ])
  add_data-Follows value s event (inr (large, over)) =
      rw large (inr (refl, omega (arith, over, joined-length event value)))

  process_event-kept :
      (s : Forwarding) (event : Line) (rest : List Line)
      → Follows s event
      → (process_event cap s).processed ++ rest ≡ s.processed ++ kept_event event rest
  process_event-kept s event rest (inl (small, same, fits)) =
      subst (λ ev. (process_event cap s).processed ++ rest ≡ s.processed ++ kept_event ev rest) same
        (elim (Bool-cases (is_blank s.event_data)) [
          | inl blank ↦ ground (arith, blank)
          | inr full ↦
              let within : leb (length s.event_data) cap ≡ true =
                ground (arith, fits, ap length same) in
              rw (small, full, within) (append_assoc s.processed (s.event_data ∷ []) rest)
        ])
  process_event-kept s event rest (inr (large, over)) =
      let outside : leb (length event) cap ≡ false = ground (arith, over) in
      rw (large, outside) refl

  add_data-processed :
      (value : Line) (s : Forwarding) → (add_data cap value s).processed ≡ s.processed
  add_data-processed value s =
      if_intro (λ (r : Forwarding). r.processed ≡ s.processed) s.event_too_large (λ t. refl)
        (λ f.
          if_intro (λ (r : Forwarding). r.processed ≡ s.processed)
            (ltb cap (length (joined s.event_data value))) (λ t. refl) (λ f. refl))

  -- What the rest of the lines gives, from any state.
  abbrev Continues : List Line → Type 0
  Continues lines =
      (s : Forwarding) (event : Line)
      → Follows s event
      → (process_event cap (forward_lines cap lines s)).processed
        ≡ s.processed ++ read_events event lines

  no_field-read_events :
      (lines : List Line)
      → Continues lines
      → (blank : Bool) (line : Line) (s : Forwarding) (event : Line) → Follows s event
      → (process_event cap (
          forward_lines cap lines (
            if blank
            then end_event cap (send_line cap line s)
            else send_line cap line s))).processed
        ≡ s.processed
          ++ (if blank then kept_event event (read_events [] lines) else read_events event lines)
  no_field-read_events lines again true line s event f =
      again (end_event cap (send_line cap line s)) [] (inl (refl, refl, omega arith))
      ∙ process_event-kept (send_line cap line s) event (read_events [] lines) f
  no_field-read_events lines again false line s event f = again (send_line cap line s) event f

  use_field-read_events :
      (lines : List Line)
      → Continues lines
      → (o : Option Line) (line : Line) (s : Forwarding) (event : Line) → Follows s event
      → (process_event cap
          (forward_lines cap lines (use_field cap o line (send_line cap line s)))).processed
        ≡ s.processed
          ++ (if is_end o line
              then kept_event event (read_events [] lines)
              else read_events (next_data o event) lines)
  use_field-read_events lines again (some value) line s event f =
      again (add_data cap value (send_line cap line s)) (joined event value)
        (add_data-Follows value (send_line cap line s) event f)
      ∙ ap (λ l. l ++ read_events (joined event value) lines)
          (add_data-processed value (send_line cap line s))
  use_field-read_events lines again none line s event f =
      no_field-read_events lines again (is_blank line) line s event f

  forward_line-read_events :
      (lines : List Line)
      → Continues lines
      → (comment : Bool) (line : Line) (s : Forwarding) (event : Line) → Follows s event
      → (process_event cap (
          forward_lines cap lines (
            if comment
            then send_line cap line s
            else use_field cap (sse_field line data_field) line (send_line cap line s)))).processed
        ≡ s.processed
          ++ (if comment
              then read_events event lines
              else if is_end (sse_field line data_field) line
              then kept_event event (read_events [] lines)
              else read_events (next_data (sse_field line data_field) event) lines)
  forward_line-read_events lines again true line s event f = again (send_line cap line s) event f
  forward_line-read_events lines again false line s event f =
      use_field-read_events lines again (sse_field line data_field) line s event f

  forward_lines-read_events : (lines : List Line) → Continues lines
  unfolding forward_lines forward_line
  forward_lines-read_events [] s event f = sym (append-nil _) ∙ process_event-kept s event [] f
  forward_lines-read_events (line ∷ lines) s event f =
      forward_line-read_events lines (forward_lines-read_events lines) (is_comment line) line s
        event f

  -- The events that are read from a stream are those of its blocks, each with all of its data lines,
  -- that are not empty and within the cap; in order, and whatever came before them.
  pub forward_sse_lem :
      (lines : List Line) → (forward_sse cap lines).processed ≡ read_events [] lines
  unfolding forward_sse
  forward_sse_lem lines =
      forward_lines-read_events lines start_forwarding [] (inl (refl, refl, omega arith))
