-- ===== src/Transcript/Mirror.antt =====
-- A client that applies the patches in turn shows the broker's transcript.
use nvim_agents_zzz.Prelude.{
  ℕ, suc, ◌-◌, ◌≡◌, refl, sym, ap, Bool, true, false, String, Option, none, some, List, [], ◌∷◌,
  ◌++◌, length, get_elem?, get_last?, ◌>>=◌, Option-cases, Bool-cases, inl, inr, str_eq, ◌==◌,
  arith, ◌⊎◌, unwrap_or, All, append-nil, drop_all,
}
use nvim_agents_zzz.Text.{Text}
use nvim_agents_zzz.Protocol.{Value, Provider, EventEnvelope}
use nvim_agents_zzz.Transcript.Lines.{Line}
use nvim_agents_zzz.Transcript.Messages.{Message, assistant, project_history, text_from}
use nvim_agents_zzz.Transcript.Splice.{Patch}
use nvim_agents_zzz.Transcript.{
  Transcript, streaming_assistant, push_message, set_message, push_user, on_delta, on_completed,
  on_turn_end, completed_text, apply_event, render_all, replace_history,
}
use nvim_agents_zzz.Transcript.Rendered.{
  IsRendered, IsCounted, lines_of, Updates, splice-Updates, push_message-Updates,
  set_message-Updates, counted_message, counted_message-IsCounted, render-counted_message,
}

get_elem?-get_last? {ℓ} :
    {A : Type ℓ} (xs : List A) (x : A)
    → get_last? xs ≡ some x
    → get_elem? xs (length xs - 1) ≡ some x
get_elem?-get_last? [] x h = cc
get_elem?-get_last? (y ∷ []) x h = h
get_elem?-get_last? (y ∷ z ∷ xs) x h =
    let e : suc (suc (length xs)) - 1 ≡ suc (suc (length xs) - 1) = omega arith in
    rw e (get_elem?-get_last? (z ∷ xs) x h)

-- A streamed message is the last one, and the assistant's.
pub streaming_assistant-some :
    (t : Transcript) (at : ℕ)
    → streaming_assistant t ≡ some at
    → (m : Message) × (get_elem? t.messages at ≡ some m)
      × (m.role ≡ assistant)
      × (m.streaming ≡ true)
      × (at ≡ length t.messages - 1)
unfolding streaming_assistant
streaming_assistant-some t at h = elim (Option-cases (get_last? t.messages)) [
  | inl e ↦ absurd (ground (arith, e))
  | inr (m, e) ↦
      let found = get_elem?-get_last? t.messages m e in
      let index : length t.messages - 1 ≡ at = ground (arith, e) in
      (m, rw index at found, ground (arith, e), ground (arith, e), sym index)
]

module _ (is_alphanumeric : ℕ → Bool) where
  -- An operation that does not panic: it leaves the transcript as it is, or updates it by a patch.
  pub data Succeeds (t : Transcript) : Option (Transcript × Option Patch) → Type 0 where
    unchanged : Succeeds t (some (t, none))
    patched :
        (t' : Transcript) (p : Patch)
        → Updates is_alphanumeric t t' p
        → Succeeds t (some (t', some p))

  -- The two outcomes, and that there is no other.
  pub Succeeds-cases :
      (t : Transcript) (outcome : Option (Transcript × Option Patch))
      → Succeeds t outcome
      → (outcome ≡ some (t, none))
        ⊎ ((t' : Transcript) × (p : Patch) × (outcome ≡ some (t', some p))
            × Updates is_alphanumeric t t' p)
  Succeeds-cases t _ unchanged = inl refl
  Succeeds-cases t _ (patched t' p u) = inr (t', p, refl, u)

  push-Succeeds :
      (t : Transcript) (m : Message)
      → IsRendered is_alphanumeric t
      → Succeeds t (push_message is_alphanumeric t m >>= λ r. some (r.0, some r.1))
  push-Succeeds t m v =
      let (t', p, e, u, _) = push_message-Updates is_alphanumeric t m v in rw e (patched t' p u)

  set-Succeeds :
      (t : Transcript) (at : ℕ) (f : Message → Message)
      → IsRendered is_alphanumeric t
      → streaming_assistant t ≡ some at
      → Succeeds t (
          get_elem? t.messages at >>= λ m.
          set_message is_alphanumeric t at (f m) >>= λ r. some (r.0, some r.1))
  set-Succeeds t at f v s =
      let (old, found, _, _, _) = streaming_assistant-some t at s in
      let (t', p, e, u, _) = set_message-Updates is_alphanumeric t at old (f old) found v in
      rw (found, e) (patched t' p u)

  on_delta-Succeeds :
      (t : Transcript) (event : EventEnvelope) (model : Option String)
      → IsRendered is_alphanumeric t
      → Succeeds t (on_delta is_alphanumeric t event model)
  unfolding on_delta
  on_delta-Succeeds t event model v = elim (Option-cases (streaming_assistant t)) [
    | inl e ↦ rw (e, on_delta) (push-Succeeds t _ v)
    | inr (at, e) ↦ elim (Bool-cases (length (unwrap_or (text_from event.payload) []) == 0)) [
      | inl nothing ↦ rw (e, on_delta, nothing) unchanged
      | inr more ↦
          rw (e, on_delta, more)
            (set-Succeeds t at
              (λ m. record m { text = m.text ++ unwrap_or (text_from event.payload) [] }) v e)
    ]
  ]

  on_completed-Succeeds :
      (t : Transcript) (event : EventEnvelope) (model : Option String)
      → IsRendered is_alphanumeric t
      → Succeeds t (on_completed is_alphanumeric t event model)
  unfolding on_completed
  on_completed-Succeeds t event model v = elim (Option-cases (streaming_assistant t)) [
    | inl e ↦ elim (Option-cases (text_from event.payload)) [
      | inl nothing ↦ rw (e, on_completed, nothing) unchanged
      | inr (text, some_text) ↦ rw (e, on_completed, some_text) (push-Succeeds t _ v)
    ]
    | inr (at, e) ↦
        rw (e, on_completed)
          (set-Succeeds t at
            (λ m. record m {
              text = completed_text is_alphanumeric m (text_from event.payload);
              streaming = false;
            })
            v e)
  ]

  on_turn_end-Succeeds :
      (t : Transcript) → IsRendered is_alphanumeric t → Succeeds t (on_turn_end is_alphanumeric t)
  unfolding on_turn_end
  on_turn_end-Succeeds t v = elim (Option-cases (streaming_assistant t)) [
    | inl e ↦ rw (e, on_turn_end) unchanged
    | inr (at, e) ↦
        rw (e, on_turn_end) (set-Succeeds t at (λ m. record m { streaming = false }) v e)
  ]

  pub apply_event-Succeeds :
      (t : Transcript) (event : EventEnvelope) (model : Option String)
      → IsRendered is_alphanumeric t
      → Succeeds t (apply_event is_alphanumeric t event model)
  unfolding apply_event
  apply_event-Succeeds t event model v =
      elim (Bool-cases (str_eq event.event_type "message.delta")) [
        | inl e ↦ rw e (on_delta-Succeeds t event model v)
        | inr e ↦ rw e (elim (Bool-cases (str_eq event.event_type "message.completed")) [
          | inl f ↦ rw f (on_completed-Succeeds t event model v)
          | inr f ↦ rw f (elim (Bool-cases (str_eq event.event_type "turn.completed")) [
            | inl g ↦ rw g (on_turn_end-Succeeds t v)
            | inr g ↦ rw g (elim (Bool-cases (str_eq event.event_type "turn.failed")) [
              | inl h ↦ rw h (on_turn_end-Succeeds t v)
              | inr h ↦ rw h unchanged
            ])
          ])
        ])
      ]

  render_all-Counted :
      (ms : List Message)
      → ((render_all is_alphanumeric ms).1
          ≡ lines_of is_alphanumeric (render_all is_alphanumeric ms).0)
        × All (IsCounted is_alphanumeric) (render_all is_alphanumeric ms).0
  unfolding render_all counted_message
  render_all-Counted [] = (refl, tt)
  render_all-Counted (m ∷ ms) =
      let (shown, counted) = render_all-Counted ms in
      (
        rw shown (
            ap
              (λ (ls : List Line). ls ++ lines_of is_alphanumeric (render_all is_alphanumeric ms).0)
              (sym (render-counted_message is_alphanumeric m))),
        (counted_message-IsCounted is_alphanumeric m, counted),
      )

  -- The provider's history takes the place of everything that was shown.
  pub replace_history-Updates :
      (t : Transcript) (messages : List Value) (provider : Provider) (model : Option String)
      → (t' : Transcript) × (p : Patch) × (replace_history is_alphanumeric t messages provider model
          ≡ some (t', p))
        × Updates is_alphanumeric t t' p
        × (t'.messages ≡ (render_all is_alphanumeric (project_history provider model messages)).0)
  unfolding replace_history
  replace_history-Updates t messages provider model =
      let ms = project_history provider model messages in
      let (shown, counted) = render_all-Counted ms in
      splice-Updates is_alphanumeric t (render_all is_alphanumeric ms).0 0 (length t.lines)
        (render_all is_alphanumeric ms).1 (omega arith) (omega arith)
        (rw (drop_all t.lines, append-nil) shown) counted

  pub push_user-Updates :
      (t : Transcript) (text : Text)
      → IsRendered is_alphanumeric t
      → (t' : Transcript) × (p : Patch) × (push_user is_alphanumeric t text ≡ some (t', p))
        × Updates is_alphanumeric t t' p
  unfolding push_user
  push_user-Updates t text v =
      let (t', p, e, u, _) = push_message-Updates is_alphanumeric t _ v in (t', p, e, u)
