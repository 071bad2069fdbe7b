-- ===== src/Transcript/Session.antt =====
-- A session of a transcript: the user's texts, the provider's events and its history, in any order,
-- and a client that applies the patches.
use nvim_agents_zzz.Prelude.{
  ℕ, ◌≡◌, refl, Bool, true, inl, inr, String, Option, none, some, List, [], ◌∷◌, ◌>>=◌,
  if◌then◌else◌, ◌==◌, ==_iff,
}
use nvim_agents_zzz.Text.{Text}
use nvim_agents_zzz.Protocol.{Value, Provider, EventEnvelope}
use nvim_agents_zzz.Transcript.Lines.{Line}
use nvim_agents_zzz.Transcript.Splice.{Patch, splice_lines}
use nvim_agents_zzz.Transcript.{Transcript, next_revision, push_user, apply_event, replace_history}
use nvim_agents_zzz.Transcript.Rendered.{IsRendered, Follows}
use nvim_agents_zzz.Transcript.Mirror.{
  Succeeds, patched, Succeeds-cases, apply_event-Succeeds, push_user-Updates,
  replace_history-Updates,
}

-- What the broker does with a transcript.
pub data Operation : Type 0 where
  user_text : Text → Operation
  provider_event : EventEnvelope → Option String → Operation
  history : List Value → Provider → Option String → Operation

-- What a client keeps: the lines and the revision that it has reached; it takes a patch only when
-- the revision is the next one.
pub record Client : Type 0 where
  pub lines : List Line
  pub revision : ℕ

module _ (is_alphanumeric : ℕ → Bool) where
  abbrev pub step : Transcript → Operation → Option (Transcript × Option Patch)
  step t (user_text text) = push_user is_alphanumeric t text >>= λ r. some (r.0, some r.1)
  step t (provider_event event model) = apply_event is_alphanumeric t event model
  step t (history messages provider model) =
      replace_history is_alphanumeric t messages provider model >>= λ r. some (r.0, some r.1)

  step-Succeeds :
      (t : Transcript) (o : Operation)
      → IsRendered is_alphanumeric t
      → Succeeds is_alphanumeric t (step t o)
  step-Succeeds t (user_text text) v =
      let (t', p, e, u) = push_user-Updates is_alphanumeric t text v in rw e (patched t' p u)
  step-Succeeds t (provider_event event model) v =
      apply_event-Succeeds is_alphanumeric t event model v
  step-Succeeds t (history messages provider model) v =
      let (t', p, e, u, _) = replace_history-Updates is_alphanumeric t messages provider model in
      rw e (patched t' p u)

  -- The operations in turn, with the patches that they send.
  abbrev pub run : Transcript → List Operation → Option (Transcript × List Patch)
  run t [] = some (t, [])
  run t (o ∷ os) = do
    (t', sent) ← step t o
    (last, patches) ← run t' os
    some (last, elim sent as (λ _. List Patch) [ none ↦ patches | some p ↦ p ∷ patches ])

  -- What a client does with a patch; `none` when it is not the one that follows.
  abbrev pub receive : Client → Patch → Option Client
  receive c p =
      if p.revision == next_revision c.revision
      then some (record { lines = splice_lines c.lines p; revision = p.revision })
      else none

  abbrev pub receive_all : Client → List Patch → Option Client
  receive_all c [] = some c
  receive_all c (p ∷ ps) = receive c p >>= λ d. receive_all d ps

  abbrev pub client_of : Transcript → Client
  client_of t = record { lines = t.lines; revision = t.revision }

  receive-Follows :
      (t t' : Transcript) (p : Patch)
      → Follows is_alphanumeric t t' p
      → receive (client_of t) p ≡ some (client_of t')
  receive-Follows t t' p f =
      let next : (p.revision == next_revision t.revision) ≡ true = (==_iff _ _).1 f.revision in
      rw (next, f.patched, f.current) refl

  -- Whatever the user and the provider do, in any order, no operation panics, a client that was in
  -- step applies every patch and ends with the transcript's lines and revision, and the lines are
  -- the messages' again.
  pub run-receive_all :
      (t : Transcript) (operations : List Operation)
      → IsRendered is_alphanumeric t
      → (last : Transcript) × (patches : List Patch) × (run t operations ≡ some (last, patches))
        × (receive_all (client_of t) patches ≡ some (client_of last))
        × IsRendered is_alphanumeric last
  run-receive_all t [] v = (t, [], refl, refl, v)
  run-receive_all t (o ∷ os) v =
      elim (Succeeds-cases is_alphanumeric t (step t o) (step-Succeeds t o v)) [
        | inl e ↦
            let (last, patches, ran, received, shown) = run-receive_all t os v in
            (last, patches, rw (e, ran) refl, received, shown)
        | inr (t', p, e, u) ↦
            let (last, patches, ran, received, shown) = run-receive_all t' os u.rendered in
            (
              last,
              p ∷ patches,
              rw (e, ran) refl,
              rw (receive-Follows t t' p u.follows) received,
              shown,
            )
      ]
