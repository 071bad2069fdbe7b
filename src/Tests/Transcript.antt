-- ===== src/Tests/Transcript.antt =====
-- A transcript's session at concrete inputs.
use nvim_agents_zzz.Prelude.{
  ℕ, ◌≡◌, refl, Bool, ◌&&◌, ◌||◌, String, some, List, [], ◌∷◌, ◌++◌, take, drop, map, leb, arith,
  ℕ_discrete,
}
use nvim_agents_zzz.Text.{codes}
use nvim_agents_zzz.Protocol.{codex, Fields, Value, new_event}
use nvim_agents_zzz.Transcript.{Transcript, empty}
use nvim_agents_zzz.Transcript.Splice.{Patch, splice_lines, patch_of, common}
use nvim_agents_zzz.Transcript.Splice.Trim.{splice_lines-patch_of}
use nvim_agents_zzz.Transcript.Markdown.{style_lines}
use nvim_agents_zzz.Transcript.Styled.{style_lines-take}
use nvim_agents_zzz.Transcript.Rendered.{IsRendered}
use nvim_agents_zzz.Transcript.Session.{
  Operation, user_text, provider_event, run, receive_all, client_of, run-receive_all,
}

abbrev ascii_alphanumeric : ℕ → Bool
ascii_alphanumeric c =
    (leb 0x30 c && leb c 0x39) || (leb 0x41 c && leb c 0x5a) || (leb 0x61 c && leb c 0x7a)

abbrev spoken : String → String → Operation
spoken kind text =
    provider_event
      (new_event "2026-08-31T18:00:00Z" "agent-1" codex kind
        (Value.object (Fields.field "text" (Value.string text) Fields.end))
        (Value.object Fields.end))
      (some "gpt-5")

-- A question, an answer in two deltas, its final text, and the end of the turn.
abbrev turn : List Operation
turn =
    user_text (codes "hi `there`")
    ∷ spoken "message.delta" "# An"
    ∷ spoken "message.delta" "swer"
    ∷ spoken "message.completed" "# Answer"
    ∷ spoken "turn.completed" ""
    ∷ []

run-receive_all_example :
    (last : Transcript) × (patches : List Patch) × (run ascii_alphanumeric empty turn
      ≡ some (last, patches))
    × (receive_all ascii_alphanumeric (client_of ascii_alphanumeric empty) patches
        ≡ some (client_of ascii_alphanumeric last))
    × IsRendered ascii_alphanumeric last
run-receive_all_example =
    run-receive_all ascii_alphanumeric empty turn (record { shown = refl; counted = tt })

-- Of three lines only the one in the middle differs.
splice_lines-patch_of_example :
    splice_lines (1 ∷ 2 ∷ 3 ∷ []) (patch_of ℕ_discrete 1 (1 ∷ 2 ∷ 3 ∷ []) 0 3 (1 ∷ 9 ∷ 3 ∷ []))
    ≡ take 0 (1 ∷ 2 ∷ 3 ∷ []) ++ (1 ∷ 9 ∷ 3 ∷ []) ++ drop 3 (1 ∷ 2 ∷ 3 ∷ [])
splice_lines-patch_of_example =
    splice_lines-patch_of ℕ_discrete 1 (1 ∷ 2 ∷ 3 ∷ []) 0 3 (1 ∷ 9 ∷ 3 ∷ []) (omega arith)
      (omega arith)

middle_only :
    patch_of ℕ_discrete 1 (1 ∷ 2 ∷ 3 ∷ []) 0 3 (1 ∷ 9 ∷ 3 ∷ [])
    ≡ record { revision = 1; start = 1; end = 2; lines = 9 ∷ [] }
unfolding patch_of common ℕ_discrete
middle_only = refl

-- A fence that a later line would close.
style_lines-take_example :
    (map
        (λ line. line.text)
        (style_lines ascii_alphanumeric
          ((codes "```rust" ∷ codes "# no heading" ∷ []) ++ codes "```" ∷ []))
      ≡ (codes "```rust" ∷ codes "# no heading" ∷ []) ++ codes "```" ∷ [])
    × (take 2 (
          style_lines ascii_alphanumeric
            ((codes "```rust" ∷ codes "# no heading" ∷ []) ++ codes "```" ∷ []))
        ≡ style_lines ascii_alphanumeric (codes "```rust" ∷ codes "# no heading" ∷ []))
style_lines-take_example =
    style_lines-take ascii_alphanumeric (codes "```rust" ∷ codes "# no heading" ∷ [])
      (codes "```" ∷ [])
