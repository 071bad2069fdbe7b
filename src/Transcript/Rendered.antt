-- ===== src/Transcript/Rendered.antt =====
-- The lines of a transcript are its messages, rendered; every operation keeps that and never panics.
use nvim_agents_zzz.Prelude.{
  ℕ, zero, suc, ◌+◌, ◌≤◌, ◌≡◌, refl, sym, ap, ◌∙◌, Bool, some, List, [], ◌∷◌, ◌++◌, length, take,
  drop, set, get_elem?, All, All-append, length-append, append_assoc, append-nil, sum_by, le→leb,
  arith, drop_sum, drop_front, take-append, drop_all, take_all,
}
use nvim_agents_zzz.Transcript.Lines.{Line, Line-discrete}
use nvim_agents_zzz.Transcript.Messages.{Message, render_message}
use nvim_agents_zzz.Transcript.Splice.{Patch, patch_of, splice_lines}
use nvim_agents_zzz.Transcript.Splice.Trim.{splice_lines-patch_of}
use nvim_agents_zzz.Transcript.{Transcript, next_revision, splice, push_message, set_message}

module _ (is_alphanumeric : ℕ → Bool) where
  abbrev render : Message → List Line
  render m = render_message is_alphanumeric m

  -- All the lines of some messages.
  abbrev pub lines_of : List Message → List Line
  lines_of [] = []
  lines_of (m ∷ ms) = render_message is_alphanumeric m ++ lines_of ms

  abbrev pub IsCounted : Message → Type 0
  IsCounted m = m.line_count ≡ length (render_message is_alphanumeric m)

  pub record IsRendered (t : Transcript) : Type 0 where
    pub shown : t.lines ≡ lines_of t.messages
    pub counted : All IsCounted t.messages

  lines_of-append : (ms ns : List Message) → lines_of (ms ++ ns) ≡ lines_of ms ++ lines_of ns
  lines_of-append [] ns = refl
  lines_of-append (m ∷ ms) ns = rw (lines_of-append ms ns, append_assoc)

  -- The count of its lines is no part of how a message looks.
  render_count : (m : Message) (n : ℕ) → render (record m { line_count = n }) ≡ render m
  unfolding render_message
  render_count m n = refl

  unfoldable pub counted_message : Message → Message
  counted_message m = record m { line_count = length (render m) }

  pub counted_message-IsCounted : (m : Message) → IsCounted (counted_message m)
  unfolding counted_message
  counted_message-IsCounted m = ap length (sym (render_count m (length (render m))))

  pub render-counted_message : (m : Message) → render (counted_message m) ≡ render m
  unfolding counted_message
  render-counted_message m = render_count m (length (render m))

  -- A patch takes the one state's lines to the other's, and counts one revision more.
  pub record Follows (t t' : Transcript) (p : Patch) : Type 0 where
    pub patched : splice_lines t.lines p ≡ t'.lines
    pub revision : p.revision ≡ next_revision t.revision
    pub current : t'.revision ≡ p.revision

  splice-eq :
      (t : Transcript) (start end : ℕ) (lines : List Line)
      → start ≤ end
      → end ≤ length t.lines
      → splice t start end lines
        ≡ some (
          record t {
            lines = take start t.lines ++ lines ++ drop end t.lines;
            revision = next_revision t.revision;
          },
          patch_of Line-discrete (next_revision t.revision) t.lines start end lines,
        )
  unfolding splice
  splice-eq t start end lines h k = rw (
    le→leb _ _ h,
    le→leb _ _ k,
    splice_lines-patch_of Line-discrete (next_revision t.revision) t.lines start end lines h k,
  )

  -- What an operation has to reach: a rendered transcript, by a patch of the former one.
  pub record Updates (t t' : Transcript) (p : Patch) : Type 0 where
    pub rendered : IsRendered t'
    pub follows : Follows t t' p

  pub splice-Updates :
      (t : Transcript) (messages : List Message) (start end : ℕ) (lines : List Line)
      → start ≤ end
      → end ≤ length t.lines
      → take start t.lines ++ lines ++ drop end t.lines ≡ lines_of messages
      → All IsCounted messages
      → (t' : Transcript) × (p : Patch) × (splice (record t { messages = messages }) start end lines
          ≡ some (t', p))
        × Updates t t' p
        × (t'.messages ≡ messages)
  splice-Updates t messages start end lines h k shown counted =
      let revision = next_revision t.revision in
      let p = patch_of Line-discrete revision t.lines start end lines in
      let t' : Transcript = record {
        messages = messages;
        lines = take start t.lines ++ lines ++ drop end t.lines;
        revision = revision;
      } in
      (
        t',
        p,
        splice-eq (record t { messages = messages }) start end lines h k,
        record {
          rendered = record { shown = shown; counted = counted };
          follows = record {
            patched = splice_lines-patch_of Line-discrete revision t.lines start end lines h k;
            revision = unfold patch_of in refl;
            current = unfold patch_of in refl;
          };
        },
        refl,
      )

  -- A new message goes to the end.
  pub push_message-Updates :
      (t : Transcript) (m : Message)
      → IsRendered t
      → (t' : Transcript) × (p : Patch) × (push_message is_alphanumeric t m ≡ some (t', p))
        × Updates t t' p
        × (t'.messages
            ≡ t.messages
              ++ record m { line_count = length (render_message is_alphanumeric m) } ∷ [])
  unfolding push_message counted_message
  push_message-Updates t m v =
      let end = length t.lines in
      let shown : take end t.lines ++ render m ++ drop end t.lines
          ≡ lines_of (t.messages ++ counted_message m ∷ []) =
        rw
          (
            take_all t.lines,
            drop_all t.lines,
            lines_of-append t.messages (counted_message m ∷ []),
            render-counted_message m,
            v.shown,
          )
          (simp (append-nil, append_assoc)) in
      splice-Updates t (t.messages ++ counted_message m ∷ []) end end (render m) (omega arith)
        (omega arith) shown
        (All-append IsCounted t.messages (counted_message m ∷ []) v.counted
          (counted_message-IsCounted m, tt))

  -- The message at an index, between those before and after it.
  split_at :
      (ms : List Message) (at : ℕ) (m : Message)
      → get_elem? ms at ≡ some m
      → All IsCounted ms
      → (lines_of ms ≡ lines_of (take at ms) ++ render m ++ lines_of (drop (suc at) ms))
        × (sum_by (λ n. n.line_count) (take at ms) ≡ length (lines_of (take at ms)))
        × (m.line_count ≡ length (render m))
  split_at [] at m e c = cc
  split_at (n ∷ ms) zero m e c = let same : n ≡ m = cc in (rw same, refl, rw same at c.0)
  split_at (n ∷ ms) (suc at) m e c =
      let (a, b, d) = split_at ms at m e c.1 in
      (
        rw a (simp append_assoc),
        omega (arith, c.0, b, length-append (render n) (lines_of (take at ms))),
        d,
      )

  lines_of-set :
      (ms : List Message) (at : ℕ) (m n : Message)
      → get_elem? ms at ≡ some m
      → lines_of (set ms at n) ≡ lines_of (take at ms) ++ render n ++ lines_of (drop (suc at) ms)
  lines_of-set [] at m n e = cc
  lines_of-set (x ∷ ms) zero m n e = refl
  lines_of-set (x ∷ ms) (suc at) m n e = rw (lines_of-set ms at m n e) (simp append_assoc)

  All-set :
      (ms : List Message) (at : ℕ) (n : Message)
      → All IsCounted ms
      → IsCounted n
      → All IsCounted (set ms at n)
  All-set [] at n c h = tt
  All-set (x ∷ ms) zero n c h = (h, c.1)
  All-set (x ∷ ms) (suc at) n c h = (c.0, All-set ms at n c.1 h)

  -- A message in the place of another: only its own lines are replaced.
  pub set_message-Updates :
      (t : Transcript) (at : ℕ) (old m : Message)
      → get_elem? t.messages at ≡ some old
      → IsRendered t
      → (t' : Transcript) × (p : Patch) × (set_message is_alphanumeric t at m ≡ some (t', p))
        × Updates t t' p
        × (t'.messages
            ≡ set t.messages at
                (record m { line_count = length (render_message is_alphanumeric m) }))
  unfolding set_message counted_message
  set_message-Updates t at old m e v =
      let (whole, before, size) = split_at t.messages at old e v.counted in
      let front = lines_of (take at t.messages) in
      let back = lines_of (drop (suc at) t.messages) in
      let start = sum_by (λ n. n.line_count) (take at t.messages) in
      let end = start + old.line_count in
      let all : t.lines ≡ front ++ (render old ++ back) =
        v.shown ∙ whole ∙ append_assoc front (render old) back in
      let first : take start t.lines ≡ front =
        rw (all, before) (take-append front (render old ++ back)) in
      let middle : drop start t.lines ≡ render old ++ back =
        rw (all, before) (drop_front front (render old ++ back)) in
      let last : drop end t.lines ≡ back =
        drop_sum start old.line_count t.lines
        ∙ ap (drop old.line_count) middle
        ∙ ap (λ (n : ℕ). drop n (render old ++ back)) size
        ∙ drop_front (render old) back in
      rw e (
        splice-Updates t (set t.messages at (counted_message m)) start end (render m) (omega arith)
          (omega (
            arith,
            ap length all,
            before,
            size,
            length-append front (render old ++ back),
            length-append (render old) back,
          ))
          (rw (
            first,
            last,
            lines_of-set t.messages at old (counted_message m) e,
            render-counted_message m,
          ))
          (All-set t.messages at (counted_message m) v.counted (counted_message-IsCounted m)))
