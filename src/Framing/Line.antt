-- ===== src/Framing/Line.antt =====
-- A bounded line of the whole stream, however the stream arrives.
use nvim_agents_zzz.Prelude.{
  ℕ, zero, suc, ◌+◌, ◌≤◌, ◌<◌, ◌≡◌, refl, ap, sym, ◌∙◌, none, some, List, [], ◌∷◌, ◌++◌, ltb, ◌==◌,
  if◌then◌else◌, length, unwrap_or, lt→ltb, ltb→lt, le→ltb, length-append, length-take, drop, take,
  take_all, drop_front, append_assoc, append-nil, Bool-cases, Option-cases, inl, inr, arith,
}
use nvim_agents_zzz.Framing.{
  BufRead, BoundedFrame, frame, too_large, Outcome, ok, io_failed, newline, position, is_newline,
  gather, at_end, read_bounded_line,
}

-- The bytes up to the first newline, without it and with it.
abbrev pub before_newline : List ℕ → List ℕ
before_newline [] = []
before_newline (b ∷ bs) = let rest = before_newline bs in if b == newline then [] else b ∷ rest

abbrev pub first_line : List ℕ → List ℕ
first_line [] = []
first_line (b ∷ bs) = let rest = first_line bs in if b == newline then b ∷ [] else b ∷ rest

-- What reading the first line of a stream has to give, after `gathered`.
abbrev pub line_of : ℕ → List ℕ → List ℕ → BoundedFrame
line_of max gathered bytes =
    if ltb max (length gathered + length (before_newline bytes))
    then too_large
    else at_end (gathered ++ first_line bytes)

before-none :
    (bs rest : List ℕ)
    → position is_newline bs ≡ none
    → (before_newline (bs ++ rest) ≡ bs ++ before_newline rest)
      × (first_line (bs ++ rest) ≡ bs ++ first_line rest)
unfolding position
before-none [] rest h = (refl, refl)
before-none (b ∷ bs) rest h = ground (arith, before-none bs rest)

before-some :
    (bs rest : List ℕ) (i : ℕ)
    → position is_newline bs ≡ some i
    → (length (before_newline (bs ++ rest)) ≡ i)
      × (first_line (bs ++ rest) ≡ take (suc i) bs)
      × (i < length bs)
unfolding position
before-some [] rest i h = cc
before-some (b ∷ bs) rest i h = elim (Option-cases (position is_newline bs)) [
  | inl e ↦ ground (arith, e)
  | inr (j, e) ↦ ground (arith, e, before-some bs rest j e)
]

line_of-some :
    (max : ℕ) (gathered bs rest : List ℕ) (i : ℕ)
    → position is_newline bs ≡ some i
    → line_of max gathered (bs ++ rest)
      ≡ (if ltb max (length gathered + i) then too_large else at_end (gathered ++ take (suc i) bs))
line_of-some max gathered bs rest i e =
    let (size, text, _) = before-some bs rest i e in rw (size, text)

line_of-large :
    (max : ℕ) (gathered bs rest : List ℕ)
    → position is_newline bs ≡ none
    → max < length gathered + length bs
    → line_of max gathered (bs ++ rest) ≡ too_large
line_of-large max gathered bs rest e h =
    let (size, _) = before-none bs rest e in
    ground (arith, ap length size, length-append bs (before_newline rest))

line_of-more :
    (max : ℕ) (gathered bs rest : List ℕ)
    → position is_newline bs ≡ none
    → line_of max gathered (bs ++ rest) ≡ line_of max (gathered ++ bs) rest
line_of-more max gathered bs rest e =
    let (size, text) = before-none bs rest e in
    let sizes : length gathered + length (before_newline (bs ++ rest))
        ≡ length (gathered ++ bs) + length (before_newline rest) =
      omega (
        arith,
        ap length size,
        length-append bs (before_newline rest),
        length-append gathered bs,
      ) in
    rw (sizes, text, append_assoc)

line_of-end :
    (max : ℕ) (gathered : List ℕ)
    → length gathered ≤ max
    → line_of max gathered [] ≡ at_end gathered
line_of-end max gathered h = rw append-nil (ground arith)

at_end-append :
    (gathered : List ℕ) (c : ℕ) (cs : List ℕ)
    → at_end (gathered ++ c ∷ cs) ≡ frame (gathered ++ c ∷ cs)
at_end-append [] c cs = refl
at_end-append (g ∷ gs) c cs = refl

drop-append_sum : (n : ℕ) (bs rest : List ℕ) → drop (length bs + n) (bs ++ rest) ≡ drop n rest
drop-append_sum n [] rest = let e : 0 + n ≡ n = omega arith in rw e
drop-append_sum n (b ∷ bs) rest =
    let e : suc (length bs) + n ≡ suc (length bs + n) = omega arith in
    rw e (drop-append_sum n bs rest)

module _ (io : BufRead) where
  open io use {Reader, fill_buf, consume, contents, fill_buf_front, fill_buf_end, consume_drop}

  -- The outcome is the line, with what follows it left in the reader, or an I/O error.
  pub data Reads (max : ℕ) (gathered : List ℕ) (bytes : List ℕ) : Outcome Reader → Type 0 where
    oversized :
        (reader : Reader)
        → line_of max gathered bytes ≡ too_large
        → Reads max gathered bytes (ok too_large reader)
    line :
        (f : BoundedFrame) (reader : Reader)
        → line_of max gathered bytes ≡ f
        → contents reader ≡ drop (length (first_line bytes)) bytes
        → Reads max gathered bytes (ok f reader)
    failed : (r : Reader) → fill_buf r ≡ none → Reads max gathered bytes io_failed

  Reads-more :
      (max : ℕ) (gathered bs rest : List ℕ) {o : Outcome Reader}
      → position is_newline bs ≡ none
      → Reads max (gathered ++ bs) rest o
      → Reads max gathered (bs ++ rest) o
  Reads-more max gathered bs rest e (oversized r p) =
      oversized r (line_of-more max gathered bs rest e ∙ p)
  Reads-more max gathered bs rest e (line f r p q) =
      let (_, text) = before-none bs rest e in
      line f r (line_of-more max gathered bs rest e ∙ p)
        (rw (text, length-append, drop-append_sum) q)
  Reads-more max gathered bs rest e (failed r p) = failed r p

  module _ (fuel max : ℕ) (gathered : List ℕ) (reader : Reader) (c : ℕ) (cs : List ℕ)
      (reader' : Reader) (e : fill_buf reader ≡ some (c ∷ cs, reader')) where
    gather-large :
        max < length gathered + unwrap_or (position is_newline (c ∷ cs)) (length (c ∷ cs))
        → gather io (suc fuel) max gathered reader ≡ ok too_large reader'
    unfolding gather
    gather-large h = rw (e, gather) (rw (lt→ltb _ _ h))

    gather-more :
        position is_newline (c ∷ cs) ≡ none
        → length gathered + length (c ∷ cs) ≤ max
        → gather io (suc fuel) max gathered reader
          ≡ gather io fuel max (gathered ++ c ∷ cs) (consume (length (c ∷ cs)) reader')
    unfolding gather
    gather-more missing h = rw (e, gather, missing, le→ltb _ _ h, missing) (rw (take_all (c ∷ cs)))

    gather-found :
        (i : ℕ)
        → position is_newline (c ∷ cs) ≡ some i
        → length gathered + i ≤ max
        → gather io (suc fuel) max gathered reader
          ≡ ok (frame (gathered ++ take (suc i) (c ∷ cs))) (consume (suc i) reader')
    unfolding gather
    gather-found i found h =
        let one : i + 1 ≡ suc i = omega arith in rw (e, gather) (ground (arith, found, one))

    -- One round on some bytes, given what the rounds after it do.
    round-Reads :
        (rest : List ℕ)
        → contents reader ≡ c ∷ cs ++ rest
        → contents reader' ≡ c ∷ cs ++ rest
        → length (contents reader) < suc fuel
        → ((g : List ℕ) (r : Reader)
            → length g ≤ max
            → length (contents r) < fuel
            → Reads max g (contents r) (gather io fuel max g r))
        → Reads max gathered (contents reader) (gather io (suc fuel) max gathered reader)
    round-Reads rest p q h rounds = elim (Option-cases (position is_newline (c ∷ cs))) [
      | inl missing ↦ elim (Bool-cases (ltb max (length gathered + length (c ∷ cs)))) [
        | inl large ↦
            let over = ltb→lt max (length gathered + length (c ∷ cs)) large in
            rw (gather-large (rw missing over), p)
              (oversized reader' (line_of-large max gathered (c ∷ cs) rest missing over))
        | inr fits ↦
            let size : length gathered + length (c ∷ cs) ≤ max = ground arith in
            let next = consume (length (c ∷ cs)) reader' in
            let left : contents next ≡ rest =
              consume_drop reader (c ∷ cs) reader' (length (c ∷ cs)) e (omega arith)
              ∙ ap (drop (length (c ∷ cs))) q
              ∙ drop_front (c ∷ cs) rest in
            let more =
              rounds (gathered ++ c ∷ cs) next (omega (arith, length-append gathered (c ∷ cs)))
                (omega (arith, ap length left, ap length p, length-append (c ∷ cs) rest)) in
            rw (gather-more missing size, p)
              (Reads-more max gathered (c ∷ cs) rest missing (rw left at more))
      ]
      | inr (i, found) ↦
          let (_, text, inside) = before-some (c ∷ cs) rest i found in
          let result = line_of-some max gathered (c ∷ cs) rest i found in
          elim (Bool-cases (ltb max (length gathered + i))) [
            | inl large ↦
                rw (gather-large (rw found (ltb→lt max (length gathered + i) large)), p)
                  (oversized reader' (rw large at result))
            | inr fits ↦
                let size : length gathered + i ≤ max = ground arith in
                let left =
                  consume_drop reader (c ∷ cs) reader' (suc i) e inside ∙ ap (drop (suc i)) q in
                let taken : length (take (suc i) (c ∷ cs)) ≡ suc i =
                  omega (arith, length-take (suc i) (c ∷ cs)) in
                rw (gather-found i found size, p)
                  (line (frame (gathered ++ take (suc i) (c ∷ cs))) (consume (suc i) reader')
                    (rw fits at result ∙ at_end-append gathered c (take i cs))
                    (left ∙ ap (λ (n : ℕ). drop n (c ∷ cs ++ rest)) (sym (ap length text ∙ taken))))
          ]
    ]

  gather-Reads :
      (fuel max : ℕ) (gathered : List ℕ) (reader : Reader)
      → length gathered ≤ max
      → length (contents reader) < fuel
      → Reads max gathered (contents reader) (gather io fuel max gathered reader)
  unfolding gather
  gather-Reads zero max gathered reader small h = absurd (omega arith)
  gather-Reads (suc fuel) max gathered reader small h = elim (Option-cases (fill_buf reader)) [
    | inl e ↦ rw (e, gather) (failed reader e)
    | inr (([], reader'), e) ↦
        let (rest, p, q) = fill_buf_front reader [] reader' e in
        let nil = fill_buf_end reader reader' e in
        rw (e, gather, nil)
          (line (at_end gathered) reader' (line_of-end max gathered small) (q ∙ sym p ∙ nil))
    | inr ((c ∷ cs, reader'), e) ↦
        let (rest, p, q) = fill_buf_front reader (c ∷ cs) reader' e in
        round-Reads fuel max gathered reader c cs reader' e rest p q h
          (λ g r small' short. gather-Reads fuel max g r small' short)
  ]

  -- Whatever pieces the stream arrives in, with more fuel than it has bytes, reading a bounded line
  -- gives what the whole stream says: nothing at its end, too large if more than the bound stands
  -- before the first newline, and otherwise the bytes up to and with that newline (or up to the
  -- end), with exactly the bytes after them left in the reader. An I/O error is the only other
  -- outcome, and only where the reader itself failed.
  pub read_bounded_line-Reads :
      (fuel max_payload_bytes : ℕ) (reader : Reader)
      → length (contents reader) < fuel
      → Reads max_payload_bytes []
          (contents reader)
          (read_bounded_line io fuel max_payload_bytes reader)
  unfolding read_bounded_line
  read_bounded_line-Reads fuel max reader h = gather-Reads fuel max [] reader (omega arith) h
