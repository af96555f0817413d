-- ===== src/Chunker/Bounds.antt =====
-- backend/app/kb/chunker.py: the loop ends, and how long a chunk is.
use wecom_ai_agent.Prelude.{
  ℕ, zero, suc, ◌+◌, ◌-◌, ◌≤◌, ◌<◌, ◌≡◌, refl, inl, inr, some, List, [], ◌∷◌, arith, not, leb,
  if_elim, is_empty, take, drop, length, map, Bool-cases, All, All-append, All-keep, length-append,
  length-take-le,
}
use wecom_ai_agent.Prelude.Text.{Text, strip, lstrip, rstrip}
use wecom_ai_agent.Chunker.{
  Chunks, push, flush, hard_cut, tail_of, join_piece, add_pieces, strip_all, finish, chunk,
  pieces_from,
}

length-drop : {A : Type 0} (n : ℕ) (xs : List A) → length (drop n xs) ≡ length xs - n
length-drop zero xs = omega arith
length-drop (suc n) [] = omega arith
length-drop (suc n) (x ∷ xs) = omega (arith, length-drop n xs)

length-lstrip : (s : Text) → length (lstrip s) ≤ length s
unfolding lstrip
length-lstrip [] = omega arith
length-lstrip (c ∷ s) = ground (arith, length-lstrip s)

length-rstrip : (s : Text) → length (rstrip s) ≤ length s
unfolding rstrip
length-rstrip [] = omega arith
length-rstrip (c ∷ s) = ground (arith, length-rstrip s)

length-strip : (s : Text) → length (strip s) ≤ length s
unfolding strip
length-strip s = omega (arith, length-rstrip (lstrip s), length-lstrip s)

module _ (size overlap : ℕ) where
  -- A chunk is at most so long.
  abbrev pub Fits : Text → Type 0
  Fits c = length c ≤ size + overlap

  pub record IsFit (s : Chunks) : Type 0 where
    pub cut : All Fits s.chunks
    pub rest : Fits s.buf

  push-IsFit : (c : Text) (s : Chunks) → Fits c → IsFit s → IsFit (push c s)
  unfolding push
  push-IsFit c s h v = record {
    cut = All-append Fits s.chunks (c ∷ []) v.cut (h, tt);
    rest = v.rest;
  }

  flush-IsFit : (s : Chunks) → IsFit s → IsFit (flush s)
  unfolding flush
  flush-IsFit s v = if_elim IsFit (is_empty s.buf) v (record {
    cut = All-append Fits s.chunks (s.buf ∷ []) v.cut (v.rest, tt);
    rest = omega arith;
  })

  -- With a size above 0 the loop ends, with a rest that is no longer than the size.
  hard_cut-IsFit :
      (fuel : ℕ) (p : Text) (s : Chunks)
      → 0 < size
      → length p < fuel
      → IsFit s
      → (q : Text) × (t : Chunks) × (hard_cut size fuel p s ≡ some (q, t))
        × (length q ≤ size)
        × IsFit t
  unfolding hard_cut
  hard_cut-IsFit zero p s pos h v = absurd (omega arith)
  hard_cut-IsFit (suc fuel) p s pos h v = elim (Bool-cases (leb (length p) size)) [
    | inl e ↦ (p, s, rw (e, hard_cut) refl, ground arith, v)
    | inr e ↦
        let (q, t, f, b, w) =
          hard_cut-IsFit fuel (drop size p) (push (take size p) (flush s)) pos
            (ground (arith, length-drop size p))
            (push-IsFit (take size p) (flush s) (omega (arith, length-take-le size p))
              (flush-IsFit s v)) in
        (q, t, rw (e, hard_cut) f, b, w)
  ]

  join_piece-IsFit :
      (p : Text) (s : Chunks) → length p ≤ size → IsFit s → IsFit (join_piece size overlap p s)
  unfolding join_piece tail_of
  join_piece-IsFit p s h v = elim (Bool-cases (leb (length s.buf + length p) size)) [
    | inl e ↦ simp e (record { cut = v.cut; rest = ground (arith, length-append s.buf p) })
    | inr e ↦ simp e (record {
      cut = All-append Fits s.chunks (s.buf ∷ []) v.cut (v.rest, tt);
      rest = omega (
        arith,
        h,
        length-append (drop (length s.buf - overlap) s.buf) p,
        length-drop (length s.buf - overlap) s.buf,
      );
    })
  ]

  pub add_pieces-IsFit :
      (ps : List Text) (s : Chunks)
      → 0 < size
      → IsFit s
      → (t : Chunks) × (add_pieces size overlap ps s ≡ some t) × IsFit t
  unfolding add_pieces
  add_pieces-IsFit [] s pos v = (s, refl, v)
  add_pieces-IsFit (p ∷ ps) s pos v =
      let (q, t, e, b, w) = hard_cut-IsFit (suc (length p)) p s pos (omega arith) v in
      let (u, f, x) =
        add_pieces-IsFit ps (join_piece size overlap q t) pos (join_piece-IsFit q t b w) in
      (u, rw (e, add_pieces) f, x)

  stripped-Fits : (cs : List Text) → All Fits cs → All Fits (map strip cs)
  stripped-Fits [] h = tt
  stripped-Fits (c ∷ cs) h = (omega (arith, h.0, length-strip c), stripped-Fits cs h.1)

  -- With a size above 0 a text is always cut, into chunks that are no longer than the size and the
  -- overlap together.
  pub chunk-bounded :
      (text : Text)
      → 0 < size
      → (cs : List Text) × (chunk text size overlap ≡ some cs)
        × All (λ c. length c ≤ size + overlap) cs
  unfolding chunk finish strip_all
  chunk-bounded text pos = elim (Bool-cases (is_empty (strip text))) [
    | inl e ↦ ([], simp e, tt)
    | inr e ↦ elim (Bool-cases (leb (length (strip text)) size)) [
      | inl f ↦ (strip text ∷ [], simp (e, f), (ground arith, tt))
      | inr f ↦
          let (t, g, v) =
            add_pieces-IsFit (pieces_from [] (strip text)) (record { chunks = []; buf = [] }) pos
              (record { cut = tt; rest = omega arith }) in
          (
            strip_all (flush t).chunks,
            simp (e, f, g),
            All-keep Fits (λ c. not (is_empty c)) (map strip (flush t).chunks)
                (stripped-Fits (flush t).chunks (flush-IsFit t v).cut),
          )
    ]
  ]
