-- ===== src/Chunker/Content.antt =====
-- backend/app/kb/chunker.py: no character of the text is lost or moved.
use wecom_ai_agent.Prelude.{
  ℕ, zero, suc, ◌+◌, ◌-◌, ◌≤◌, ◌<◌, ◌≡◌, refl, sym, ◌∙◌, ap, inl, inr, false, none, some, List, [],
  ◌∷◌, ◌++◌, arith, leb, is_empty, take, drop, length, Bool-cases, List-cases, Option-cases, ap₂,
  append_assoc, append_empty, take-drop, concat, concat-snoc,
}
use wecom_ai_agent.Prelude.Text.{Text, strip}
use wecom_ai_agent.Chunker.{
  Chunks, is_boundary, push, flush, hard_cut, tail_of, join_piece, add_pieces, strip_all, finish,
  chunk, pieces_from,
}
use wecom_ai_agent.Chunker.Bounds.{add_pieces-IsFit}

-- What has been read so far.
abbrev total : Chunks → Text
total s = concat s.chunks ++ s.buf

pieces_from-concat : (piece s : Text) → concat (pieces_from piece s) ≡ piece ++ s
unfolding pieces_from
pieces_from-concat [] [] = refl
pieces_from-concat (a ∷ piece) [] = refl
pieces_from-concat piece (c ∷ s) = elim (Bool-cases (is_boundary c)) [
  | inl e ↦
      simp e
        (ap (λ r. (piece ++ c ∷ []) ++ r) (pieces_from-concat [] s) ∙ append_assoc piece (c ∷ []) s)
  | inr e ↦ simp e (pieces_from-concat (piece ++ c ∷ []) s ∙ append_assoc piece (c ∷ []) s)
]

flush-total : (s : Chunks) → concat (flush s).chunks ≡ total s
unfolding flush
flush-total s = elim (List-cases s.buf) [
  | inl e ↦ simp e (append_empty (concat s.chunks))
  | inr (x, xs, e) ↦ simp e (concat-snoc s.chunks (x ∷ xs))
]

flush-buf : (s : Chunks) → (flush s).buf ≡ []
unfolding flush
flush-buf s = elim (List-cases s.buf) [ inl e ↦ simp e | inr (x, xs, e) ↦ simp e ]

push-flush-total : (c : Text) (s : Chunks) → total (push c (flush s)) ≡ total s ++ c
unfolding push
push-flush-total c s =
    ap (λ r. concat ((flush s).chunks ++ c ∷ []) ++ r) (flush-buf s)
    ∙ (sym (append_empty (concat ((flush s).chunks ++ c ∷ [])))
        ∙ (concat-snoc (flush s).chunks c ∙ ap (λ r. r ++ c) (flush-total s)))

hard_cut-total :
    (size fuel : ℕ) (p q : Text) (s t : Chunks)
    → hard_cut size fuel p s ≡ some (q, t)
    → total t ++ q ≡ total s ++ p
unfolding hard_cut
hard_cut-total size zero p q s t h = cc
hard_cut-total size (suc fuel) p q s t h = elim (Bool-cases (leb (length p) size)) [
  | inl e ↦
      let same : some (p, s) ≡ some (q, t) = rw (e, hard_cut) at h in
      let a : p ≡ q = cc in let b : s ≡ t = cc in sym (ap₂ (λ u v. total u ++ v) b a)
  | inr e ↦
      hard_cut-total size fuel (drop size p) q (push (take size p) (flush s)) t
        (rw (e, hard_cut) at h)
      ∙ (ap (λ r. r ++ drop size p) (push-flush-total (take size p) s)
          ∙ (append_assoc (total s) (take size p) (drop size p)
              ∙ ap (λ r. total s ++ r) (take-drop size p)))
]

drop-all : (n : ℕ) (xs : Text) → length xs ≤ n → drop n xs ≡ []
drop-all zero [] h = refl
drop-all zero (x ∷ xs) h = absurd (omega arith)
drop-all (suc n) [] h = refl
drop-all (suc n) (x ∷ xs) h = drop-all n xs (omega arith)

join_piece-total : (size : ℕ) (p : Text) (s : Chunks) → total (join_piece size 0 p s) ≡ total s ++ p
unfolding join_piece tail_of
join_piece-total size p s = elim (Bool-cases (leb (length s.buf + length p) size)) [
  | inl e ↦ simp e (sym (append_assoc (concat s.chunks) s.buf p))
  | inr e ↦ simp e (
      ap (λ r. concat (s.chunks ++ s.buf ∷ []) ++ (r ++ p))
        (drop-all (length s.buf - 0) s.buf (omega arith))
      ∙ ap (λ r. r ++ p) (concat-snoc s.chunks s.buf))
]

add_pieces-total :
    (size : ℕ) (ps : List Text) (s t : Chunks)
    → add_pieces size 0 ps s ≡ some t
    → total t ≡ total s ++ concat ps
unfolding add_pieces
add_pieces-total size [] s t h = let e : s ≡ t = cc in ap total (sym e) ∙ append_empty (total s)
add_pieces-total size (p ∷ ps) s t h = elim (Option-cases (hard_cut size (suc (length p)) p s)) [
  | inl e ↦ let k : none ≡ some t = rw (e, add_pieces) at h in cc
  | inr ((q, u), e) ↦
      add_pieces-total size ps (join_piece size 0 q u) t (rw (e, add_pieces) at h)
      ∙ (ap (λ r. r ++ concat ps)
            (join_piece-total size q u ∙ hard_cut-total size (suc (length p)) p q s u e)
          ∙ append_assoc (total s) p (concat ps))
]

-- Without overlap, and with a size above 0, the chunks of a text that is longer than the size are, one
-- after the other, the stripped text, before each of them is stripped and the blank ones are left out.
pub chunk-content :
    (size : ℕ) (text : Text)
    → 0 < size
    → size < length (strip text)
    → (cs : List Text) × (chunk text size 0 ≡ some (strip_all cs)) × (concat cs ≡ strip text)
unfolding chunk finish
chunk-content size text pos long =
    let start : Chunks = record { chunks = []; buf = [] } in
    let (t, e, v) =
      add_pieces-IsFit size 0 (pieces_from [] (strip text)) start pos
        (record { cut = tt; rest = omega arith }) in
    let not_empty : is_empty (strip text) ≡ false = ground (arith, long) in
    let longer : leb (length (strip text)) size ≡ false = ground (arith, long) in
    (
      (flush t).chunks,
      simp (not_empty, longer, e),
      flush-total t
          ∙ (add_pieces-total size (pieces_from [] (strip text)) start t e
              ∙ pieces_from-concat [] (strip text)),
    )
