-- ===== src/Tests/Chunks.antt =====
-- backend/app/kb/chunker.py on short texts.
use wecom_ai_agent.Prelude.{◌≤◌, ◌≡◌, refl, some, List, [], ◌∷◌, arith, All, length, concat}
use wecom_ai_agent.Prelude.Text.{Text, codes, strip}
use wecom_ai_agent.Chunker.{
  chunk, pieces_from, push, flush, hard_cut, tail_of, join_piece, add_pieces, strip_all, finish,
}
use wecom_ai_agent.Chunker.Content.{chunk-content}
use wecom_ai_agent.Chunker.Bounds.{chunk-bounded}

abbrev sentences : Text
sentences = codes "one two! three four? five"

chunk-bounded_example :
    (cs : List Text) × (chunk sentences 10 3 ≡ some cs) × All (λ c. length c ≤ 13) cs
chunk-bounded_example = chunk-bounded 10 3 sentences (omega arith)

-- The overlap stands before a piece of up to the size, so a chunk may be longer than the size.
over_size : chunk (codes "abcd!efghi") 5 2 ≡ some (codes "abcd!" ∷ codes "d!efghi" ∷ [])
unfolding chunk strip pieces_from add_pieces hard_cut join_piece tail_of push flush finish strip_all
over_size = refl

chunk-content_example :
    (cs : List Text) × (chunk sentences 10 0 ≡ some (strip_all cs)) × (concat cs ≡ strip sentences)
unfolding strip
chunk-content_example = chunk-content 10 sentences (omega arith) (omega arith)
