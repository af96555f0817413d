-- ===== src/Chunker.antt =====
-- backend/app/kb/chunker.py: a text is cut into chunks of a given size, which overlap.
pub mod Bounds
pub mod Content
use wecom_ai_agent.Prelude.{
  ℕ, zero, suc, ◌+◌, ◌-◌, Bool, true, false, Option, none, some, List, [], ◌∷◌, ◌++◌, ◌==◌, ◌||◌,
  not, leb, if◌then◌else◌, is_empty, keep, take, drop, length, map,
}
use wecom_ai_agent.Prelude.Text.{Text, strip}

-- The characters of `_BOUNDARY`: 。 ! ? ; and the line feed
abbrev pub is_boundary : ℕ → Bool
is_boundary c = c == 12290 || c == 33 || c == 63 || c == 59 || c == 10

-- `[p for p in _BOUNDARY.split(text) if p]`, after the part `piece` of a piece
unfoldable pub pieces_from : Text → Text → List Text
pieces_from piece [] = if is_empty piece then [] else piece ∷ []
pieces_from piece (c ∷ s) =
    let cut = (piece ++ c ∷ []) ∷ pieces_from [] s in
    let longer = pieces_from (piece ++ c ∷ []) s in if is_boundary c then cut else longer

-- `chunks` and `buf`
pub record Chunks : Type 0 where
  pub chunks : List Text
  pub buf : Text

unfoldable pub push : Text → Chunks → Chunks
push chunk s = record s { chunks = s.chunks ++ chunk ∷ [] }

-- `if buf: chunks.append(buf); buf = ""`
unfoldable pub flush : Chunks → Chunks
flush s = if is_empty s.buf then s else record { chunks = s.chunks ++ s.buf ∷ []; buf = [] }

-- The `while len(p) > size`: the rest of the piece, or none if the fuel runs out.
unfoldable pub hard_cut : ℕ → ℕ → Text → Chunks → Option (Text × Chunks)
hard_cut size zero p s = none
hard_cut size (suc fuel) p s = elim (leb (length p) size) [
  | true ↦ some (p, s)
  | false ↦ hard_cut size fuel (drop size p) (push (take size p) (flush s))
]

-- `buf[-overlap:] if overlap > 0 else ""`
unfoldable pub tail_of : ℕ → Text → Text
tail_of overlap buf = drop (length buf - overlap) buf

-- A piece that fits joins the buffer, else the buffer becomes a chunk.
unfoldable pub join_piece : ℕ → ℕ → Text → Chunks → Chunks
join_piece size overlap p s =
    if leb (length s.buf + length p) size
    then record s { buf = s.buf ++ p }
    else record { chunks = s.chunks ++ s.buf ∷ []; buf = tail_of overlap s.buf ++ p }

unfoldable pub add_pieces : ℕ → ℕ → List Text → Chunks → Option Chunks
add_pieces size overlap [] s = some s
add_pieces size overlap (p ∷ ps) s = elim (hard_cut size (suc (length p)) p s) [
  | none ↦ none
  | some (rest, s') ↦ add_pieces size overlap ps (join_piece size overlap rest s')
]

-- `[c.strip() for c in chunks if c.strip()]`
unfoldable pub strip_all : List Text → List Text
strip_all chunks = keep (λ c. not (is_empty c)) (map strip chunks)

unfoldable pub finish : Option Chunks → Option (List Text)
finish none = none
finish (some s) = some (strip_all (flush s).chunks)

-- `chunk`; `none` only if a piece is cut for ever, which a size of 0 does.
unfoldable pub chunk : Text → ℕ → ℕ → Option (List Text)
chunk text size overlap =
    let stripped = strip text in
    if is_empty stripped
    then some []
    else if leb (length stripped) size
    then some (stripped ∷ [])
    else finish
        (add_pieces size overlap (pieces_from [] stripped) (record { chunks = []; buf = [] }))
