-- ===== src/NaadStream/Documents.antt =====
-- What the read loop hands on is what the whole stream holds (providers/naad_stream.py).
use cap_alerts.Prelude.{
  ◌≤◌, ◌≡◌, refl, sym, ap, ◌∙◌, Bool, true, false, List, [], ◌∷◌, ◌++◌, append_assoc, append-nil,
  arith, ltb,
}
use native.Mathlib.Nat.{le_refl}
use cap_alerts.Prelude.Lists.{length, length-append}
use cap_alerts.NaadStream.Frames.{Chars, max_buffer_chars, extract_loop}
use cap_alerts.NaadStream.Chunks.{extracted, with_docs, extract_loop-append}
use cap_alerts.NaadStream.Client.{
  Reading, Ended, returned, raised, received, closed, read_loop, docs_of, with_earlier,
}

-- The text of several reads.
abbrev pub joined : List Chars → Chars
joined [] = []
joined (text ∷ texts) = text ++ joined texts

-- No read leaves more in the buffer than it may hold.
abbrev pub IsWithin : Chars → List Chars → Type 0
IsWithin buffer [] = Unit
IsWithin buffer (text ∷ texts) =
    (length (extracted (buffer ++ text)).0 ≤ max_buffer_chars)
    × IsWithin (extracted (buffer ++ text)).0 texts

abbrev pub reads : List Chars → List Reading
reads [] = closed ∷ []
reads (text ∷ texts) = received text ∷ reads texts

no_more {ℓ} : {A : Type ℓ} (xs ys : List A) → xs ≡ xs ++ ys → ys ≡ []
no_more xs [] e = refl
no_more xs (y ∷ ys) e = absurd (omega (arith, ap length e, length-append xs (y ∷ ys)))

-- Nothing can be taken out of what an extraction leaves.
stable : (buffer : Chars) → extracted (extracted buffer).0 ≡ ((extracted buffer).0, [])
stable buffer =
    let left = (extracted buffer).0 in
    let twice : extracted buffer ≡ with_docs (extracted buffer).1 (extracted left) =
      ap extracted (sym (append-nil buffer))
      ∙ extract_loop-append (length buffer) buffer [] (le_refl _)
      ∙ ap (λ t. with_docs (extracted buffer).1 (extracted t)) (append-nil left) in
    λ i. (
      (ap (λ (pair : Chars × List Chars). pair.0) (sym twice)) i,
      (no_more (extracted buffer).1 (extracted left).1
            (ap (λ (pair : Chars × List Chars). pair.1) twice))
          i,
    )

pub docs_of-with_earlier :
    (docs : List Chars) (e : Ended) → docs_of (with_earlier docs e) ≡ docs ++ docs_of e
docs_of-with_earlier docs (returned saw more) = refl
docs_of-with_earlier docs (raised more) = refl

from_stable :
    (buffer : Chars) (texts : List Chars) (saw_data : Bool)
    → IsWithin buffer texts
    → extracted buffer ≡ (buffer, [])
    → docs_of (read_loop (reads texts) buffer saw_data) ≡ (extracted (buffer ++ joined texts)).1
unfolding read_loop
from_stable buffer [] saw_data w e =
    sym
      (ap (λ b. (extracted b).1) (append-nil buffer) ∙ ap (λ (pair : Chars × List Chars). pair.1) e)
from_stable buffer (text ∷ texts) saw_data w e =
    let one = extracted (buffer ++ text) in
    let fits : ltb max_buffer_chars (length one.0) ≡ false = ground (arith, w.0) in
    rw fits (
      docs_of-with_earlier one.1 (read_loop (reads texts) one.0 true)
      ∙ ap (λ docs. one.1 ++ docs) (from_stable one.0 texts true w.1 (stable (buffer ++ text)))
      ∙ sym (
          ap (λ (pair : Chars × List Chars). pair.1)
            (extract_loop-append (length (buffer ++ text)) (buffer ++ text) (joined texts)
              (le_refl _)))
      ∙ ap (λ b. (extracted b).1) (append_assoc buffer text (joined texts)))

-- However the stream is cut into reads, while no read leaves more in the buffer than it may hold:
-- the documents handed on are those that one run of the loop of `_extract_docs` takes out of the
-- whole text, in its order.
pub read_loop-joined :
    (texts : List Chars)
    → IsWithin [] texts
    → docs_of (read_loop (reads texts) [] false) ≡ (extracted (joined texts)).1
read_loop-joined texts w = from_stable [] texts false w (unfold extract_loop in refl)
