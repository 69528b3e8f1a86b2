-- ===== src/NaadStream/Frames.antt =====
-- `_extract_docs` (providers/naad_stream.py). The buffer is the list of its characters' numbers.
use Prim.Native.Char.{code}
use Prim.Native.String.{String}
use cap_alerts.Prelude.{
  ℕ, zero, suc, Bool, true, false, ◌&&◌, Option, none, some, List, [], ◌∷◌, ltb, ◌=ℕ◌,
  if◌then◌else◌,
}
use cap_alerts.Prelude.Lists.{length}

abbrev pub Chars : Type 0
Chars = List ℕ

abbrev pub codes : String → Chars
codes String.[] = []
codes (String.◌∷◌ c s) = code c ∷ codes s

-- `_ALERT_START`, `_ALERT_END` and `_MAX_BUFFER_CHARS`.
abbrev pub alert_start : Chars
alert_start = codes "<alert"

abbrev pub alert_end : Chars
alert_end = codes "</alert>"

abbrev pub max_buffer_chars : ℕ
max_buffer_chars = 8_388_608

-- The text begins with the pattern.
unfoldable pub begins : Chars → Chars → Bool
begins [] text = true
begins (p ∷ pattern) [] = false
begins (p ∷ pattern) (c ∷ text) = p =ℕ c && begins pattern text

-- `buffer[buffer.find(pattern):]`, or `none` where `find` answers -1, for a pattern that is not
-- empty.
unfoldable pub from_first : Chars → Chars → Option Chars
from_first pattern [] = none
from_first pattern (c ∷ text) =
    let rest = from_first pattern text in
    if begins pattern (c ∷ text) then some (c ∷ text) else rest

unfoldable pub take : ℕ → Chars → Chars
take zero text = []
take (suc n) [] = []
take (suc n) (c ∷ text) = c ∷ take n text

unfoldable pub drop : ℕ → Chars → Chars
drop zero text = text
drop (suc n) [] = []
drop (suc n) (c ∷ text) = drop n text

abbrev pub after_char : ℕ → Option (Chars × Chars) → Option (Chars × Chars)
after_char c none = none
after_char c (some (doc, rest)) = some (c ∷ doc, rest)

-- `buffer[:end]` and `buffer[end:]`, where `end` is the end of the first occurrence.
unfoldable pub through_first : Chars → Chars → Option (Chars × Chars)
unfolding take drop
through_first pattern [] = none
through_first pattern (c ∷ text) =
    let rest = after_char c (through_first pattern text) in
    if begins pattern (c ∷ text)
    then some (take (length pattern) (c ∷ text), drop (length pattern) (c ∷ text))
    else rest

-- `buffer[-n:] if len(buffer) > n else buffer`
unfoldable pub keep_last : ℕ → Chars → Chars
keep_last n [] = []
keep_last n (c ∷ text) =
    let rest = keep_last n text in if ltb n (length (c ∷ text)) then rest else c ∷ text

abbrev pub with_doc : Chars → Chars × List Chars → Chars × List Chars
with_doc doc (buffer, docs) = (buffer, doc ∷ docs)

abbrev pub took : Chars → Option (Chars × List Chars) → Option (Chars × List Chars)
took doc none = none
took doc (some result) = some (with_doc doc result)

-- The `while` loop: the tail of the buffer and the documents, where it comes to a `break`. `none`
-- is a loop that has not come to one in `fuel` rounds.
unfoldable pub extract_loop : ℕ → Chars → Option (Chars × List Chars)
unfolding from_first through_first keep_last
extract_loop zero buffer = none
extract_loop (suc fuel) buffer = elim (from_first alert_start buffer) [
  | none ↦ some (keep_last (length alert_start) buffer, [])
  | some text ↦ elim (through_first alert_end text) [
    | none ↦ some (text, [])
    | some (doc, rest) ↦ took doc (extract_loop fuel rest)
  ]
]

abbrev pub finished : Option (Chars × List Chars) → Chars × List Chars
finished none = ([], [])
finished (some result) = result

abbrev pub bounded : Chars × List Chars → Chars × List Chars
bounded (buffer, docs) = (if ltb max_buffer_chars (length buffer) then [] else buffer, docs)

-- `_extract_docs`
unfoldable pub extract_docs : Chars → Chars × List Chars
unfolding extract_loop
extract_docs buffer = bounded (finished (extract_loop (suc (length buffer)) buffer))
