-- ===== src/Cap/Language.antt =====
-- The choice of `<info>` blocks by language (providers/cap.py). A block is meant by its position in
-- the document; `tag.strip().casefold()` is a parameter.
use Prim.Native.Char.{code}
use cap_alerts.Prelude.{
  ℕ, String, Bool, true, false, not, ◌&&◌, ◌||◌, Option, none, some, List, [], ◌∷◌, ◌==◌, ◌=ℕ◌, map,
  is_empty, if◌then◌else◌,
}
use cap_alerts.Prelude.Index.{nth, first_index}
use cap_alerts.Cap.Document.{CapInfo, CapDoc, blank_info}

-- `tag.split("-", 1)[0]`
unfoldable pub before_dash : String → String
before_dash String.[] = ""
before_dash (String.◌∷◌ c tag) =
    let rest = String.◌∷◌ c (before_dash tag) in if code c =ℕ b'-' then "" else rest

abbrev pub or_index : Option ℕ → Option ℕ → Option ℕ
or_index none later = later
or_index (some i) later = some i

abbrev pub info_at : List CapInfo → Option ℕ → CapInfo
info_at infos none = blank_info
info_at infos (some i) = elim (nth i infos) [ none ↦ blank_info | some info ↦ info ]

module _ (fold : String → String) where
  -- `_primary_subtag`
  unfoldable pub primary_subtag : String → String
  unfolding before_dash
  primary_subtag tag = before_dash (fold tag)

  -- `language_matches`
  unfoldable pub language_matches : String → String → Bool
  unfolding primary_subtag
  language_matches info_lang preferred =
      if is_empty info_lang || is_empty preferred
      then false
      else if is_empty (fold info_lang) || is_empty (fold preferred)
      then false
      else if fold info_lang == fold preferred
      then true
      else primary_subtag info_lang == primary_subtag preferred

  -- A candidate of `alternate_info_index` (`primary_lang` is the subtag of the primary block). It
  -- differs from it, so it stands elsewhere.
  abbrev pub is_candidate : String → String → Bool
  is_candidate primary_lang language = not (primary_subtag language == primary_lang)

  abbrev pub is_english : String → String → Bool
  is_english primary_lang language =
      is_candidate primary_lang language && primary_subtag language == "en"

  abbrev pub alternate_to : List String → Option String → Option ℕ
  alternate_to languages none = none
  alternate_to languages (some primary) =
      or_index (first_index (is_english (primary_subtag primary)) languages)
        (first_index (is_candidate (primary_subtag primary)) languages)

  -- `alternate_info_index`
  unfoldable pub alternate_info_index : List String → ℕ → Option ℕ
  unfolding first_index
  alternate_info_index languages primary_index =
      alternate_to languages (nth primary_index languages)

  abbrev pub spelled : String → CapInfo → Bool
  spelled language info = fold info.language == fold language

  abbrev pub in_english : CapInfo → Bool
  in_english info = primary_subtag info.language == "en"

  -- The loops over the language that is asked for.
  unfoldable pub wanted_index : String → List CapInfo → Option ℕ
  unfolding language_matches first_index
  wanted_index language infos =
      if is_empty language
      then none
      else or_index (first_index (spelled language) infos)
          (first_index (λ info. language_matches info.language language) infos)

  -- `select_info`, by the position of the block.
  unfoldable pub select_index : List CapInfo → String → Option ℕ
  unfolding first_index wanted_index
  select_index [] language = none
  select_index (info ∷ infos) language =
      or_index (wanted_index language (info ∷ infos))
        (or_index (first_index in_english (info ∷ infos)) (some 0))

  -- `select_info`
  unfoldable pub select_info : CapDoc → String → CapInfo
  unfolding select_index
  select_info doc language = info_at doc.infos (select_index doc.infos language)

  abbrev language_of : CapInfo → String
  language_of info = info.language

  -- `select_alt_info`, of the block that `select_info` chose.
  unfoldable pub select_alt_index : CapDoc → Option ℕ → Option ℕ
  unfolding alternate_info_index
  select_alt_index doc none = none
  select_alt_index doc (some primary) = alternate_info_index (map language_of doc.infos) primary
