-- ===== src/Samples/CapRuns.antt =====
-- Runs of the choice of blocks and of revision chains (providers/cap.py).
use cap_alerts.Prelude.{ℕ, ◌≡◌, inl, refl, String, false, some, [], ◌∷◌, ◌==◌, arith, if◌then◌else◌}
use cap_alerts.Prelude.Lists.{All, contains}
use cap_alerts.Prelude.Index.{first_index}
use cap_alerts.Cap.Document.{CapDoc, CapInfo, blank_doc, blank_info}
use cap_alerts.Cap.Language.{
  before_dash, primary_subtag, language_matches, wanted_index, select_index, select_alt_index,
  alternate_info_index, in_english,
}
use cap_alerts.Cap.Preferred.{IsBest, same_spelling, same_language, select_info-IsBest}
use cap_alerts.Cap.Alternate.{Answer, alternate_info_index-Answer}
use cap_alerts.Cap.Chain.{referenced, resolve_chain_leaves, dedupe_from, dedupe_by_identifier}
use cap_alerts.Cap.Superseded.{Ends, IsOrdered, resolve_chain_leaves-Superseded}

-- No capital letters and no spaces.
abbrev fold : String → String
fold tag = tag

abbrev block : String → CapInfo
block language = record blank_info { language = language }

-- `mo-smg-xx` publishes three languages.
abbrev macao : CapDoc
macao = record blank_doc { infos = block "zh-mo" ∷ block "pt-pt" ∷ block "en-us" ∷ [] }

chinese : select_index fold macao.infos "zh-hk" ≡ some 0
unfolding select_index wanted_index first_index language_matches primary_subtag before_dash
chinese = refl

english : select_index fold macao.infos "de" ≡ some 2
unfolding select_index wanted_index first_index language_matches primary_subtag before_dash
english = refl

alternate : select_alt_index fold macao (some 0) ≡ some 2
unfolding select_alt_index alternate_info_index first_index primary_subtag before_dash
alternate = refl

select_info-IsBest_example :
    (i : ℕ) × (select_index fold (block "de" ∷ block "de-ls" ∷ []) "de-ls" ≡ some i)
    × IsBest
        (same_spelling fold "de-ls")
        (same_language fold "de-ls")
        (in_english fold)
        (block "de" ∷ block "de-ls" ∷ [])
        i
select_info-IsBest_example = select_info-IsBest fold (block "de") (block "de-ls" ∷ []) "de-ls"

alternate_info_index-Answer_example :
    Answer fold
      ("fr-CA" ∷ "en-CA" ∷ [])
      "fr-CA"
      (alternate_info_index fold ("fr-CA" ∷ "en-CA" ∷ []) 0)
alternate_info_index-Answer_example =
    alternate_info_index-Answer fold ("fr-CA" ∷ "en-CA" ∷ []) 0 "fr-CA" refl

abbrev first : CapDoc
first = record blank_doc { identifier = "a" }

abbrev second : CapDoc
second = record blank_doc { identifier = "b"; references = ("s", "a", "t") ∷ [] }

resolved : resolve_chain_leaves (first ∷ second ∷ []) ≡ second ∷ []
unfolding resolve_chain_leaves referenced
resolved = refl

unique : dedupe_by_identifier (first ∷ second ∷ first ∷ []) ≡ first ∷ second ∷ []
unfolding dedupe_by_identifier dedupe_from
unique = refl

abbrev age : CapDoc → ℕ
age doc = if doc.identifier == "a" then 1 else 2

resolve_chain_leaves-Superseded_example :
    Ends (first ∷ second ∷ []) age first
    × All
        (λ leaf. contains leaf.identifier (referenced (first ∷ second ∷ [])) ≡ false)
        (resolve_chain_leaves (first ∷ second ∷ []))
resolve_chain_leaves-Superseded_example =
    resolve_chain_leaves-Superseded (first ∷ second ∷ []) age first ordered (inl refl)
  where
    ordered : IsOrdered (first ∷ second ∷ []) age
    ordered = (
      (λ e. absurd (ground arith), (λ e. absurd (ground arith), tt)),
      ((λ e. omega arith, (λ e. absurd (ground arith), tt)), tt),
    )
