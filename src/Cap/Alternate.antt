-- ===== src/Cap/Alternate.antt =====
-- The block whose language becomes the alternate (providers/cap.py).
use cap_alerts.Prelude.{
  ℕ, ◌≡◌, ◌⊎◌, inl, inr, refl, sym, subst, String, Bool, true, false, not, ◌&&◌, Option, none, some,
  List, ◌==◌, arith, eq_iff, Option-cases,
}
use cap_alerts.Prelude.Lists.{All}
use cap_alerts.Prelude.Index.{nth, first_index, first_index-none, first_index-some}
use cap_alerts.Cap.Language.{
  alternate_info_index, alternate_to, is_candidate, is_english, primary_subtag,
}

module _ (fold : String → String) where
  -- The tag of a block in another language than the primary one's, English if any such is.
  abbrev pub IsAlternate : List String → String → String → Type 0
  IsAlternate languages primary tag =
      ((primary_subtag fold tag == primary_subtag fold primary) ≡ false)
      × (All (λ other. is_english fold (primary_subtag fold primary) other ≡ false) languages
          ⊎ (primary_subtag fold tag ≡ "en"))

  -- What `alternate_info_index` answers: a block that is an alternate, or that no block is in
  -- another language.
  abbrev pub Answer : List String → String → Option ℕ → Type 0
  Answer languages primary none =
      All (λ other. is_candidate fold (primary_subtag fold primary) other ≡ false) languages
  Answer languages primary (some i) =
      (tag : String) × (nth i languages ≡ some tag) × IsAlternate languages primary tag

  differs : (b : Bool) → not b ≡ true → b ≡ false
  differs false e = refl
  differs true e = absurd (ground arith)

  english_parts : (a b : Bool) → (not a && b) ≡ true → (a ≡ false) × (b ≡ true)
  english_parts false true e = (refl, refl)
  english_parts false false e = absurd (ground arith)
  english_parts true b e = absurd (ground arith)

  -- For a primary block of the document, the alternate is a block in another language, which is
  -- English if any block in another language is; there is none only if every block is in the
  -- primary one's language.
  pub alternate_info_index-Answer :
      (languages : List String) (i : ℕ) (primary : String)
      → nth i languages ≡ some primary
      → Answer languages primary (alternate_info_index fold languages i)
  unfolding alternate_info_index
  alternate_info_index-Answer languages i primary at =
      let main = primary_subtag fold primary in
      subst (λ p. Answer languages primary (alternate_to fold languages p)) (sym at)
        (elim (Option-cases (first_index (is_english fold main) languages)) [
          | inr (j, e) ↦
              let (tag, here, passes, before) =
                first_index-some (is_english fold main) languages j e in
              let (other, english) =
                english_parts (primary_subtag fold tag == main) (primary_subtag fold tag == "en")
                  passes in
              rw e (tag, here, (other, inr ((eq_iff (primary_subtag fold tag) "en").0 english)))
          | inl e ↦
              let no_english = first_index-none (is_english fold main) languages e in
              elim (Option-cases (first_index (is_candidate fold main) languages)) [
                | inr (j, f) ↦
                    let (tag, here, passes, before) =
                      first_index-some (is_candidate fold main) languages j f in
                    rw (e, f)
                      (
                        tag,
                        here,
                        (differs (primary_subtag fold tag == main) passes, inl no_english),
                      )
                | inl f ↦ rw (e, f) (first_index-none (is_candidate fold main) languages f)
              ]
        ])
