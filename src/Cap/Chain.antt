-- ===== src/Cap/Chain.antt =====
-- Revision chains: `resolve_chain_leaves` (providers/cap.py) and `_dedupe_by_identifier`
-- (providers/eccc.py).
use cap_alerts.Prelude.{String, Bool, not, ◌&&◌, List, [], ◌∷◌, ◌++◌, map, is_empty, if◌then◌else◌}
use cap_alerts.Prelude.Lists.{contains, keep_if}
use cap_alerts.Cap.Document.{CapDoc, identifier_of}

-- The identifiers that the documents refer to.
unfoldable pub referenced : List CapDoc → List String
referenced [] = []
referenced (doc ∷ docs) = map identifier_of doc.references ++ referenced docs

abbrev pub is_leaf : List String → CapDoc → Bool
is_leaf ids doc = not (contains doc.identifier ids)

abbrev pub or_all : List CapDoc → List CapDoc → List CapDoc
or_all [] docs = docs
or_all (leaf ∷ leaves) docs = leaf ∷ leaves

-- `resolve_chain_leaves`
unfoldable pub resolve_chain_leaves : List CapDoc → List CapDoc
unfolding referenced
resolve_chain_leaves docs = or_all (keep_if (is_leaf (referenced docs)) docs) docs

abbrev pub is_repeated : List String → CapDoc → Bool
is_repeated seen doc = not (is_empty doc.identifier) && contains doc.identifier seen

abbrev pub with_identifier : String → List String → List String
with_identifier identifier seen = if is_empty identifier then seen else identifier ∷ seen

unfoldable pub dedupe_from : List String → List CapDoc → List CapDoc
dedupe_from seen [] = []
dedupe_from seen (doc ∷ docs) =
    let repeated = dedupe_from seen docs in
    let unique = doc ∷ dedupe_from (with_identifier doc.identifier seen) docs in
    if is_repeated seen doc then repeated else unique

-- `_dedupe_by_identifier`
unfoldable pub dedupe_by_identifier : List CapDoc → List CapDoc
unfolding dedupe_from
dedupe_by_identifier docs = dedupe_from [] docs
