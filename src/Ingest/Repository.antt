-- ===== src/Ingest/Repository.antt =====
-- `_recover_from_repository` (providers/eccc_ingest.py).
use cap_alerts.Prelude.{
  ℕ, suc, String, Bool, Option, none, some, List, [], ◌∷◌, ltb, map, if◌then◌else◌,
}
use cap_alerts.Prelude.Lists.{contains}
use cap_alerts.Dict
use cap_alerts.Dict.{Dict}
use cap_alerts.Cap.Document.{CapDoc, Reference, identifier_of}
use cap_alerts.Ingest.State.{Ingest, fetch_attempts, or_text}

abbrev pub mentioned : String → List Reference → Bool
mentioned identifier references = contains identifier (map identifier_of references)

abbrev pub or_none : Option (Option CapDoc) → Option CapDoc
or_none none = none
or_none (some value) = value

-- `results.get(identifier)`
abbrev pub served : String → Dict (Option CapDoc) → Option CapDoc
served identifier results = or_none (Dict.get identifier results)

abbrev pub attempts_of : Option ℕ → ℕ
attempts_of none = 0
attempts_of (some count) = count

-- One round of the loop of `_recover_from_repository`, over the document that was served.
unfoldable pub settle_reference : String → String → Option CapDoc → Ingest → Ingest
settle_reference identifier sent (some doc) s = record s {
  seen = Dict.put identifier (or_text doc.sent sent) s.seen;
  repository_attempts = Dict.remove identifier s.repository_attempts;
  repository_recovered = suc s.repository_recovered;
}
settle_reference identifier sent none s =
    let attempts = suc (attempts_of (Dict.get identifier s.repository_attempts)) in
    if ltb attempts fetch_attempts
    then record s { repository_attempts = Dict.put identifier attempts s.repository_attempts }
    else record s {
      repository_attempts = Dict.remove identifier s.repository_attempts;
      seen = Dict.put identifier sent s.seen;
    }

unfoldable pub settle_references : List Reference → Dict (Option CapDoc) → Ingest → Ingest
unfolding settle_reference
settle_references [] results s = s
settle_references ((sender, identifier, sent) ∷ references) results s =
    settle_references references results
      (settle_reference identifier sent (served identifier results) s)

abbrev pub with_document : Option CapDoc → List CapDoc → List CapDoc
with_document none docs = docs
with_document (some doc) docs = doc ∷ docs

-- `recovered`
unfoldable pub recovered_from : List Reference → Dict (Option CapDoc) → List CapDoc
recovered_from [] results = []
recovered_from ((sender, identifier, sent) ∷ references) results =
    with_document (served identifier results) (recovered_from references results)

-- `_recover_from_repository`; no answer is a timeout or a client error.
unfoldable pub recover_from_repository :
    List Reference → Option (Dict (Option CapDoc)) → Ingest → Ingest × List CapDoc
unfolding settle_references recovered_from
recover_from_repository references none s = (s, [])
recover_from_repository references (some results) s =
    (settle_references references results s, recovered_from references results)
