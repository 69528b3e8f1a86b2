-- ===== src/Conventions/Episode.antt =====
-- `episode_id` (conventions.py). `hashlib.sha256(...).hexdigest()[:12]` is a parameter.
use cap_alerts.Prelude.{String, ◌&&◌, List, [], ◌∷◌, is_empty, if◌then◌else◌}
use cap_alerts.Prelude.Text.{concat, text_le}

-- `sorted(texts)`
unfoldable pub insert_text : String → List String → List String
insert_text text [] = text ∷ []
insert_text text (t ∷ texts) =
    let rest = insert_text text texts in if text_le text t then text ∷ t ∷ texts else t ∷ rest

unfoldable pub sorted_texts : List String → List String
unfolding insert_text
sorted_texts [] = []
sorted_texts (t ∷ texts) = insert_text t (sorted_texts texts)

-- `separator.join(texts)`
unfoldable pub join : String → List String → String
join separator [] = ""
join separator (t ∷ []) = t
join separator (t ∷ u ∷ texts) = concat t (concat separator (join separator (u ∷ texts)))

-- `episode_id`
unfoldable pub episode_id :
    (String → String) → String → String → List String → String → String → String
unfolding join sorted_texts
episode_id digest sender event_key region_codes window_key fallback =
    let region_key = join ";" (sorted_texts region_codes) in
    if is_empty sender && is_empty event_key && is_empty region_key && is_empty window_key
    then digest fallback
    else digest (join "|" (sender ∷ event_key ∷ region_key ∷ window_key ∷ []))
