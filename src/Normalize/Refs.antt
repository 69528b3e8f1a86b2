-- ===== src/Normalize/Refs.antt =====
-- The polygons of two config entries do not meet in the shared store (normalize.py,
-- geometry_store.py).
use Prim.Native.Char.{code}
use text.Mathlib.TextLemmas.{nil-append, cons-append, append_assoc}
use cap_alerts.Prelude.{
  ◌≡◌, ◌∙◌, ap, String, Bool, true, false, not, ◌&&◌, ◌=ℕ◌, arith, is_empty, ◌==◌,
}
use cap_alerts.Prelude.Text.{concat}
use cap_alerts.Dict
use cap_alerts.Model.{CapAlert}
use cap_alerts.Model.Json.{Members}
use cap_alerts.GeometryStore.Evict.{GeometryStore, Hashing, owner_of, put_content}
use cap_alerts.GeometryStore.Budget.{put_serialized_isolated}
use cap_alerts.Normalize.Alerts.{geometry_ref, nothing}

-- No character of the text is a colon.
abbrev pub is_plain : String → Bool
is_plain String.[] = true
is_plain (String.◌∷◌ c s) = not (code c =ℕ b':') && is_plain s

colon_first : (rest : String) → owner_of (concat ":" rest) ≡ ""
unfolding owner_of
colon_first rest = ap owner_of (cons-append ":" "" rest)

owner_of-concat :
    (entry_id rest : String)
    → is_plain entry_id ≡ true
    → owner_of (concat entry_id (concat ":" rest)) ≡ entry_id
unfolding owner_of
owner_of-concat String.[] rest p = ap owner_of (nil-append (concat ":" rest)) ∙ colon_first rest
owner_of-concat (String.◌∷◌ c s) rest p =
    let here : (code c =ℕ b':') ≡ false = ground arith in
    let there : is_plain s ≡ true = ground arith in
    ap owner_of (cons-append c s (concat ":" rest))
    ∙ rw here (ap (λ t. String.◌∷◌ c t) (owner_of-concat s rest there))

owner_of-geometry_ref :
    (a : CapAlert) (entry_id rest : String)
    → nothing a.geometry ≡ false
    → is_empty entry_id ≡ false
    → is_plain entry_id ≡ true
    → owner_of (concat (geometry_ref a entry_id) rest) ≡ entry_id
unfolding geometry_ref
owner_of-geometry_ref a entry_id rest g e p =
    let tail = concat a.provider (concat ":" a.id) in
    rw (g, e)
      (ap owner_of (
          append_assoc (concat entry_id ":") tail rest
          ∙ append_assoc entry_id ":" (concat tail rest))
        ∙ owner_of-concat entry_id (concat tail rest) p)

-- A polygon that one entry writes under a ref made from its id leaves every polygon under another
-- entry's refs as it was, whatever evictions it takes, where the ids hold no colon.
pub geometry_ref-put_content :
    (py : Hashing) (a b : CapAlert) (entry other digest : String) (geometry : Members)
    (g : GeometryStore)
    → nothing a.geometry ≡ false
    → nothing b.geometry ≡ false
    → is_empty entry ≡ false
    → is_empty other ≡ false
    → is_plain entry ≡ true
    → is_plain other ≡ true
    → (other == entry) ≡ false
    → let ref = concat (geometry_ref b other) (concat ":" digest) in
      Dict.get ref (put_content py (geometry_ref a entry) geometry g).0.entries
      ≡ Dict.get ref g.entries
unfolding put_content
geometry_ref-put_content py a b entry other digest geometry g ga gb ea eb pa pb ne =
    let hash = concat ":" (py.digest (py.serialize geometry)) in
    put_serialized_isolated (concat (geometry_ref a entry) hash)
      (concat (geometry_ref b other) (concat ":" digest)) geometry (py.serialize geometry) g
      (rw
        (
          owner_of-geometry_ref a entry hash ga ea pa,
          owner_of-geometry_ref b other (concat ":" digest) gb eb pb,
        )
        ne)
