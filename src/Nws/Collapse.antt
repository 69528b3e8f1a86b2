-- ===== src/Nws/Collapse.antt =====
-- Which transmission of a product the collapse keeps (providers/nws_conventions.py).
use Prim.Native.Char.{Char}
use cap_alerts.Prelude.{
  ◌≤◌, ◌≡◌, ◌⊎◌, inl, inr, refl, sym, ◌∙◌, ap, subst, String, Bool, Option, none, some, List, [],
  ◌∷◌, ◌++◌, map, append_assoc, Bool-cases,
}
use cap_alerts.Prelude.Lists.{
  All, All-append, Among, Among-append_left, Among-append_right, All-Among,
}
use cap_alerts.Conventions.{StageContext}
use cap_alerts.Model.{CapAlert}
use cap_alerts.Model.Json.{Json}
use cap_alerts.Nws.Newest.{same_key_lem, sent_level, newest-IsNewest}
use cap_alerts.Nws.Reissue.{
  Key, Group, same_key, file_under, file_alert, newest, reissue_key, reminted, file_all, collapsed,
  both, collapse_nws_reissues,
}
use cap_alerts.Time.{FromIso}

module _ (from_iso : FromIso) (is_digit : Char → Bool) (str : Json → String)
    (digest : String → String) where
  abbrev key_of : CapAlert → Option Key
  key_of = reissue_key from_iso is_digit str digest

  -- An alert stands in the group of a key.
  abbrev InGroup : Key → CapAlert → List Group → Type 0
  InGroup key alert [] = ⊥
  InGroup key alert ((k, first, later) ∷ groups) =
      ((k ≡ key) × Among alert (first ∷ later)) ⊎ InGroup key alert groups

  -- The members of a group are alerts of the poll with the key of the group.
  abbrev IsFiled : List CapAlert → Group → Type 0
  IsFiled alerts (key, first, later) =
      All (λ alert. (key_of alert ≡ some key) × Among alert alerts) (first ∷ later)

  InGroup-added :
      (key : Key) (alert : CapAlert) (groups : List Group)
      → InGroup key alert (file_under key alert groups)
  unfolding file_under
  InGroup-added key alert [] = inl (refl, inl refl)
  InGroup-added key alert ((k, first, later) ∷ groups) = elim (Bool-cases (same_key k key)) [
    | inl e ↦ rw e (
        inl
          (same_key_lem k key e, Among-append_right alert (first ∷ later) (alert ∷ []) (inl refl)))
    | inr e ↦ rw e (inr (InGroup-added key alert groups))
  ]

  InGroup-file_under :
      (key k : Key) (alert a : CapAlert) (groups : List Group)
      → InGroup key alert groups
      → InGroup key alert (file_under k a groups)
  unfolding file_under
  InGroup-file_under key k alert a [] h = absurd h
  InGroup-file_under key k alert a ((l, first, later) ∷ groups) h =
      elim (Bool-cases (same_key l k)) [
        | inl e ↦ elim h [
          | inl (same, among) ↦
              rw e (inl (same, Among-append_left alert (first ∷ later) (a ∷ []) among))
          | inr rest ↦ rw e (inr rest)
        ]
        | inr e ↦ elim h [
          | inl here ↦ rw e (inl here)
          | inr rest ↦ rw e (inr (InGroup-file_under key k alert a groups rest))
        ]
      ]

  file_under-IsFiled :
      (alerts : List CapAlert) (key : Key) (alert : CapAlert) (groups : List Group)
      → key_of alert ≡ some key
      → Among alert alerts
      → All (IsFiled alerts) groups
      → All (IsFiled alerts) (file_under key alert groups)
  unfolding file_under
  file_under-IsFiled alerts key alert [] named among h = (((named, among), tt), tt)
  file_under-IsFiled alerts key alert ((k, first, later) ∷ groups) named among h =
      elim (Bool-cases (same_key k key)) [
        | inl e ↦
            let named' : key_of alert ≡ some k = named ∙ ap some (sym (same_key_lem k key e)) in
            rw e (
              All-append (λ a. (key_of a ≡ some k) × Among a alerts) (first ∷ later) (alert ∷ [])
                  h.0 ((named', among), tt),
              h.1,
            )
        | inr e ↦ rw e (h.0, file_under-IsFiled alerts key alert groups named among h.1)
      ]

  abbrev file_each : List CapAlert → List CapAlert × List Group → List CapAlert × List Group
  file_each = file_all from_iso is_digit str digest

  abbrev file_one : CapAlert → List CapAlert × List Group → List CapAlert × List Group
  file_one alert = file_alert from_iso is_digit str digest (key_of alert) alert

  -- An alert without a key is passed on, and one with a key is in its group.
  abbrev IsPlaced : Option Key → CapAlert → List CapAlert × List Group → Type 0
  IsPlaced none alert (p, groups) = Among alert p
  IsPlaced (some key) alert (p, groups) = InGroup key alert groups

  file_alert-IsPlaced :
      (key k : Option Key) (alert a : CapAlert) (p : List CapAlert) (groups : List Group)
      → IsPlaced key alert (p, groups)
      → IsPlaced key alert (file_alert from_iso is_digit str digest k a (p, groups))
  file_alert-IsPlaced none none alert a p groups h = Among-append_left alert p (a ∷ []) h
  file_alert-IsPlaced none (some k) alert a p groups h = h
  file_alert-IsPlaced (some key) none alert a p groups h = h
  file_alert-IsPlaced (some key) (some k) alert a p groups h =
      InGroup-file_under key k alert a groups h

  kept-IsPlaced :
      (key : Option Key) (alerts : List CapAlert) (alert : CapAlert) (p : List CapAlert)
      (groups : List Group)
      → IsPlaced key alert (p, groups)
      → IsPlaced key alert (file_each alerts (p, groups))
  unfolding file_all
  kept-IsPlaced key [] alert p groups h = h
  kept-IsPlaced key (a ∷ alerts) alert p groups h =
      let (p', groups') = file_one a (p, groups) in
      kept-IsPlaced key alerts alert p' groups'
        (file_alert-IsPlaced key (key_of a) alert a p groups h)

  one-IsPlaced :
      (key : Option Key) (alert : CapAlert) (p : List CapAlert) (groups : List Group)
      → IsPlaced key alert (file_alert from_iso is_digit str digest key alert (p, groups))
  one-IsPlaced none alert p groups = Among-append_right alert p (alert ∷ []) (inl refl)
  one-IsPlaced (some key) alert p groups = InGroup-added key alert groups

  each-IsPlaced :
      (alerts : List CapAlert) (alert : CapAlert) (p : List CapAlert) (groups : List Group)
      → Among alert alerts
      → IsPlaced (key_of alert) alert (file_each alerts (p, groups))
  unfolding file_all
  each-IsPlaced [] alert p groups a = absurd a
  each-IsPlaced (x ∷ alerts) alert p groups (inl e) =
      let (p', groups') = file_one x (p, groups) in
      subst (λ y. IsPlaced (key_of y) y (file_each alerts (p', groups'))) (sym e)
        (kept-IsPlaced (key_of x) alerts x p' groups' (one-IsPlaced (key_of x) x p groups))
  each-IsPlaced (x ∷ alerts) alert p groups (inr a) =
      let (p', groups') = file_one x (p, groups) in each-IsPlaced alerts alert p' groups' a

  file_alert-IsFiled :
      (alerts : List CapAlert) (key : Option Key) (alert : CapAlert) (p : List CapAlert)
      (groups : List Group)
      → key_of alert ≡ key
      → Among alert alerts
      → All (IsFiled alerts) groups
      → All (IsFiled alerts) (file_alert from_iso is_digit str digest key alert (p, groups)).1
  file_alert-IsFiled alerts none alert p groups e among h = h
  file_alert-IsFiled alerts (some key) alert p groups e among h =
      file_under-IsFiled alerts key alert groups e among h

  each-IsFiled :
      (all alerts : List CapAlert) (p : List CapAlert) (groups : List Group)
      → All (λ alert. Among alert all) alerts
      → All (IsFiled all) groups
      → All (IsFiled all) (file_each alerts (p, groups)).1
  unfolding file_all
  each-IsFiled all [] p groups among h = h
  each-IsFiled all (a ∷ alerts) p groups (here, among) h =
      let (p', groups') = file_one a (p, groups) in
      each-IsFiled all alerts p' groups' among
        (file_alert-IsFiled all (key_of a) a p groups refl here h)

  -- The member of a group that is kept, under its new identity.
  abbrev pub Winner : List CapAlert → Key → CapAlert → List CapAlert → Type 0
  Winner alerts key alert result =
      (winner : CapAlert) × Among winner alerts
      × (key_of winner ≡ some key)
      × (sent_level from_iso alert ≤ sent_level from_iso winner)
      × Among (reminted from_iso is_digit str digest key winner) result

  group-Winner :
      (alerts : List CapAlert) (key : Key) (alert : CapAlert) (groups : List Group)
      → All (IsFiled alerts) groups
      → InGroup key alert groups
      → Winner alerts key alert (map (collapsed from_iso is_digit str digest) groups)
  unfolding collapsed
  group-Winner alerts key alert [] filed h = absurd h
  group-Winner alerts key alert ((k, first, later) ∷ groups) filed (inl (same, among)) =
      let (here, most) = newest-IsNewest from_iso first later in
      let winner = newest from_iso first later in
      let (named, polled) =
        All-Among (λ a. (key_of a ≡ some k) × Among a alerts) (first ∷ later) winner filed.0 here in
      let le =
        All-Among (λ a. sent_level from_iso a ≤ sent_level from_iso winner) (first ∷ later) alert
          most among in
      (
        winner,
        polled,
        named ∙ ap some same,
        le,
        inl (ap (λ l. reminted from_iso is_digit str digest l winner) (sym same)),
      )
  group-Winner alerts key alert ((k, first, later) ∷ groups) filed (inr h) =
      let (winner, polled, named, le, kept) = group-Winner alerts key alert groups filed.1 h in
      (winner, polled, named, le, inr kept)

  -- An alert without a key is kept as it is; of those with its key, one sent no earlier is kept.
  abbrev pub Kept : List CapAlert → CapAlert → List CapAlert → Option Key → Type 0
  Kept alerts alert result none = Among alert result
  Kept alerts alert result (some key) = Winner alerts key alert result

  placed-Kept :
      (alerts : List CapAlert) (alert : CapAlert) (key : Option Key) (p : List CapAlert)
      (groups : List Group)
      → IsPlaced key alert (p, groups)
      → All (IsFiled alerts) groups
      → Kept alerts alert (both from_iso is_digit str digest (p, groups)) key
  placed-Kept alerts alert none p groups h filed =
      Among-append_left alert p (map (collapsed from_iso is_digit str digest) groups) h
  placed-Kept alerts alert (some key) p groups h filed =
      let (winner, polled, named, le, kept) = group-Winner alerts key alert groups filed h in
      (
        winner,
        polled,
        named,
        le,
        Among-append_right _ p (map (collapsed from_iso is_digit str digest) groups) kept,
      )

  everyone : (alerts more : List CapAlert) → All (λ alert. Among alert (more ++ alerts)) alerts
  everyone [] more = tt
  everyone (a ∷ alerts) more = (
    Among-append_right a more (a ∷ alerts) (inl refl),
    subst (λ all. All (λ alert. Among alert all) alerts) (append_assoc more (a ∷ []) alerts)
        (everyone alerts (more ++ a ∷ [])),
  )

  -- The collapse keeps each alert of the poll that has no key as it is, and of those with a key
  -- it keeps, under the identity of the key, an alert of the poll with the same key that was sent
  -- no earlier, where a time that cannot be read counts as the earliest.
  pub collapse_nws_reissues-Kept :
      (alerts : List CapAlert) (ctx : StageContext) (alert : CapAlert)
      → Among alert alerts
      → Kept alerts alert
          (collapse_nws_reissues from_iso is_digit str digest alerts ctx)
          (reissue_key from_iso is_digit str digest alert)
  unfolding collapse_nws_reissues
  collapse_nws_reissues-Kept alerts ctx alert among =
      let (p, groups) = file_each alerts ([], []) in
      placed-Kept alerts alert (key_of alert) p groups (each-IsPlaced alerts alert [] [] among)
        (each-IsFiled alerts alerts [] [] (everyone alerts []) tt)
