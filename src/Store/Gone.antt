-- ===== src/Store/Gone.antt =====
-- The boot reconciliation of store.py, for one id: it announces each id of its set once.
use cap_alerts.Prelude.{
  ℕ, ◌+◌, String, ◌≡◌, refl, ◌∙◌, inl, inr, Bool, true, false, not, ◌&&◌, ◌||◌, none, some, List,
  [], ◌∷◌, arith, ◌==◌, eq_iff, Bool-cases, str_ne_sym, subst, ltb,
}
use cap_alerts.Prelude.Text.{text_le}
use cap_alerts.Dict
use cap_alerts.Dict.{Dict, Distinct}
use cap_alerts.Dict.Laws.{get-put, has-remove, Distinct-remove}
use cap_alerts.Model.{CapAlert}
use cap_alerts.Store.State.{AlertStore, Host, Event, removed, tombstone}
use cap_alerts.Store.Absence.{nonempty}
use cap_alerts.Store.Events.{fire_event}
use cap_alerts.Store.Removals.{removals, one_if, removals-fire_event}
use cap_alerts.Store.Boot.{
  announce_gone, registry_alert, insert_sorted, sorted_items, pop_keys, count_fetch,
  reconcile_known_at_boot,
}

-- Two stores agree on an id's tombstone and announced endings.
pub record Unsaid (id : String) (s t : AlertStore) : Type 0 where
  pub tombs : Dict.get id t.tombstones ≡ Dict.get id s.tombstones
  pub count : removals id t.fired ≡ removals id s.fired

pub Unsaid-refl : (id : String) (s : AlertStore) → Unsaid id s s
Unsaid-refl id s = record { tombs = refl; count = refl }

pub Unsaid-trans :
    {id : String} {s t u : AlertStore} → Unsaid id s t → Unsaid id t u → Unsaid id s u
Unsaid-trans a b = record { tombs = b.tombs ∙ a.tombs; count = b.count ∙ a.count }

-- Nothing was said of the id, or its ending was announced once and is tombstoned at `now`.
pub data Said (id : String) (now : ℕ) (xs ys : List Event) (tombstones : Dict ℕ) : Type 0 where
  unsaid : removals id ys ≡ removals id xs → Said id now xs ys tombstones
  said :
      removals id ys ≡ removals id xs + 1
      → Dict.get id tombstones ≡ some now
      → Said id now xs ys tombstones

abbrev pub Once : String → ℕ → AlertStore → AlertStore → Type 0
Once id now s t = Said id now s.fired t.fired t.tombstones

pub Once-after :
    {id : String} {now : ℕ} (s t u : AlertStore) → Unsaid id s t → Once id now t u → Once id now s u
Once-after s t u a (unsaid e) = unsaid (e ∙ a.count)
Once-after s t u a (said e g) = said (omega (arith, a.count)) g

pub Once-before :
    {id : String} {now : ℕ} (s t u : AlertStore) → Once id now s t → Unsaid id t u → Once id now s u
Once-before s t u (unsaid e) b = unsaid (b.count ∙ e)
Once-before s t u (said e g) b = said (b.count ∙ e) (b.tombs ∙ g)

has-insert_sorted :
    (id k v : String) (d : Dict String)
    → Dict.has id (insert_sorted k v d) ≡ (k == id || Dict.has id d)
unfolding insert_sorted Dict.has
has-insert_sorted id k v [] = refl
has-insert_sorted id k v ((j, w) ∷ d) = ground (arith, has-insert_sorted id k v d)

has-sorted_items : (id : String) (d : Dict String) → Dict.has id (sorted_items d) ≡ Dict.has id d
unfolding sorted_items Dict.has
has-sorted_items id [] = refl
has-sorted_items id ((k, v) ∷ d) =
    has-insert_sorted id k v (sorted_items d) ∙ rw (has-sorted_items id d)

Distinct-insert_sorted :
    (k v : String) (d : Dict String)
    → Dict.has k d ≡ false
    → Distinct d
    → Distinct (insert_sorted k v d)
unfolding insert_sorted Dict.has
Distinct-insert_sorted k v [] ne h = (refl, tt)
Distinct-insert_sorted k v ((j, w) ∷ d) ne h = elim (Bool-cases (text_le k j)) [
  | inl q ↦ rw q (ne, (h.0, h.1))
  | inr q ↦ rw q (
    has-insert_sorted j k v d ∙ rw (str_ne_sym j k (ground arith)) h.0,
    Distinct-insert_sorted k v d (ground arith) h.1,
  )
]

Distinct-sorted_items : (d : Dict String) → Distinct d → Distinct (sorted_items d)
unfolding sorted_items
Distinct-sorted_items [] h = tt
Distinct-sorted_items ((k, v) ∷ d) h =
    Distinct-insert_sorted k v (sorted_items d) (rw has-sorted_items h.0)
      (Distinct-sorted_items d h.1)

pub has-pop_keys :
    (id : String) (incoming : Dict CapAlert) (d : Dict String)
    → Dict.has id (pop_keys incoming d) ≡ (not (Dict.has id incoming) && Dict.has id d)
unfolding pop_keys Dict.has
has-pop_keys id [] d = refl
has-pop_keys id ((k, a) ∷ incoming) d =
    has-pop_keys id incoming (Dict.remove k d) ∙ rw has-remove (ground arith)

pub Distinct-pop_keys :
    (incoming : Dict CapAlert) (d : Dict String) → Distinct d → Distinct (pop_keys incoming d)
unfolding pop_keys
Distinct-pop_keys [] d h = h
Distinct-pop_keys ((k, a) ∷ incoming) d h =
    Distinct-pop_keys incoming (Dict.remove k d) (Distinct-remove k d h)

module _ (id : String) (h : Host) (now : ℕ) where
  abbrev one : String → String → AlertStore → AlertStore
  one k event s =
      fire_event h removed (registry_alert s.provider k event) true [] none (tombstone k "" now s)

  one_step :
      (k event : String) (s : AlertStore)
      → removals id (one k event s).fired ≡ removals id s.fired + one_if (k == id)
  unfolding tombstone
  one_step k event s =
      removals-fire_event id h removed (registry_alert s.provider k event) true [] none _

  one_other : (k event : String) (s : AlertStore) → (k == id) ≡ false → Unsaid id s (one k event s)
  unfolding fire_event tombstone
  one_other k event s ne = record {
    tombs = rw (get-put, ne);
    count = one_step k event s ∙ rw ne (omega arith);
  }

  one_count :
      (k event : String) (s : AlertStore)
      → (k == id) ≡ true
      → removals id (one k event s).fired ≡ removals id s.fired + 1
  one_count k event s q = one_step k event s ∙ rw q

  one_tomb :
      (k event : String) (s : AlertStore)
      → (k == id) ≡ true
      → Dict.get id (one k event s).tombstones ≡ some now
  unfolding fire_event tombstone
  one_tomb k event s q = rw (get-put, q)

  announce_gone_other :
      (known : Dict String) (s : AlertStore)
      → Dict.has id known ≡ false
      → Unsaid id s (announce_gone h now known s)
  unfolding announce_gone Dict.has
  announce_gone_other [] s ne = Unsaid-refl id s
  announce_gone_other ((k, event) ∷ known) s ne =
      Unsaid-trans (one_other k event s (ground arith))
        (announce_gone_other known (one k event s) (ground arith))

  announce_gone-Once :
      (known : Dict String) (s : AlertStore)
      → Distinct known
      → Once id now s (announce_gone h now known s)
  unfolding announce_gone
  announce_gone-Once [] s distinct = unsaid refl
  announce_gone-Once ((k, event) ∷ known) s distinct = elim (Bool-cases (k == id)) [
    | inl q ↦
        Once-before s (one k event s) (announce_gone h now known (one k event s))
          (said (one_count k event s q) (one_tomb k event s q))
          (announce_gone_other known (one k event s)
            (subst (λ j. Dict.has j known ≡ false) ((eq_iff k id).0 q) distinct.0))
    | inr q ↦
        Once-after s (one k event s) (announce_gone h now known (one k event s))
          (one_other k event s q) (announce_gone-Once known (one k event s) distinct.1)
  ]

module _ (id : String) (h : Host) (now : ℕ) where
  -- The state in which the ids that are left are announced.
  abbrev counted : AlertStore → AlertStore
  counted s = record s { reconciliations = s.reconciliations + 1 }

  count_fetch-other :
      (s : AlertStore) → Dict.has id s.known_at_boot ≡ false → Unsaid id s (count_fetch h now s)
  unfolding count_fetch
  count_fetch-other s ne = elim (Bool-cases (ltb (s.reconciliations + 1) 2)) [
    | inl q ↦ rw q (record { tombs = refl; count = refl })
    | inr q ↦
        let u =
          announce_gone_other id h now (sorted_items s.known_at_boot) (counted s)
            (has-sorted_items id s.known_at_boot ∙ ne) in
        rw q (record { tombs = u.tombs; count = u.count })
  ]

  count_fetch-Once :
      (s : AlertStore) → Distinct s.known_at_boot → Once id now s (count_fetch h now s)
  unfolding count_fetch
  count_fetch-Once s distinct = elim (Bool-cases (ltb (s.reconciliations + 1) 2)) [
    | inl q ↦ rw q (unsaid refl)
    | inr q ↦ rw q (
        (announce_gone-Once id h now (sorted_items s.known_at_boot) (counted s)
          (Distinct-sorted_items s.known_at_boot distinct)))
  ]

  abbrev left : Dict CapAlert → AlertStore → AlertStore
  left incoming s = record s { known_at_boot = pop_keys incoming s.known_at_boot }

  -- An id that the set does not hold, or that came in, is not announced as gone.
  pub reconcile-other :
      (incoming : Dict CapAlert) (fetched : Bool) (s : AlertStore)
      → (not (Dict.has id incoming) && Dict.has id s.known_at_boot) ≡ false
      → Unsaid id s (reconcile_known_at_boot h now incoming fetched s)
  unfolding reconcile_known_at_boot
  reconcile-other incoming fetched s ne = elim (Bool-cases (nonempty s.known_at_boot)) [
    | inl q ↦ elim (Bool-cases fetched) [
      | inl f ↦
          let u =
            count_fetch-other (left incoming s) (has-pop_keys id incoming s.known_at_boot ∙ ne) in
          rw (reconcile_known_at_boot, q, f) (record { tombs = u.tombs; count = u.count })
      | inr f ↦ rw (reconcile_known_at_boot, q, f) (record { tombs = refl; count = refl })
    ]
    | inr q ↦ rw (reconcile_known_at_boot, q) (Unsaid-refl id s)
  ]

  pub reconcile-Once :
      (incoming : Dict CapAlert) (fetched : Bool) (s : AlertStore)
      → Distinct s.known_at_boot
      → Once id now s (reconcile_known_at_boot h now incoming fetched s)
  unfolding reconcile_known_at_boot
  reconcile-Once incoming fetched s distinct = elim (Bool-cases (nonempty s.known_at_boot)) [
    | inl q ↦ elim (Bool-cases fetched) [
      | inl f ↦
          rw (reconcile_known_at_boot, q, f)
            ((count_fetch-Once (left incoming s)
              (Distinct-pop_keys incoming s.known_at_boot distinct)))
      | inr f ↦ rw (reconcile_known_at_boot, q, f) (unsaid refl)
    ]
    | inr q ↦ rw (reconcile_known_at_boot, q) (unsaid refl)
  ]

  popped :
      (incoming : Dict CapAlert) (d : Dict String)
      → Dict.has id (pop_keys incoming d) ≡ true
      → (Dict.has id incoming ≡ false) × (Dict.has id d ≡ true)
  popped incoming d q = ground (arith, has-pop_keys id incoming d)

  none_left : Dict.has {V = String} id [] ≡ true → ⊥
  unfolding Dict.has
  none_left q = cc

  empty_none : (d : Dict String) → nonempty d ≡ false → Dict.has id d ≡ true → ⊥
  unfolding Dict.has
  empty_none [] n q = cc
  empty_none (x ∷ d) n q = cc

  -- An id that the set still holds afterwards did not come in, and nothing was said of it.
  pub reconcile_left :
      (incoming : Dict CapAlert) (fetched : Bool) (s : AlertStore)
      → Dict.has id (reconcile_known_at_boot h now incoming fetched s).known_at_boot ≡ true
      → (Dict.has id incoming ≡ false)
        × (Dict.has id s.known_at_boot ≡ true)
        × Unsaid id s (reconcile_known_at_boot h now incoming fetched s)
  unfolding reconcile_known_at_boot
  reconcile_left incoming fetched s q = elim (Bool-cases (nonempty s.known_at_boot)) [
    | inl n ↦ elim (Bool-cases fetched) [
      | inl f ↦ elim (Bool-cases (ltb (s.reconciliations + 1) 2)) [
        | inl l ↦
            let (e, k) =
              popped incoming s.known_at_boot (rw (reconcile_known_at_boot, n, f, l) at q) in
            rw (reconcile_known_at_boot, n, f, l) (e, k, record { tombs = refl; count = refl })
        | inr l ↦ absurd (none_left (rw (reconcile_known_at_boot, n, f, l) at q))
      ]
      | inr f ↦
          let (e, k) = popped incoming s.known_at_boot (rw (reconcile_known_at_boot, n, f) at q) in
          rw (reconcile_known_at_boot, n, f) (e, k, record { tombs = refl; count = refl })
    ]
    | inr n ↦ absurd (empty_none s.known_at_boot n (rw (reconcile_known_at_boot, n) at q))
  ]

pub reconcile-Distinct :
    (h : Host) (now : ℕ) (incoming : Dict CapAlert) (fetched : Bool) (s : AlertStore)
    → Distinct s.known_at_boot
    → Distinct (reconcile_known_at_boot h now incoming fetched s).known_at_boot
unfolding reconcile_known_at_boot
reconcile-Distinct h now incoming fetched s d = elim (Bool-cases (nonempty s.known_at_boot)) [
  | inl n ↦ elim (Bool-cases fetched) [
    | inl f ↦ elim (Bool-cases (ltb (s.reconciliations + 1) 2)) [
      | inl l ↦ rw (reconcile_known_at_boot, n, f, l) (Distinct-pop_keys incoming s.known_at_boot d)
      | inr l ↦ rw (reconcile_known_at_boot, n, f, l) tt
    ]
    | inr f ↦ rw (reconcile_known_at_boot, n, f) (Distinct-pop_keys incoming s.known_at_boot d)
  ]
  | inr n ↦ rw (reconcile_known_at_boot, n) d
]
