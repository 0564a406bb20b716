-- ===== src/Runs/Markers/Completion.antt =====
-- When a topic is complete, in whatever order the markers come.
use book_data_pipeline.Base.{
  ℕ, suc, ◌≤◌, ◌<◌, Text, Bool, true, false, ◌||◌, ◌==◌, ==_iff, leb, leb→le, if◌then◌else◌, some,
  List, [], ◌∷◌, ◌++◌, length, map, any, keep, text_eq, text_eq_refl, text_eq→≡, All, ◌≡◌, ◌∙◌, ◌↔◌,
  refl, ap, sym, inl, inr, arith, Bool-cases, Option-cases, and_true,
}
use book_data_pipeline.Runs.{Observation, Ledger}
use book_data_pipeline.Runs.Markers.{
  is_observed_on, expected_on, same_observation, record_marker, is_topic_complete,
}
use book_data_pipeline.Runs.Markers.Counting.{
  has, AreDistinct, count_below-distinct, count_below-full, full-count_below, has-append,
  AreDistinct-append,
}

-- The partitions that are observed, of a run on a topic.
abbrev pub partitions_of : ℕ → Text → List Observation → List ℕ
partitions_of run_id topic os =
    map (λ (o : Observation). o.partition) (keep (is_observed_on run_id topic) os)

-- The markers of a sequence, one after the other.
abbrev pub record_all : List Observation → Ledger → Ledger
record_all [] l = l
record_all (o ∷ os) l = record_all os (record_marker o.run_id o.topic o.partition l).1

marked : ℕ → Text → ℕ → Observation
marked run_id topic p = record { run_id = run_id; topic = topic; partition = p }

==_comm : (a b : ℕ) → (a == b) ≡ (b == a)
==_comm a b = ground arith

-- An observation of the run on the topic is one of the partitions there.
any-same_observation :
    (run_id : ℕ) (topic : Text) (p : ℕ) (os : List Observation)
    → any (λ (x : Observation). same_observation x (marked run_id topic p)) os
      ≡ has p (partitions_of run_id topic os)
unfolding same_observation is_observed_on marked
any-same_observation run_id topic p [] = refl
any-same_observation run_id topic p (o ∷ os) =
    let rest = any-same_observation run_id topic p os in
    elim (Bool-cases (o.run_id == run_id)) [
      | inr e ↦ rw (e) rest
      | inl e ↦ elim (Bool-cases (text_eq o.topic topic)) [
        | inr e' ↦ rw (e, e') rest
        | inl e' ↦ rw (e, e', ==_comm o.partition p, rest) refl
      ]
    ]

partitions_of-append :
    (run_id : ℕ) (topic : Text) (os : List Observation) (o : Observation)
    → partitions_of run_id topic (os ++ o ∷ []) ≡ (
        if is_observed_on run_id topic o
        then partitions_of run_id topic os ++ o.partition ∷ []
        else partitions_of run_id topic os)
partitions_of-append run_id topic [] o = elim (Bool-cases (is_observed_on run_id topic o)) [
  | inl e ↦ rw e refl
  | inr e ↦ rw e refl
]
partitions_of-append run_id topic (x ∷ os) o =
    let rest = partitions_of-append run_id topic os o in
    elim (Bool-cases (is_observed_on run_id topic x)) [
      | inl e ↦ elim (Bool-cases (is_observed_on run_id topic o)) [
        | inl e' ↦
            let rest' : partitions_of run_id topic (os ++ o ∷ [])
                ≡ partitions_of run_id topic os ++ o.partition ∷ [] =
              rest ∙ rw e' refl in
            rw (e, e', rest') refl
        | inr e' ↦
            let rest' : partitions_of run_id topic (os ++ o ∷ []) ≡ partitions_of run_id topic os =
              rest ∙ rw e' refl in
            rw (e, e', rest') refl
      ]
      | inr e ↦ rw e rest
    ]

expected_on-record_marker :
    (run_id : ℕ) (topic : Text) (o : Observation) (l : Ledger)
    → expected_on run_id topic (record_marker o.run_id o.topic o.partition l).1
      ≡ expected_on run_id topic l
unfolding record_marker
expected_on-record_marker run_id topic o l = elim (Option-cases (expected_on o.run_id o.topic l)) [
  | inl e ↦ rw (e, record_marker) refl
  | inr (n, e) ↦ rw (e, record_marker) refl
]

-- A marker of another run or topic adds no partition.
foreign_marker :
    (run_id : ℕ) (topic : Text) (o : Observation) (l : Ledger)
    → is_observed_on run_id topic o ≡ false
    → partitions_of run_id topic (record_marker o.run_id o.topic o.partition l).1.observations
      ≡ partitions_of run_id topic l.observations
unfolding record_marker
foreign_marker run_id topic o l h = elim (Option-cases (expected_on o.run_id o.topic l)) [
  | inl e ↦ rw (e, record_marker) refl
  | inr (n, e) ↦ elim (Bool-cases (any (λ x. same_observation x o) l.observations)) [
    | inl there ↦ rw (e, record_marker, there) refl
    | inr new ↦
        rw (e, record_marker, new, partitions_of-append run_id topic l.observations o, h) refl
  ]
]

marked-own :
    (run_id : ℕ) (topic : Text) (p : ℕ) → is_observed_on run_id topic (marked run_id topic p) ≡ true
unfolding is_observed_on marked
marked-own run_id topic p = rw (text_eq_refl topic) (ground arith)

-- A marker of the run on the topic adds its partition, once.
own_marker :
    (run_id : ℕ) (topic : Text) (p n : ℕ) (l : Ledger)
    → expected_on run_id topic l ≡ some n
    → partitions_of run_id topic (record_marker run_id topic p l).1.observations ≡ (
        if has p (partitions_of run_id topic l.observations)
        then partitions_of run_id topic l.observations
        else partitions_of run_id topic l.observations ++ p ∷ [])
unfolding record_marker marked
own_marker run_id topic p n l e =
    let seen = any-same_observation run_id topic p l.observations in
    let here = marked-own run_id topic p in
    elim (Bool-cases (has p (partitions_of run_id topic l.observations))) [
      | inl there ↦ let there' = seen ∙ there in rw (e, record_marker, there', there) refl
      | inr new ↦
          let new' = seen ∙ new in
          rw
            (
              e,
              record_marker,
              new',
              new,
              partitions_of-append run_id topic l.observations (marked run_id topic p),
              here,
            )
            refl
    ]

has-known : (k p : ℕ) (ps : List ℕ) → has p ps ≡ true → has k ps ≡ (has k ps || k == p)
has-known k p ps h = elim (Bool-cases (k == p)) [
  | inl e ↦ let same : k ≡ p = ground arith in rw (same, h) refl
  | inr e ↦ elim (Bool-cases (has k ps)) [ inl t ↦ rw (e, t) refl | inr f ↦ rw (e, f) refl ]
]

-- The partitions of a run on a topic are distinct, each below the expected number.
pub record IsTidy (run_id : ℕ) (topic : Text) (n : ℕ) (l : Ledger) : Type 0 where
  pub expected_eq : expected_on run_id topic l ≡ some n
  pub distinct : AreDistinct (partitions_of run_id topic l.observations)
  pub small : All (λ p. p < n) (partitions_of run_id topic l.observations)

All-append :
    (n : ℕ) (ps : List ℕ) (p : ℕ) → All (λ q. q < n) ps → p < n → All (λ q. q < n) (ps ++ p ∷ [])
All-append n [] p all h = (h, tt)
All-append n (q ∷ ps) p all h = (all.0, All-append n ps p all.1 h)

own_marker-IsTidy :
    (run_id : ℕ) (topic : Text) (p n : ℕ) (l : Ledger)
    → IsTidy run_id topic n l
    → p < n
    → IsTidy run_id topic n (record_marker run_id topic p l).1
      × ((k : ℕ)
          → has k (partitions_of run_id topic (record_marker run_id topic p l).1.observations)
            ≡ (has k (partitions_of run_id topic l.observations) || k == p))
unfolding marked
own_marker-IsTidy run_id topic p n l tidy h =
    let after = own_marker run_id topic p n l tidy.expected_eq in
    let expected' =
      expected_on-record_marker run_id topic (marked run_id topic p) l ∙ tidy.expected_eq in
    elim (Bool-cases (has p (partitions_of run_id topic l.observations))) [
      | inl there ↦
          let same : partitions_of run_id topic (record_marker run_id topic p l).1.observations
              ≡ partitions_of run_id topic l.observations =
            after ∙ rw there refl in
          (
            record {
              expected_eq = expected';
              distinct = rw same tidy.distinct;
              small = rw same tidy.small;
            },
            λ k. rw same (has-known k p (partitions_of run_id topic l.observations) there),
          )
      | inr new ↦
          let more : partitions_of run_id topic (record_marker run_id topic p l).1.observations
              ≡ partitions_of run_id topic l.observations ++ p ∷ [] =
            after ∙ rw new refl in
          (
            record {
              expected_eq = expected';
              distinct = rw more (
                  AreDistinct-append (partitions_of run_id topic l.observations) p tidy.distinct
                    new);
              small =
                  rw more (All-append n (partitions_of run_id topic l.observations) p tidy.small h);
            },
            λ k. rw more (has-append k (partitions_of run_id topic l.observations) p),
          )
    ]

foreign_marker-IsTidy :
    (run_id : ℕ) (topic : Text) (o : Observation) (n : ℕ) (l : Ledger)
    → IsTidy run_id topic n l
    → is_observed_on run_id topic o ≡ false
    → IsTidy run_id topic n (record_marker o.run_id o.topic o.partition l).1
foreign_marker-IsTidy run_id topic o n l tidy h =
    let same = foreign_marker run_id topic o l h in
    record {
      expected_eq = expected_on-record_marker run_id topic o l ∙ tidy.expected_eq;
      distinct = rw same tidy.distinct;
      small = rw same tidy.small;
    }

own_fields :
    (run_id : ℕ) (topic : Text) (o : Observation)
    → is_observed_on run_id topic o ≡ true
    → (o.run_id ≡ run_id) × (o.topic ≡ topic)
unfolding is_observed_on
own_fields run_id topic o h =
    let (a, b) = and_true (o.run_id == run_id) (text_eq o.topic topic) h in
    ((==_iff o.run_id run_id).0 a, text_eq→≡ o.topic topic b)

observed-IsTidy :
    (run_id : ℕ) (topic : Text) (o : Observation) (n : ℕ) (l : Ledger)
    → is_observed_on run_id topic o ≡ true
    → IsTidy run_id topic n l
    → o.partition < n
    → IsTidy run_id topic n (record_marker o.run_id o.topic o.partition l).1
      × ((k : ℕ)
          → has k (
              partitions_of run_id topic
                (record_marker o.run_id o.topic o.partition l).1.observations)
            ≡ (has k (partitions_of run_id topic l.observations) || k == o.partition))
observed-IsTidy run_id topic o n l own tidy h =
    let (a, b) = own_fields run_id topic o own in
    rw (a, b) (own_marker-IsTidy run_id topic o.partition n l tidy h)

or_assoc : (a b c : Bool) → ((a || b) || c) ≡ (a || (b || c))
or_assoc true b c = refl
or_assoc false b c = refl

record_all-IsTidy :
    (run_id : ℕ) (topic : Text) (n : ℕ) (os : List Observation) (l : Ledger)
    → IsTidy run_id topic n l
    → All (λ p. p < n) (partitions_of run_id topic os)
    → IsTidy run_id topic n (record_all os l)
      × ((k : ℕ)
          → has k (partitions_of run_id topic (record_all os l).observations) ≡ (
              has k (partitions_of run_id topic l.observations)
              || has k (partitions_of run_id topic os)))
record_all-IsTidy run_id topic n [] l tidy h = (tidy, λ k. ground arith)
record_all-IsTidy run_id topic n (o ∷ os) l tidy h =
    let after = (record_marker o.run_id o.topic o.partition l).1 in
    elim (Bool-cases (is_observed_on run_id topic o)) [
      | inl own ↦
          let h' : All (λ p. p < n) (o.partition ∷ partitions_of run_id topic os) = rw own at h in
          let (tidy', seen) = observed-IsTidy run_id topic o n l own tidy h'.0 in
          let (tidy'', rest) = record_all-IsTidy run_id topic n os after tidy' h'.1 in
          (
            tidy'',
            λ k.
                rest k
                ∙ ap (λ b. b || has k (partitions_of run_id topic os)) (seen k)
                ∙ or_assoc (has k (partitions_of run_id topic l.observations)) (k == o.partition)
                    (has k (partitions_of run_id topic os))
                ∙ rw own refl,
          )
      | inr foreign ↦
          let h' : All (λ p. p < n) (partitions_of run_id topic os) = rw foreign at h in
          let same = foreign_marker run_id topic o l foreign in
          let (tidy'', rest) =
            record_all-IsTidy run_id topic n os after
              (foreign_marker-IsTidy run_id topic o n l tidy foreign) h' in
          (
            tidy'',
            λ k.
                rest k
                ∙ ap (λ ps. has k ps || has k (partitions_of run_id topic os)) same
                ∙ rw foreign refl,
          )
    ]

length-map : {A B : Type 0} (f : A → B) (xs : List A) → length (map f xs) ≡ length xs
length-map f [] = refl
length-map f (x ∷ xs) = ap suc (length-map f xs)

le→leb : (a b : ℕ) → a ≤ b → leb a b ≡ true
le→leb a b h = ground arith

complete_iff :
    (run_id : ℕ) (topic : Text) (n : ℕ) (l : Ledger)
    → IsTidy run_id topic n l
    → (is_topic_complete run_id topic l ≡ true)
      ↔ ((k : ℕ) → k < n → has k (partitions_of run_id topic l.observations) ≡ true)
unfolding is_topic_complete
complete_iff run_id topic n l tidy =
    let ps = partitions_of run_id topic l.observations in
    let rows = keep (is_observed_on run_id topic) l.observations in
    let counted = count_below-distinct n ps tidy.distinct tidy.small in
    let same : length ps ≡ length rows = length-map (λ (o : Observation). o.partition) rows in
    let answer : is_topic_complete run_id topic l ≡ leb n (length rows) =
      rw (tidy.expected_eq, is_topic_complete) refl in
    (
      λ h.
          let enough = leb→le n (length rows) (sym answer ∙ h) in
          count_below-full n ps (omega (arith, counted, same, enough)),
      λ h.
          let full = full-count_below n ps h in
          answer ∙ le→leb n (length rows) (omega (arith, counted, same, full)),
    )

-- Where a run on a topic is expected to report from some number of partitions, none of which is
-- observed yet, and a sequence of markers names only such partitions for it, the topic is complete
-- after the markers exactly where each of those partitions is named: in any order, with repetitions,
-- and with markers of other runs and topics in between.
pub record_all-is_topic_complete :
    (run_id : ℕ) (topic : Text) (n : ℕ) (os : List Observation) (l : Ledger)
    → expected_on run_id topic l ≡ some n
    → partitions_of run_id topic l.observations ≡ []
    → All (λ p. p < n) (partitions_of run_id topic os)
    → (is_topic_complete run_id topic (record_all os l) ≡ true)
      ↔ ((k : ℕ) → k < n → has k (partitions_of run_id topic os) ≡ true)
record_all-is_topic_complete run_id topic n os l e none_yet h =
    let tidy : IsTidy run_id topic n l = record {
      expected_eq = e;
      distinct = rw none_yet tt;
      small = rw none_yet tt;
    } in
    let (tidy', seen) = record_all-IsTidy run_id topic n os l tidy h in
    let answer = complete_iff run_id topic n (record_all os l) tidy' in
    let named : (k : ℕ)
        → has k (partitions_of run_id topic (record_all os l).observations)
          ≡ has k (partitions_of run_id topic os) =
      λ k. seen k ∙ rw none_yet refl in
    (
      λ c k small. sym (named k) ∙ answer.0 c k small,
      λ all. answer.1 (λ k small. named k ∙ all k small),
    )
