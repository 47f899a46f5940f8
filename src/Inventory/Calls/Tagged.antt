-- ===== src/Inventory/Calls/Tagged.antt =====
-- The tags that each instance is given.
use reliable_broadcast.Prelude.{
  ◌≡◌, ◌≤◌, All, codes, refl, sym, ◌∙◌, ap, subst, Bool, true, List, [], ◌∷◌, ◌++◌, map, length,
  contains, contains-append, Distinct, arith, list_eq, nat_eq, list_beq_iff, ◌==◌, if◌then◌else◌,
  Text, Distinct-right, Distinct-apart, if_true, beq_refl,
}
use reliable_broadcast.Dict.{Dict, lookup, insert, lookup-insert}
use reliable_broadcast.Inventory.Settings.{Instance, tag_set}
use reliable_broadcast.Inventory.Calls.{
  answer, Tag, FilterSet, Reservation, Connection, slices, list_tags, list_reservations,
  tags_or_empty, add_tag, tags_by_instance_id, with_tags, fetch, instances_of,
}
use reliable_broadcast.Inventory.Calls.Batches.{joined, slices_lem}

-- The tags of the resources asked for, in the order of the cloud.
unfoldable pub tags_among : List Text → List Tag → List Tag
tags_among ids [] = []
tags_among ids (tag ∷ tags) =
    let rest = tags_among ids tags in if contains ids tag.res_id then tag ∷ rest else rest

-- The dictionary of the tags of one resource, where the last value of a name counts.
unfoldable pub own_tags : Text → List Tag → Dict Text Text → Dict Text Text
own_tags id [] d = d
own_tags id (tag ∷ tags) d =
    if tag.res_id == id then own_tags id tags (insert tag.name tag.value d) else own_tags id tags d

own_tags-append :
    (id : Text) (xs ys : List Tag) (d : Dict Text Text)
    → own_tags id (xs ++ ys) d ≡ own_tags id ys (own_tags id xs d)
unfolding own_tags
own_tags-append id [] ys d = refl
own_tags-append id (x ∷ xs) ys d =
    ground (arith, own_tags-append id xs ys d, own_tags-append id xs ys (insert x.name x.value d))

tags_by_instance_id-own_tags :
    (id : Text) (tags : List Tag) (d : Dict Text (Dict Text Text))
    → tags_or_empty (lookup id (tags_by_instance_id d tags))
      ≡ own_tags id tags (tags_or_empty (lookup id d))
unfolding tags_by_instance_id own_tags add_tag
tags_by_instance_id-own_tags id [] d = refl
tags_by_instance_id-own_tags id (tag ∷ tags) d =
    tags_by_instance_id-own_tags id tags (add_tag tag d)
    ∙ ground (
      arith,
      lookup-insert tag.res_id id (insert tag.name tag.value (tags_or_empty (lookup tag.res_id d)))
          d,
      list_beq_iff tag.res_id id,
      ap (λ k. tags_or_empty (lookup k d)),
    )

-- A resource that is asked for is given all of its tags, another none.
own_tags-tags_among :
    (id : Text) (ids : List Text) (tags : List Tag) (d : Dict Text Text)
    → own_tags id (tags_among ids tags) d ≡ (if contains ids id then own_tags id tags d else d)
unfolding own_tags tags_among
own_tags-tags_among id ids [] d = ground arith
own_tags-tags_among id ids (tag ∷ tags) d = ground (
  arith,
  own_tags-tags_among id ids tags d,
  own_tags-tags_among id ids tags (insert tag.name tag.value d),
  list_beq_iff tag.res_id id,
  ap (contains ids),
)

abbrev pub retagged : List Tag → Instance → Instance
retagged all i = record i {
  tags = own_tags i.id all [];
  variables = insert (codes "tags") (tag_set (own_tags i.id all [])) i.variables;
}

abbrev pub id_of : Instance → Text
id_of i = i.id

with_tags-retagged :
    (all : List Tag) (d : Dict Text (Dict Text Text)) (instances : List Instance)
    → ((k : Text)
        → contains (map id_of instances) k ≡ true
        → tags_or_empty (lookup k d) ≡ own_tags k all [])
    → map (with_tags d) instances ≡ map (retagged all) instances
unfolding with_tags contains
with_tags-retagged all d [] same = refl
with_tags-retagged all d (i ∷ instances) same =
    let here : with_tags d i ≡ retagged all i =
      ap (λ t. record i { tags = t; variables = insert (codes "tags") (tag_set t) i.variables })
        (same i.id (ground (arith, beq_refl i.id))) in
    ap (λ j. j ∷ map (with_tags d) instances) here
    ∙ ap (◌∷◌ (retagged all i)) (with_tags-retagged all d instances (λ k h. same k (ground arith)))

module _ (conn : Connection) (all : List Tag)
    (truthful : (ids : List Text)
      → length ids ≤ 199
      → conn.get_all_tags ids ≡ answer (tags_among ids all)) where
  -- The tags of all the batches.
  tags_in : List (List Text) → List Tag
  tags_in [] = []
  tags_in (ids ∷ batches) = tags_among ids all ++ tags_in batches

  list_tags-tags_in :
      (batches : List (List Text))
      → All (λ batch. length batch ≤ 199) batches
      → list_tags conn batches ≡ answer (tags_in batches)
  unfolding list_tags tags_in
  list_tags-tags_in [] small = refl
  list_tags-tags_in (ids ∷ batches) small =
      rw (truthful ids small.0, list_tags-tags_in batches small.1) refl

  own_tags-tags_in :
      (id : Text) (batches : List (List Text)) (d : Dict Text Text)
      → Distinct (joined batches)
      → own_tags id (tags_in batches) d
        ≡ (if contains (joined batches) id then own_tags id all d else d)
  unfolding tags_in joined own_tags contains
  own_tags-tags_in id [] d distinct = refl
  own_tags-tags_in id (ids ∷ batches) d distinct =
      own_tags-append id (tags_among ids all) (tags_in batches) d
      ∙ (own_tags-tags_in id batches (own_tags id (tags_among ids all) d)
            (Distinct-right ids (joined batches) distinct)
          ∙ ground (
            arith,
            own_tags-tags_among id ids all d,
            contains-append ids (joined batches) id,
            Distinct-apart ids (joined batches) id distinct,
          ))

  -- Where the ids of the instances differ, and batches of the allowed size are answered, each instance is given all of its tags and no others, in
  -- however many batches they are asked for, and no instance is lost.
  pub fetch-own_tags :
      (stack_filters : Bool) (filters : List FilterSet) (reservations : List Reservation)
      → list_reservations stack_filters filters conn ≡ answer reservations
      → Distinct (map id_of (instances_of reservations))
      → fetch stack_filters filters conn
        ≡ answer (reservations, map (retagged all) (instances_of reservations))
  unfolding fetch lookup
  fetch-own_tags stack_filters filters reservations found distinct =
      let ids = map id_of (instances_of reservations) in
      let batches = slices (length ids) 0 ids in
      let whole = (slices_lem ids).0 in
      let d = tags_by_instance_id [] (tags_in batches) in
      let given : (k : Text)
          → contains ids k ≡ true
          → tags_or_empty (lookup k d) ≡ own_tags k all [] =
        λ k h.
          tags_by_instance_id-own_tags k (tags_in batches) []
          ∙ (own_tags-tags_in k batches [] (subst Distinct (sym whole) distinct)
              ∙ if_true _ _ (ap (λ xs. contains xs k) whole ∙ h)) in
      rw
        (
          found,
          list_tags-tags_in batches (slices_lem ids).1,
          with_tags-retagged all d (instances_of reservations) given,
        )
        refl
