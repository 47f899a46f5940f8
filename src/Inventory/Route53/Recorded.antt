-- ===== src/Inventory/Route53/Recorded.antt =====
-- Which names are recorded for a resource.
use reliable_broadcast.Inventory.Address.{ends_with}
use reliable_broadcast.Prelude.{
  ℕ, nat_beq_iff, list_beq, ◌+◌, ◌-◌, ◌⊎◌, take, length, length-append, drop-append, take-append,
  codes, ◌++◌, subst, any, ap, sym, ◌≡◌, refl, ◌∙◌, Bool, true, false, not, ◌&&◌, ◌||◌, List, [],
  ◌∷◌, contains, contains-append, arith, nat_eq, list_eq, list_beq_iff, Text, ◌==◌, Bool-cases, inl,
  inr,
}
use reliable_broadcast.Dict.{lookup, lookup-insert}
use reliable_broadcast.Inventory.Route53.{
  Zone, RecordSet, without_last, Records, names_of, add_name, add_resource, add_resources,
  record_name, add_record_sets, add_zones, get_route53_records,
}

-- A name stands in the set of a resource.
abbrev pub is_recorded : Text → Text → Records → Bool
is_recorded resource name records = contains (names_of (lookup resource records)) name

or_right : (b : Bool) → (b || false) ≡ b
or_right b = ground arith

or_false : (b c : Bool) → (b || (c || false)) ≡ (b || c)
or_false b c = ground arith

or_assoc : (a b c : Bool) → ((a || b) || c) ≡ (a || (b || c))
or_assoc a b c = ground arith

gather : (b x c y : Bool) → ((b || (x && y)) || (c && y)) ≡ (b || ((x || c) && y))
gather b x c y = ground arith

already : (b c : Bool) → (c ≡ true → b ≡ true) → b ≡ (b || c)
already b c h = ground (arith, h)

contains-add_name :
    (new name : Text) (names : List Text)
    → contains (add_name new names) name ≡ (contains names name || new == name)
unfolding add_name
contains-add_name new name names = elim (Bool-cases (contains names new)) [
  | inl old ↦ rw old (
      already (contains names name) (new == name)
        (λ same. ap (contains names) (sym ((list_beq_iff new name).0 same)) ∙ old))
  | inr fresh ↦ rw fresh (contains-append names (new ∷ []) name ∙ unfold contains in or_false _ _)
]

add_resource-recorded :
    (new resource : Text) (r name : Text) (records : Records)
    → is_recorded r name (add_resource new resource records)
      ≡ (is_recorded r name records || (resource == r && new == name))
unfolding add_resource
add_resource-recorded new resource r name records =
    rw (lookup-insert resource r (add_name new (names_of (lookup resource records))) records)
      (elim (Bool-cases (resource == r)) [
        | inl here ↦ rw here (
            contains-add_name new name (names_of (lookup resource records))
            ∙ ap (λ q. contains (names_of (lookup q records)) name || new == name)
                ((list_beq_iff resource r).0 here))
        | inr there ↦ rw there (sym (or_right _))
      ])

add_resources-recorded :
    (new : Text) (resources : List Text) (r name : Text) (records : Records)
    → is_recorded r name (add_resources new resources records)
      ≡ (is_recorded r name records || (contains resources r && new == name))
unfolding add_resources contains
add_resources-recorded new [] r name records = sym (or_right _)
add_resources-recorded new (resource ∷ resources) r name records =
    add_resources-recorded new resources r name (add_resource new resource records)
    ∙ rw (add_resource-recorded new resource r name records)
        (gather (is_recorded r name records) (resource == r) (contains resources r) (new == name))

unfoldable pub ends_in_dot : Text → Bool
ends_in_dot [] = false
ends_in_dot (c ∷ []) = c == b'.'
ends_in_dot (c ∷ d ∷ s) = ends_in_dot (d ∷ s)

-- The one name is the other with a dot at its end, or the other itself, where it has none.
unfoldable pub is_name_of : Text → Text → Bool
is_name_of name recorded =
    recorded == name ++ b'.' ∷ [] || (recorded == name && not (ends_in_dot recorded))

ends_in_dot-append : (s : Text) → ends_in_dot (s ++ b'.' ∷ []) ≡ true
unfolding ends_in_dot
ends_in_dot-append [] = refl
ends_in_dot-append (c ∷ []) = refl
ends_in_dot-append (c ∷ d ∷ s) = ends_in_dot-append (d ∷ s)

ends_in_dot-end : (c : ℕ) (s : Text) → (c == b'.') ≡ false → ends_in_dot (s ++ c ∷ []) ≡ false
unfolding ends_in_dot
ends_in_dot-end c [] h = h
ends_in_dot-end c (d ∷ []) h = h
ends_in_dot-end c (d ∷ d' ∷ s) h = ends_in_dot-end c (d' ∷ s) h

-- A text is empty, or has a last character.
last_of : (s : Text) → (s ≡ []) ⊎ ((m : Text) × (c : ℕ) × (s ≡ m ++ c ∷ []))
last_of [] = inl refl
last_of (d ∷ s) = elim (last_of s) [
  | inl e ↦ inr ([], d, ap (◌∷◌ d) e)
  | inr (m, c, e) ↦ inr (d ∷ m, c, ap (◌∷◌ d) e)
]

ends_with-end : (c d : ℕ) (m : Text) → ends_with (d ∷ []) (m ++ c ∷ []) ≡ (c == d)
unfolding ends_with list_beq
ends_with-end c d m =
    let long : length (m ++ c ∷ []) ≡ length m + 1 = length-append m (c ∷ []) in
    rw (long, cut (length m)) (rw (drop-append m (c ∷ [])) (ground arith))
  where
    cut : (n : ℕ) → n + 1 - 1 ≡ n
    cut n = omega arith

without_last-end : (c : ℕ) (m : Text) → without_last (m ++ c ∷ []) ≡ m
unfolding without_last
without_last-end c m =
    ap (λ n. take (n - 1) (m ++ c ∷ [])) (length-append m (c ∷ []))
    ∙ (ap (λ n. take n (m ++ c ∷ [])) (omega arith) ∙ take-append m (c ∷ []))

snoc_beq : (m n : Text) (c : ℕ) → (m ++ c ∷ [] == n ++ c ∷ []) ≡ (m == n)
snoc_beq m n c =
    let injective : m ++ c ∷ [] ≡ n ++ c ∷ [] → m ≡ n =
      λ h. sym (without_last-end c m) ∙ (ap without_last h ∙ without_last-end c n) in
    ground (
      arith,
      list_beq_iff (m ++ c ∷ []) (n ++ c ∷ []),
      list_beq_iff m n,
      injective,
      ap (λ x. x ++ c ∷ []),
    )

record_name-end :
    (name m : Text) (c : ℕ) → (record_name (m ++ c ∷ []) == name) ≡ is_name_of name (m ++ c ∷ [])
unfolding record_name is_name_of codes
record_name-end name m c = elim (Bool-cases (c == b'.')) [
  | inl dot ↦
      let same : c ≡ b'.' = (nat_beq_iff c b'.').0 dot in
      rw (ends_with-end c b'.' m, dot, without_last-end c m)
        (rw (same, snoc_beq m name b'.', ends_in_dot-append m) (ground arith))
  | inr other ↦
      rw (ends_with-end c b'.' m, other)
        (ground (
          arith,
          ends_in_dot-end c m other,
          ends_in_dot-append name,
          list_beq_iff (m ++ c ∷ []) (name ++ b'.' ∷ []),
          ap ends_in_dot,
        ))
]

record_name_empty : (name : Text) → (record_name [] == name) ≡ is_name_of name []
unfolding record_name is_name_of ends_with codes list_beq ends_in_dot
record_name_empty [] = refl
record_name_empty (c ∷ name) = refl

record_name_lem : (name n : Text) → (record_name n == name) ≡ is_name_of name n
record_name_lem name n = elim (last_of n) [
  | inl e ↦
      subst (λ x. (record_name x == name) ≡ is_name_of name x) (sym e) (record_name_empty name)
  | inr (m, c, e) ↦
      subst (λ x. (record_name x == name) ≡ is_name_of name x) (sym e) (record_name-end name m c)
]

-- A record set gives a resource a name.
abbrev pub gives : Text → Text → RecordSet → Bool
gives r name set = contains set.resource_records r && is_name_of name set.name

add_record_sets-recorded :
    (sets : List RecordSet) (r name : Text) (records : Records)
    → is_recorded r name (add_record_sets sets records)
      ≡ (is_recorded r name records || any (gives r name) sets)
unfolding add_record_sets any
add_record_sets-recorded [] r name records = sym (or_right _)
add_record_sets-recorded (set ∷ sets) r name records =
    add_record_sets-recorded sets r name _
    ∙ rw (add_resources-recorded (record_name set.name) set.resource_records r name records) (
        ap
          (λ b.
            (is_recorded r name records || (contains set.resource_records r && b))
            || any (gives r name) sets)
          (record_name_lem name set.name)
        ∙ or_assoc (is_recorded r name records) (gives r name set) (any (gives r name) sets))

module _ (all_rrsets : Text → List RecordSet) (excluded_zones : List Text) where
  -- A zone that is not excluded has a record set that gives a resource a name.
  abbrev pub zone_gives : Text → Text → Zone → Bool
  zone_gives r name zone =
      not (contains excluded_zones (without_last zone.name))
      && any (gives r name) (all_rrsets zone.id)

  add_zones-recorded :
      (zones : List Zone) (r name : Text) (records : Records)
      → is_recorded r name (add_zones all_rrsets excluded_zones zones records)
        ≡ (is_recorded r name records || any (zone_gives r name) zones)
  unfolding add_zones any
  add_zones-recorded [] r name records = sym (or_right _)
  add_zones-recorded (zone ∷ zones) r name records =
      add_zones-recorded zones r name _
      ∙ (elim (Bool-cases (contains excluded_zones (without_last zone.name))) [
        | inl excluded ↦ rw excluded
        | inr included ↦ rw included (
            ap (λ b. b || any (zone_gives r name) zones)
              (add_record_sets-recorded (all_rrsets zone.id) r name records)
            ∙ or_assoc (is_recorded r name records) (any (gives r name) (all_rrsets zone.id))
                (any (zone_gives r name) zones))
      ])

  -- A name is recorded for a resource if a zone that is not excluded has a record set of that name,
  -- less the dot at its end, that lists the resource; no other name is.
  pub get_route53_records_lem :
      (zones : List Zone) (resource name : Text)
      → is_recorded resource name (get_route53_records all_rrsets excluded_zones zones)
        ≡ any (zone_gives resource name) zones
  unfolding get_route53_records
  get_route53_records_lem zones resource name =
      add_zones-recorded zones resource name [] ∙ unfold lookup contains in refl
